-- ===== src/Http.antt =====
-- bootcfg/http: the HTTP endpoints
pub mod Context
pub mod Parse
pub mod Render
pub mod Boot
pub mod Metadata
pub mod Handlers
pub mod Configs
pub mod Routes
