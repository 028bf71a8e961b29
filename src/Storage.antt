-- ===== src/Storage.antt =====
-- bootcfg/storage: the store of groups, profiles and configs, and its files.
pub mod Dir
pub mod Store
pub mod FileStore
