-- ===== src/Sign.antt =====
-- bootcfg/sign: signed responses, and the key that signs them
pub mod Writer
pub mod Keys
