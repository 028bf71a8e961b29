-- ===== src/Storagepb.antt =====
-- bootcfg/storage/storagepb: machine groups and profiles.
pub mod Json
pub mod Group
pub mod Profile
