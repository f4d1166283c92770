-- ===== src/Mobile.antt =====
-- mobile: the peers that a device syncs with.
pub mod Peers
