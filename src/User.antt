-- ===== src/User.antt =====
-- The user programs of xv6.
pub mod Grep
