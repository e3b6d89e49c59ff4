-- ===== src/Switch.antt =====
-- The ports behind switches, src/snsd_switch.c and src/snsd_switch.h.
pub mod FdInfo
pub mod Unique
pub mod Index
pub mod Slaves
pub mod Settled
pub mod Poll
pub mod FdData
pub mod Port
pub mod Handle
pub mod Pass
pub mod Kept
