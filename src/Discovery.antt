-- ===== src/Discovery.antt =====
-- The discovery of ports, src/snsd_mgt.c.
pub mod Slaves
pub mod Live
pub mod Current
pub mod Ports
pub mod Configured
pub mod Vlan
pub mod Row
pub mod Poll
pub mod Filled
pub mod Unique
pub mod Kept
pub mod Device
pub mod Files
pub mod Read
