-- ===== src/Frame.antt =====
-- LLDP frames, src/snsd_reg.c and src/snsd_reg.h.
pub mod Tlv
pub mod Reader
pub mod RoundTrip
pub mod Smart
pub mod Bonding
