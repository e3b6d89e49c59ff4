-- ===== src/Config.antt =====
-- The configuration file, src/snsd_cfg.c and src/snsd_cfg.h.
pub mod Text
pub mod Blank
pub mod Clean
pub mod File
pub mod Sections
pub mod Words
pub mod Options
pub mod Items
pub mod Parse
pub mod Total
pub mod Conflict
pub mod Distinct
