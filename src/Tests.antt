-- ===== src/Tests.antt =====
-- Concrete runs of the models.
mod Peons
mod Messages
mod Ports
mod Configs
mod Frames
mod Slaves
mod Logs
mod Drivers
mod Contexts
mod Tables
mod Lines
mod Fabrics
mod Mains
