-- ===== src/Server.antt =====
-- src/snsd_server.c: the notification server.
pub mod Message
pub mod Complete
pub mod Pool
pub mod Ack
pub mod Decode
pub mod Bounds
pub mod Safe
pub mod Listener
pub mod Attack
pub mod Notify
pub mod Queue
pub mod Sockets
pub mod Sock
pub mod Query
pub mod Receive
