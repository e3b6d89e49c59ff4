-- ===== src/Peon.antt =====
-- src/snsd_conn_peon.c: the task queues of the connect, disconnect, batch disconnect and recheck
-- workers, and what one pass of a worker does.
pub mod Task
pub mod Scan
pub mod Conflict
pub mod Work
pub mod Get
pub mod Handed
pub mod Complete
pub mod Numbers
pub mod Steps
pub mod World
pub mod Serial
pub mod Rechecked
pub mod Reach
pub mod Latest
