-- ===== src/Ipc.antt =====
-- dapper/ipc: the binary frames between the adapter and the debuggee, and the loop that reads them.
pub mod Frame
pub mod Stream
pub mod Receiver
