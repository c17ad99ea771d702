-- ===== src/Sbuf.antt =====
-- src/sbuf.c: the message queues of the connections.
--
-- A queue is a chain of users of buffers; a buffer whose message goes to many clients stands in many
-- chains and counts them. Pool is the memory: the buffers, the pools of free ones, the counters.
-- Queue and Share are the calls on queues and on shared buffers. Owned is the ownership of every
-- buffer, Chain the bytes and the order of a queue. The others are about the calls, one after another.
pub mod Pool
pub mod Queue
pub mod Share
pub mod Owned
pub mod Alloc
pub mod Chain
pub mod Users
pub mod Put
pub mod Append
pub mod Whole
pub mod Take
pub mod Flush
pub mod Lines
pub mod Get
pub mod Shared
pub mod Spread
pub mod Ended
pub mod Messages
mod Tests
