-- ===== src/Packet.antt =====
-- src/packet.c: from the bytes that a connection sends to the lines that are parsed; and the input
-- side of src/zlink.c.
--
-- Counters is the counting of bytes, Session the types of this file's functions, Feed the loop of
-- `dopacket`, Receive the functions themselves. Chunks, Bounded and Ending are about how the text
-- is cut, what is kept of it, and the end of the loop. Keeps and Rounds are the inductions on the loop
-- and on the calls of zip_input, Cut and Client the functions, and Output is the output side of zlink.c.
pub mod Counters
pub mod Session
pub mod Feed
pub mod Receive
pub mod Keeps
pub mod Rounds
pub mod Bounded
pub mod Chunks
pub mod Cut
pub mod Client
mod Tests
pub mod Ending
pub mod Output
