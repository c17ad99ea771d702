-- ===== src/Parse.antt =====
-- src/parse.c: the lines of the protocol.
--
-- Tree is the prefix tree of the commands with the search in it, Line the function `parse`, Field the
-- splitter of configuration lines. The table of the commands (`msgtab` of include/msg.h) is an
-- argument. Order, Table, Search, Loop and Build are about the tree, Ends, Roundtrip and Calls about
-- lines.
pub mod Tree
pub mod Order
pub mod Table
pub mod Search
pub mod Loop
pub mod Build
pub mod Line
pub mod Ends
pub mod Roundtrip
pub mod Calls
pub mod Field
mod Tests
