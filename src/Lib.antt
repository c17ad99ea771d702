-- ===== src/Lib.antt =====
-- Verification of solidircd, an IRC server, part by part.
--
-- Match: src/match.c and the tables and macros of include/common.h that it defines. `match`
-- compares a string with a wildcard mask, `collapse` shortens a mask, mycmp, mycmp_diff and myncmp
-- compare names without case. Texts are lists of bytes without the terminator. Match.Compare and
-- Match.Tables are the comparisons and the case tables, Match.Glob is `match` itself, Match.Pattern
-- says what a mask means, independently of the code. `_match` counts its recursive calls and gives
-- up above 512; the model keeps the count. The loop runs on fuel, one more than the length of the
-- mask, since every round takes a byte of the mask. `collapse` runs on the same fuel.
--
-- HashTable: the generic chained hash table of src/throttle.c and include/throttle.h. Keys are
-- hashed byte by byte as 32-bit numbers (a char is signed), folded by Match.Tables for the tables
-- that ignore case. What a table holds is given by its entries in the order of their insertion,
-- newest first (HashTable.Models); HashTable.Resize is the rehash, HashTable.Runs any run of the
-- calls. The comparison function, strcmp of the C library in every use, is a parameter with the one
-- law that it is zero exactly on equal texts.
--
-- Throttle: the connection throttle of src/throttle.c. The state is the list of records, the hash
-- table of their addresses and the counter. Pointers are addresses, and each read through a pointer
-- can fail in the model, so that a stale pointer is visible. The address of a new record
-- (BlockHeapALLOC of src/blalloc.c) is an argument. Throttle.Valid is the invariant, Throttle.Steps
-- the changes of the list and the table, Throttle.Check the calls for one host, Throttle.Timer and
-- Deadline the sweep, Throttle.Policy what a host sees over a row of connections. Messages to
-- clients and operators are values.
--
-- Hash: src/hash.c without its watch lists, which are Watch. Hash.Names are the three hash
-- functions, Hash.Chains the tables for any such function (the interface NameHash), Hash.Tables
-- those of clients and channels, Hash.Reach the runs of the client table. Names are compared by the
-- mycmp of Match.Compare. A record in a chain carries its address, and of its fields those that the
-- tables read (include/struct.h).
--
-- Clones: src/clones.c, the limits on clients from one host and one site. It keeps a list of
-- entries and a HashTable of their addresses, as Throttle does, and calls throttle_force of
-- Throttle for a client that it refuses. Clones.Decision is about the limits that decide.
--
-- Scache: src/scache.c, the cache of server names, with the comparison of Match.Compare.
-- Scache.Unique is one call, Scache.Later what it returns behind any further calls.
--
-- Rc4: src/rc4.c, the stream cipher of the links between servers. Rc4.Xor is the exclusive or of
-- bytes, Rc4.Permutation the state, Rc4.Stream the two streams.
--
-- Sbuf: src/sbuf.c, the message queues of the connections. A buffer is known by a number; the state
-- is the buffers, the pools of free ones and the counters (Sbuf.Pool). A queue is the chain of its
-- users of buffers and a length (Sbuf.Queue); a buffer that holds a message for many queues counts
-- them (Sbuf.Share). Sbuf.Owned says that each buffer stands once in a pool or counts its users,
-- and Sbuf.Chain what it is for a queue to be in order while others share the memory. Then each
-- call is one on the text that the queue holds: Sbuf.Alloc, Users, Put, Append and Whole are
-- sbuf_put, Sbuf.Take is sbuf_delete, Sbuf.Flush and Lines sbuf_getmsg, Sbuf.Get sbuf_get,
-- Sbuf.Shared, Spread and Ended the shared buffers; Sbuf.Messages is sbuf_put and sbuf_getmsg
-- together. The loop for new buffers runs on fuel above the length of the text, that of sbuf_get on
-- fuel above the length of the queue: every round takes a byte. Both theorems say that this is
-- enough. MyMalloc (src/list.c) does not return without memory.
--
-- Parse: src/parse.c. Parse.Tree is the prefix tree of the commands with do_msg_tree and
-- tree_parse, Parse.Line is `parse`, as a function of the line, the clients and the tree, with its
-- end as a value (Outcome). The table of the commands (msgtab in include/msg.h) is an argument, in
-- the order in which qsort leaves it. do_msg_tree runs on fuel 64, the room in `newpref`, which is
-- enough for names of up to 63 bytes; where `parse` starts again behind `raw` the text is shorter,
-- so that fuel above its length is enough. Parse.Order, Table, Search, Loop and Build are about the
-- tree, Parse.Ends, Roundtrip and Calls about lines, Parse.Field is getfield. What the handlers of
-- the commands do is not modelled.
--
-- Watch: the watch lists of src/hash.c. Headers and clients are known by their addresses, and each
-- has the list of the others that it points to; the address of a new header is an argument.
-- Watch.Linked is the invariant, Watch.Calls adds and deletes, Watch.Leaving is a client that goes.
--
-- Packet: src/packet.c, from the bytes of a connection to the lines, with zip_input of src/zlink.c.
-- Packet.Session has the connection (Conn), what is called (Server: the handlers of the commands
-- behind `parse`, exit_client, the flag of a dead socket) and zip_input on a parameter for inflate;
-- Packet.Counters the counts of bytes, Packet.Feed the loop over the bytes, Packet.Receive dopacket
-- and client_dopacket. A byte that ends a line calls Parse.Line.parse on what stands in the buffer
-- and goes on by the reply of the handler, with the rest of the text decrypted (Rc4) or
-- decompressed when the reply says so. The loop is recursion on `length`; the fuel of zcontinue
-- counts calls of zip_input: 1 is enough without compression (Packet.Cut), and some number always
-- is (Packet.Ending), as zlib never answers Z_OK for ever. Packet.Chunks and Cut are about the
-- pieces in which the text comes, Keeps, Rounds and Bounded about what is kept and what reaches the
-- handlers, Client compares the two functions; Output is zip_output on a parameter for deflate. A
-- zero byte ends a line for `parse`; the time that is charged for it is then not exact.
--
-- Whowas: src/whowas.c, the history of nicknames. The state is the entries, by their places in the
-- ring, the links of the two kinds of lists (Whowas.Pointers: those of the hash table and those of
-- the clients, with the two functions that the source has twice) and the next place. Whowas.Delete
-- and Chains are about the links of one list and of all lists, Lists about the two functions, Ring
-- about the order of the 2048 places from the newest to the oldest. Whowas.Order is add_history:
-- each list has the entries with its key in that order. Added is what it writes, Last what the ring
-- holds behind any calls. Whowas.Off is off_history, Recall get_history, Runs both after any run.
-- The loops run on fuel 2048, the number of the places, and the theorems say that it is enough.
-- Clients are known by addresses.
--
-- Base: shared names; Base.Int has the signed numbers of C's `int` where the source uses them.
--
-- Times, settings and counters do not reach their 32 or 64 bit limits in the model, except where a
-- remainder is written out (the hash values, the bytes of the cipher). Memory that runs out, the
-- free lists of src/blalloc.c, sockets, configuration, and all other files of src/ are not
-- modelled.
pub mod Base
pub mod Match
pub mod HashTable
pub mod Throttle
pub mod Hash
pub mod Clones
pub mod Scache
pub mod Rc4
pub mod Sbuf
pub mod Parse
pub mod Watch
pub mod Packet
pub mod Whowas
