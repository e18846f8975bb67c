-- ===== src/Lib.antt =====
-- The prpc library: an RPC framework in C++ with a metadata service of its own.
--
-- The parts, and how they interact. The metadata service (rpc/Master.h, rpc/Master.cpp) keeps a tree of
-- paths for the processes of a cluster, much as ZooKeeper does: clients connect over TCP, make, read and
-- take away nodes, and hear of each change. The RPC contexts (rpc/RpcContext.h, rpc/RpcContext.cpp) find
-- their peers in it, and route each request that comes in to one of the dealers of a server. The codecs
-- (codec/Base64.h, codec/URICode.h) serve the configuration and the clients. The accumulator server
-- (accumulator/AccumulatorServer.cpp) merges statistics that the processes send it over RPC. The contexts
-- and the containers are guarded by RWSpinLock (thread/SpinLock.h).
--
-- The files:
-- - Base and below: numbers, tests, lists, maps, sorted sets, and `Outcome`, the result of code that may
--   abort. A failed SCHECK, and an access that C++ leaves undefined, is `fault`.
-- - Master: the class `Master` and its handlers. A field of the record is a field of the class, a
--   function has the method's name. `exit`, a variable of `serving`, is a field too, which `serving` sets
--   to false. What the sockets are
--   given to send is the list `sent`, in order. A request is the data type `Request`, which has what
--   `handle_op` and the handlers read from the archive.
-- - Master/Path: `master_check_valid_path`, the split of a path at its last '/', and generated keys.
--   Master/Path/Segments has the grammar of paths, Master/Path/Split the split, Master/Path/Keys the keys.
-- - Master/Tree, Master/Store, Master/Leaves: the invariant of `_path`, stated of the lookup function and
--   so without the order of the map, and the two changes that the handlers share, a new leaf and a leaf
--   taken away.
-- - Master/Spec: what the service promises, on a function from paths to values and owners, with no `sub`
--   sets. Master/Answers, Master/Handlers, Master/Delete, Master/Generate, Master/Queries and
--   Master/Disconnect relate the operations to it, all but `master_get`; Master/Changes and Master/Effects
--   put them together.
-- - Master/Serving: the loop `serving`, with what it is given in Master/Serving/Rounds and its
--   invariant in Master/Serving/Valid and Master/Serving/Safety.
-- - Rpc/FairQueue: the class `FairQueue`. Rpc/FairQueue/Dealers, Rpc/FairQueue/Balance and
--   Rpc/FairQueue/Delivery have its invariant and the choice of a dealer.
-- - Rpc/Backend: the methods of `RpcContext` on its servers and client dealers, with routing in
--   Rpc/Backend/Routing and the cache of early requests in Rpc/Backend/Replay.
-- - Rpc/Frontends: `send_request` and the choice of a frontend, with what it finds in
--   Rpc/Frontends/Choice. That a frontend is available is a field of the context, and one for the call.
-- - Rpc/Frontends/Services: `update_service_info`, which makes the tables for that choice, one server at a
--   time. Rpc/Frontends/Services/Offers has what it writes for one server, Rpc/Frontends/Services/Tables
--   the loops, Rpc/Frontends/Services/Repeats the lists that end the process, and
--   Rpc/Frontends/Services/Queries what `get_avaliable_servers` finds in the tables.
-- - Codec/Base64 and Codec/Uri: the two codecs, with their round trips below.
-- - Thread/RwSpinLock: the class `RWSpinLock` of thread/SpinLock.h. Each atomic instruction is one step of
--   one thread, and a schedule is any sequence of steps; a weak exchange may fail for no reason.
--   Thread/RwSpinLock/Words has what the tests read off the word, Thread/RwSpinLock/Exclusion one step,
--   and Thread/RwSpinLock/Threads all threads.
-- - Thread/SpinLock: the class `SpinLock` of thread/SpinLock.h, with its exclusion in Thread/SpinLock/Mutex.
-- - Thread/MpscQueue: the class `MpscQueue` of thread/MpscQueue.h, in the same way, with a push as its two
--   writes. Thread/MpscQueue/Chain has the nodes from the tail to the head, Thread/MpscQueue/Order all
--   steps. An address is not used again, and the consumer is one thread.
-- - Memory/BlockAllocator: the class `BlockAllocator` of misc/BlockAllocator.h.
--   Memory/BlockAllocator/Partition ties the list of free entries to the blocks,
--   Memory/BlockAllocator/Clients has the states that clients bring about.
-- - Accumulator/Aggregators: the aggregators of accumulator/, at `uint64_t`, and their laws.
-- - Accumulator/Server: `AccumulatorServer` of accumulator/AccumulatorServer.cpp, its handlers and its
--   loop. Accumulator/Server/Order forgets the order of the map and of the writes,
--   Accumulator/Server/Typing and Accumulator/Server/Answers follow the loop.
-- - Text/Split: `split` and `split_lines` of misc/StringUtility.h, with what they give in
--   Text/Split/Tokens.
-- - Archive: `MemoryArchive` of rpc/Archive.h. Archive/Memory has what an archive holds, with reading,
--   writing and growth below it. Archive/Serial has the binary format, a reader and a writer for each
--   type; Archive/Serial/Laws says what the two promise, Archive/Serial/RoundTrip and
--   Archive/Serial/Containers prove it for each type, Archive/Serial/Truncated is about messages that
--   are cut off, and Archive/Serial/Shapes puts the types together.
-- - Cache: `LRUCache` of misc/LRUCache.h, with its nodes in a store. Cache/Links and Cache/Moves are
--   about the doubly linked list, Cache/Cells about the list of entries it stands for, Cache/Invariant
--   ties the two, and Cache/Refinement, Cache/Insertion and Cache/Limits follow the operations, one after
--   another: `find` shares its lock, and two calls of it at once are not modelled.
-- - Tests: runs at concrete inputs.
--
-- Numbers and bounds. An `int` that counts is a natural number with a check against 2 ^ 31 where the
-- code would overflow (`_gen_id`); the round-robin indices of `FairQueue` are bit patterns of 32 and 64
-- bits that wrap, and start anywhere, since the class does not initialise them. A byte is a number below
-- 256, and a `char` of 128 or more is negative. The server id -1, any server, is `none`. An
-- `unordered_map` is an association list, whose order stands for the order of iteration. How many
-- elements `_path` holds before it rehashes is a field: `master_gen` and `master_add` use an iterator
-- across an `emplace`, and where that rehashes it is a fault. The theorems ask for so much room.
--
-- Fuel. `to_string` has one round more than the number, and a number has no more digits; a key is padded
-- for ten rounds, and it is padded to ten characters; the loop over a queue's dealers has a round for each
-- dealer; base64_decode has a round for each four characters; a split has one
-- round more than the text has characters. Enough fuel is part of the theorems.
--
-- What is not modelled. Sockets, `poll` and `accept` are outside: what they deliver is a list of events,
-- and `Polled` says that `poll` reports an open connection. The locks of `RpcContext` make each operation
-- one step. Log lines are left out. The life of a frontend, the dealers and the messages are outside the model, as
-- are the hash tables, the other queues and the clients of the accumulators. Of the archives, the deleters, the
-- file archives and the text format are left out, and that memory runs out; an allocator is a parameter
-- whose blocks have the size that was asked for. The memory of the lock is sequentially consistent: the
-- memory orders are not modelled. The tests of the lock need fewer than 2 ^ 15 threads, or the counts run
-- into one another.
pub mod Accumulator
pub mod Archive
pub mod Base
pub mod Cache
pub mod Codec
pub mod Master
pub mod Memory
pub mod Rpc
pub mod Tests
pub mod Text
pub mod Thread
