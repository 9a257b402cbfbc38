-- ===== src/Lib.antt =====
-- nvds is an in-memory key-value store over RDMA with replication to non-volatile memory: servers
-- keep tablets, a client sends a request to the server that holds the tablet of the key's hash, and
-- the server replays the changes of its tablet at the backups. A request takes this way: the index
-- manager maps the hash to a tablet and its server (`Index`), the server hands the request to the
-- worker of the tablet (`Index`, `Buffers`), the worker runs `Put`, `Add`, `Get` or `Del` on the
-- tablet (`Server`, `Tablet`), which reads and writes the tablet's memory through the allocator
-- (`Command`, `Allocator`), which logs each write (`Modification`), and `Sync` merges the log and
-- writes it to the backups (`Replication`).
--
-- Parts and files (the paths are those of the repository):
-- - `Base` (children `Base/Lists`, `Base/Tests`): the names and lemmas the parts share.
-- - `Modification`: src/modification.h, a modification and the order of its list.
-- - `Nvm` (`Nvm/Words`, `Nvm/Parts`): the byte memory of a tablet and its little-endian 16- and 32-bit words; the
--   accesses of `Read`, `Write`, `Memcpy` and `Memcmp` of src/allocator.h.
-- - `Command` (`Command/Ends`, `Command/Logged`): a computation on the allocator's state (the memory
--   and the pointer to the list of modifications) that returns, fails an assertion, or is cut off
--   because its fuel is used up; and the accesses of src/allocator.h as such commands.
-- - `Allocator` (`Allocator/Sizes`, `Ends`, `Footer`, `Faults`, `Logged`): src/allocator.h and
--   src/allocator.cc, one definition per method; `FreeBlock`, `AllocBlock` and `RemoveBlock` are
--   composed of the definitions of their parts.
-- - `Allocator/Words` (`Runs`): the five kinds of words that the allocator keeps in the memory, as
--   functions, and commands on them. `Allocator/Lists`: a set of doubly linked lists in such words.
--   `Allocator/Tiling` (`Split`, `Joined`): blocks that tile the space, with their sizes and free tags
--   in the words.
-- - `Allocator/Heap`: both together, the heap. Children follow the code: `Find`, `Take`, `Split`,
--   `Alloc`, `Allocated`, `Served`, `Fresh` for `Alloc`; `Loose`, `Merge`, `MergeNext`, `Free`, `Freed`,
--   `Push`, `Finish`, `Released` for `Free`; `Formatted` for `Format`; `Stored` for writes to an object;
--   `Cycle` for an object from `Alloc` to `Free`. A heap does not say what the last word of a block in
--   use holds, since that word belongs to the user.
-- - `Request`: src/request.h, src/response.h, src/status.h.
-- - `Tablet` (`Tablet/Chain`, `Lookup`, `Overwrite`, `Logged`): `Put`, `Add`, `Get`, `Del` of
--   src/tablet.cc. `Tablet/Table` is a tablet as a whole, its heap and all buckets; `Blank`, `Written`,
--   `Link`, `Insert` and `Added` are about a new object in it.
-- - `Replication` (`Replication/Sort`, `Merge`, `Sync`): `MergeModifications` and `Sync` of
--   src/tablet.cc, with the RDMA write of a signalled work request.
-- - `Server` (`Server/Replicated`, `Server/Flow`, `Server/Join`, `Server/Create`): the switch on the
--   request in `Worker::Serve` of src/server.cc, the way of the buffers through `Poll`, `Dispatch` and
--   `Serve`, `Server::Join` with `Client::Join`, and the constructor of `Server`.
-- - `Client` (`Client/Answer`): `RequestAndWait` and the four calls of src/client.h, src/client.cc.
-- - `Message` (`Message/Json`): the messages of src/message.h and the conversions of src/message.cc.
-- - `Session` (`Session/Framing`, `Session/Async`): src/session.cc, messages over a connection.
-- - `Coordinator` (`Coordinator/Join`, `Coordinator/Cluster`): the handlers of src/coordinator.cc.
-- - `QueuePair` (`QueuePair/Active`, `Create`): the constructor and the state changes of
--   `Infiniband::QueuePair` of src/infiniband.cc, which `Tablet/Create` (the constructor of `Tablet`)
--   and `Tablet/Connect` (`SettingupQPConnect` of src/tablet.cc) use.
-- - `Infiniband` (`Infiniband/Reply`, `Infiniband/Waiting`): the operations on datagrams of
--   src/infiniband.cc, `PostWrite`, and the variants that wait. A wait takes the list of what the calls
--   of `ibv_poll_cq` find.
-- - `Index` (`Index/KeyHash`, `Topology`, `Route`): src/index.h, src/index.cc and the records of
--   src/message.h; the configuration is that of src/common.h.
-- - `Buffers` (`Buffers/Stack`, `Buffers/Fifo`): `RegisteredBuffers` of src/infiniband.h and
--   `WorkQueue` of src/server.h.
-- - `Tests`: heaps, buckets, queues and a cluster on which the definitions are run.
--
-- Conventions. A pointer inside a tablet is an offset, as in the code. A `uint32_t` is a natural
-- number below 2^32 and its sums and differences are written with their wrap-around. `assert` aborts,
-- which is an outcome of its own. The build keeps assertions on. The memory outside the 64 MB and
-- hash table of a tablet is not distinguished: the code does not check the upper bound of an offset.
--
-- Loops. The search of `AllocBlock` has as fuel the number of free lists and one more, each round of
-- it takes one list, so it is always enough. A walk through the chain of a bucket has as fuel the
-- number of rounds `rounds`, which is an argument of the operations: a chain that is not
-- cyclic is walked in as many rounds as it has objects and one more. A loop that runs on for every
-- fuel does not return.
--
-- Parameters. What is not in the repository is a record that the definitions take: libibverbs
-- (`Verbs` of `Replication`, `QpVerbs` of `QueuePair`, `AhVerbs` of `Infiniband`, `Fabric` of
-- `Client`), Boost.Asio (`Pipe` of
-- `Session`) and the JSON library (`Json` of `Message/Json`). What the code relies on stands in a
-- record of laws beside each; the tests have instances that satisfy them.
--
-- Not modelled: the hash function of a key (a hash is an argument), the wait on the condition variable
-- and the measurement of the server, the constructors and destructors that only call libibverbs, and
-- the programs under cs and src/experiments.
pub mod Base
pub mod Modification
pub mod Nvm
pub mod Command
pub mod Allocator
pub mod Request
pub mod Tablet
pub mod Replication
pub mod Server
pub mod Index
pub mod Buffers
pub mod Client
pub mod Message
pub mod QueuePair
pub mod Infiniband
pub mod Session
pub mod Coordinator
mod Tests
