-- ===== src/Lib.antt =====
-- Verification of lin_socket_io, a C++ network library.
--
-- The program. An IO thread runs a worker (core/worker.cpp), whose event loop waits on a pipe and takes
-- tasks from a queue (core/queue.h). The scheduler (core/scheduler.cpp) hands a task to a worker by a
-- key; the key of a connection is its id, which the manager of its thread makes (core/manager.cpp). A
-- connection keeps the futures of the calls that wait for a reply (core/connection.h, core/future.h).
-- Bytes to send and bytes received stand in a ByteBuffer (utils/bytebuffer.h), into which a Serializer
-- writes and from which a Deserializer reads (utils/serializer.h). Base64 and URLs are helpers.
--
-- The files.
--   Base      tests, lists, tables, results: what the other modules share
--   Buffer    utils/bytebuffer.h. A block of memory is a function from offsets to bytes, and a pointer
--             an offset; `fresh` stands for what new memory holds. Children: Memory, Invariant, Reserve
--             (room, exceptions), Contents (write and erase), Trim (compact, gc), Fifo (the refinement)
--   Wire      utils/byteorder.h and BO of utils/serializer.h, on a little-endian host
--   Serial    Writer is Serializer and Reader is Deserializer of utils/serializer.h; Fields writes and
--             reads a list of fields with them (Fields.RoundTrip)
--   Thrift    the namespace thrift of utils/serializer.h: skip; Values has the values and their bytes, Parts
--             and Skipping what skip does with them, Progress its end, Short data that is cut off, Protocol
--             the begin functions, Message whole messages with Putting and Delivery
--   Base64    utils/base64.cpp
--   Countdown core/countdown.h, core/countdown.cpp and timout_run of core/selector.h. Falls (the search
--             for a fall), Steps, Elapse (click_elapse), Invariant, Kept, Place and Select (select_timeout),
--             Alarms and Selected (what the wheel promises), Timeline (sequences of calls)
--   Url       utils/url_parser.h and utils/url_parser.cpp: Escape, Params (the map), Parser
--   Strings   utils/string_helper.h: Search (what find, Split, Count and Replace do), Separated and Chars
--             (with a string, with a character), Trimmed
--   Utility   DiffNewOldMap of utils/utility.h; Reported has what it reports
--   Manager   core/manager.h, core/manager.cpp: Ids (the seed), Residue, Lifecycle (create and close),
--             Udp (ISocketManager of core/connection.h, and the connections of a UDP listener)
--   Queue     core/queue.h, core/queue.cpp; Wakeup has the interleavings as a step relation
--   Socket    core/handler.h, core/handler.cpp and the flags and calls of core/socket_helper.h; Selecting
--             has what a call of select leaves selected
--   Tcp       core/tcp_connection.h, core/tcp_connection.cpp: the state, send and flush; Handling has the
--             event handlers, Opening the constructors and the dispatch, Stream and Flow the bytes that
--             are sent, Served, Kept and Keeping what holds between events, Reading onRead, Trace and
--             Lifetime any sequence of calls and events
--   Udp       core/udp_connection.h, core/udp_connection.cpp: the state and the handlers; Opening has the
--             constructors and the dispatch, Queued and Sending the datagrams, Blocked an empty one, Kept
--             and Lifetime any sequence of calls and events
--   Packet    utils/packet.h: Pack, Unpack, containers and the two conversions with a string; Images has
--             the bytes of a value, Pushing what is appended, RoundTrip and Truncated what is read back,
--             Composite the lists and maps of containers
--   Scheduler core/scheduler.cpp, core/worker.cpp; Routing has where tasks go
--   Future    Promise, IFuture and the timeouts of core/future.h and core/future.cpp, and the futures
--             of core/connection.h
--   The modules Runs hold concrete runs.
--
-- Conventions. A function keeps its name in lower case. Numbers are natural numbers; where the source
-- has a w-bit integer the wrap is written out. An exception is `err` of Base.Results; an operation that
-- does not return, or reads outside of its memory, is `none`. size_t has 64 bits, char is signed.
--
-- Fuel. alloc_size doubles at most 32 times, which takes any capacity from 1024 past the limit, which
-- is below 2^30. getConnectionId runs one round for each connection and two more: that many seeds in a
-- row are different unless the seed comes all the way round, which is excluded by a hypothesis. skip
-- has one more than the bytes there are, for its nesting and for the fields of a struct: each takes one.
-- The loops of Split, Count and Replace have a round for each character; that of DiffNewOldMap has the
-- rounds of the source.
--
-- Parameters. Varstr is declared in a header that is not in the repository: `stored` stands for what its
-- m_size keeps of a size, and the theorems on packets need the 16 bits that packet.h describes.
--
-- Not modelled. Varint is declared in a header that is not in the repository, so the varint operations
-- are left out; so are floating point fields, system calls, epoll, threads and locks, coroutines,
-- logging, the protocol buffer helpers, UDP sockets without a connection and the listeners. An operation
-- that holds a lock is one step. Callbacks are recorded, and do not call back.
pub mod Base
pub mod Base64
pub mod Buffer
pub mod Countdown
pub mod Future
pub mod Manager
pub mod Packet
pub mod Queue
pub mod Scheduler
pub mod Serial
pub mod Socket
pub mod Strings
pub mod Tcp
pub mod Thrift
pub mod Udp
pub mod Url
pub mod Utility
pub mod Wire
