-- ===== src/Lib.antt =====
-- A model of the core of a C++ server framework: byte buffers, timers, the fiber scheduler and
-- the I/O manager, with the theorems that make them correct.
--
-- The program: a `Scheduler` (server/scheduler.cc) runs tasks, fibers or callbacks, from one queue on
-- several threads. An `IOManager` (server/iomanager.cc) is a scheduler and a `TimerManager`
-- (server/timer.cc): its idle loop waits in epoll_wait until the next deadline, schedules the
-- callbacks of expired timers, and schedules what was registered for the events that occurred.
-- Messages are built and taken apart in a `ByteArray` (server/bytearray.cc, server/endian.h). The
-- hooks of system calls (server/hook.cc) make a blocking call wait in the I/O manager. On top of
-- these, an `HttpServer` (server/http) receives requests from a connection, lets a servlet fill in
-- the response and sends it. A logger (server/log.cc) writes events by a pattern.
--
-- The files, with the code they model:
--   Base         helpers: tests into Bool, lists, machine words, bits, overwriting a part of a list,
--                strings of the C library (Text)
--   ByteArray    server/bytearray.h, server/bytearray.cc: the chain of blocks: growth, write, read,
--                setPosition, clear, toString, getReadBuffers, getWriteBuffers. The nodes before
--                m_cur and those from m_cur on are two lists; a null m_cur is an empty second list.
--                Valid holds the invariant; Writing, Reading, Placing, RoundTrip and Gathering what
--                the operations promise; the other children the loops.
--   Codec        server/bytearray.cc, server/endian.h: the typed reads and writes: fixed width with
--                either byte order (Fixed, Wire), zigzag (Zigzag), varints (Varint, ReadVarint,
--                Signed) and strings (Strings)
--   Timer        server/timer.h, server/timer.cc: timers are objects at addresses, the std::set is a
--                list in the order of the comparator (Order), and the clock is an argument. Arming
--                has add, cancel, refresh and reset, Due, Firing and Expiry listExpiredCb, Invariant
--                the reachable states.
--   Scheduler    server/scheduler.h, server/scheduler.cc: the queue and the scan of `run` (Queue), and all
--                interleavings of submitting, taking, finishing and stopping (Stopping). What runs
--                under the mutex is one step.
--   IoManager    server/iomanager.h, server/iomanager.cc: contexts of descriptors and their operations
--                (Operations), the invariant (Registered), adding (Adding), cancelling and deleting (Cancelling), cancelAll and the events that
--                epoll_wait reports (Ready), what every outcome leaves (Preserving, Growing), and
--                any sequence of these (Invariant)
--   Servlet      server/http/servlet.h, server/http/servlet.cc: the table of servlets (Routing); fnmatch is
--                a parameter
--   Fiber        server/fiber.h, server/fiber.cc: the states of the fibers of one thread (States)
--   Stream       server/stream.cc: reading (Whole) and writing (Sending) a fixed size over the calls
--                that a stream implements, which are parameters
--   FdManager    server/fd_manager.h, server/fd_manager.cc: the table of descriptors (Asking)
--   Http         server/http/http.h, server/http/http.cc: methods and statuses (Method), the maps of
--                names and values (MapType), requests and responses (Request, Response), what they are
--                written as (Dump, with a reader of its own in Dump/Reader); http_parser.cc (Parser),
--                http_session.cc (Session: Receiving has what is received, Shrinking that it ends),
--                http_server.cc and the handling of servlet.cc (Server: Sending has what the stream takes,
--                Keeping what receiving leaves alone, Answering the conversation)
--   Hook         server/hook.cc: do_io (Retrying), sleeping, socket, connect, accept, close and
--                setsockopt (Calls), fcntl and ioctl (Flags)
--   Log          server/log.h, server/log.cc: levels, loggers and the manager (Appending), the pattern
--                and its items (Pattern: Reading has the walk, Rendering what is written)
--   Address      server/address.cc: the order of addresses (Comparing), texts and ports (Printing),
--                local paths (Paths), the host of a lookup (Splitting), counting bits (Counting)
--   TcpServer    server/tcp_server.cc: binding (Binding), accepting, starting and stopping
-- The modules named Examples apply the theorems to concrete states.
--
-- Conventions: machine integers are natural numbers with the wrap-around written out; signed values and
-- floats are their bit patterns. A thrown out_of_range, a failed assertion and undefined behaviour
-- are results. Loops are structural on the chain, the queue or the set; the varint loops run on the
-- room of `tmp` and on the rounds of the source's `for`. The loops of Stream run on fuel: as
-- many rounds as there are bytes, which is enough since each round moves a byte or ends. The rounds of
-- do_io, recvRequest and handleClient run on fuel too; a measure of what the environment has left is
-- enough. Texts are lists of bytes, a number is printed with as many rounds as its value and one. The division in
-- addCapacity, in the source on doubles, is exact here, as it is there below 2^53 bytes.
-- Allocation succeeds. The signed overflow in EncodeZigzag32 wraps around, as compilers do it.
-- A timer is added with a callback, where the source accepts an empty function too, and a descriptor is
-- not negative. A call of addEvent is one step with its contextResize, between which the source changes
-- locks. The line and the elapsed time of a log event are natural numbers.
-- The counts of threads stay below 2^64 when they grow.
--
-- Not modelled: threads, locks, the machine's switch of contexts, sockets, the lookup of
-- addresses, files, and the generated parsers. System calls, the answers of epoll_ctl and epoll_wait, the clock,
-- lexical_cast and strftime are arguments of the operations that use them.
pub mod Base
pub mod ByteArray
pub mod Codec
pub mod Timer
pub mod Scheduler
pub mod IoManager
pub mod Stream
pub mod FdManager
pub mod Servlet
pub mod Fiber
pub mod Http
pub mod Hook
pub mod Log
pub mod Address
pub mod TcpServer
