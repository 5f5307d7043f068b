-- ===== src/Lib.antt =====
-- cool: an asynchronous network library with timers, fibers, a scheduler over epoll, byte buffers
-- and HTTP.
--
-- Parts. IOManager (src/iomanager.cpp) is a Scheduler (src/scheduler.cpp) and a TimerManager
-- (src/timer.cpp): its idle fiber waits in epoll, hands the callbacks of expired timers and the
-- fibers or callbacks of ready descriptors to the queue, and the loop of Scheduler::run gives
-- each queued fiber a slice (src/fiber.cpp). The hooks keep what they know of a descriptor in
-- FdManager (src/fd_manager.cpp). ByteArray (src/bytearray.cpp) holds binary messages.
-- ServletDispatch (src/http/servlet.cpp) finds the servlet of a request (src/http/http.cpp). The
-- hooked system calls (src/hook.cpp) wait on IOManager in place of the thread. Loggers
-- (src/log.cpp) write events by a pattern. HttpSession (src/http/http_session.cpp) reads requests
-- through a generated machine and its callbacks (src/http/http_parser.cpp). Config
-- (src/config.cpp) holds the settings. Socket (src/socket.cpp) owns a descriptor, and SocketStream
-- (src/socket_stream.cpp) reads and writes a ByteArray over it. Address (src/address.cpp) holds
-- socket addresses. TcpServer (src/tcp_server.cpp) binds and accepts, and HttpServer
-- (src/http/http_server.cpp) answers the requests of a session by its servlets. Thread and the
-- locks (src/thread.cpp, src/thread.h) are below the scheduler.
--
-- Files. Base has the Boolean tests, lists over the native numbers, bits and texts. Timer is
-- src/timer.h and src/timer.cpp, ByteArray is src/bytearray.h and src/bytearray.cpp, with the
-- codecs in ByteArray/Codec and the iovec and file views in ByteArray/Buffers; Fd is
-- src/fd_manager.cpp, Servlet is src/http/servlet.cpp, Http is src/http/http.cpp with the
-- messages in Http/Message, Fiber is src/fiber.cpp, Scheduler is src/scheduler.cpp, IoManager is
-- src/iomanager.cpp, with its idle fiber in IoManager/Idle and its pipe in IoManager/Pipe, and
-- Stream is src/stream.cpp. Util is src/util.cpp. Log is
-- the patterns of src/log.cpp, with the loggers in Log/Loggers and the listener on their
-- configuration in Log/Defines; Hook is src/hook.cpp, with do_io in Hook/Io and the options of a
-- descriptor in Hook/Options. Address is src/address.cpp, with Address/Ipv6 and Address/Unix.
-- Address/Interfaces is the rest of it, the sockaddr conversions and the interfaces. Config is
-- src/config.h and src/config.cpp, with the conversions of containers in Config/Casts and those of
-- the log configuration in Log/Casts. Socket is src/socket.cpp, with the options in Socket/Options
-- and src/socket_stream.cpp in Socket/Arrays. Scheduler/Pool is the constructor, start and stop of
-- src/scheduler.cpp. Server is src/tcp_server.cpp, with src/http/http_server.cpp in Server/Http.
-- Thread/Locks is the locks of src/thread.h, Thread/Spin a CASLock under many threads, Thread/Start
-- the start of a Thread and Thread/Join the rest of src/thread.cpp. Http/Parser is
-- src/http/http_parser.cpp and Http/Session is src/http/http_session.cpp. The other files below a
-- module prove what their names say; Runs has the concrete runs.
--
-- State. A class is a record, and each of its functions is a function of that record with the
-- name of the source. An object that several holders share lives at an address of a store: Timers
-- in TimerManager.objs, fibers in World.fibers. The chain of buffer nodes is a list of lists of
-- bytes, and m_cur is an index into it, with `none` for null. An operation that can throw, or
-- follow a null or foreign pointer, answers ok, thrown or fault (ByteArray); elsewhere `none` is
-- a failed ASSERT or such an access. An operation under one lock is one step. The clock, the
-- results of epoll_ctl, fstat and fnmatch, and what a fiber does in its slice, are arguments; so
-- are the answers of hooked system calls and what other fibers do during a wait. Threads that run
-- at the same time are a step relation, one statement or one atomic operation at a time. yaml-cpp
-- and the pthread locks are records of operations and laws.
--
-- Numbers. uint64_t times wrap (wrap64), integers of the codecs are their bit patterns, and sizes
-- of buffers are numbers without bound whose subtraction wraps (sub_size); the lengths that
-- readFixSize and writeFixSize answer are the 32 bits of an int. Loops are structural over the
-- chain, the queue or the set; the varint loops have the bound of their buffer, 5 or 10 bytes,
-- which is proved enough; the decimal print has fuel above its number; writeFixSize and readFixSize
-- have fuel, and more than the length is enough while their writes and reads do not fail;
-- CountBytes has fuel, and more than the bits of the word is enough; the pattern loop has as fuel
-- the length of the pattern, which is proved enough. The loop of handle_client has fuel, and more
-- than the number of reads is proved enough.
--
-- Not modelled: the HTTP machines and their code, which is generated, and so a parameter; the
-- printf form and the macros of logs; the look-up of the hooked calls by dlsym; the cancels of
-- Socket, which pass on to IOManager; the listeners on the two sizes of the request parser; the
-- macros; the calls that only log.
pub mod Base
pub mod Timer
pub mod ByteArray
pub mod Fd
pub mod Servlet
pub mod Http
pub mod Fiber
pub mod Scheduler
pub mod IoManager
pub mod Stream
pub mod Log
pub mod Hook
pub mod Address
pub mod Config
pub mod Socket
pub mod Server
pub mod Thread
pub mod Util
