-- ===== src/Lib.antt =====
-- The parts of the dag network library that keep state: the byte buffer with its wire format, the
-- streams, the timers, the fibers, the scheduler, the manager of descriptor events, the hooked system
-- calls with their descriptor table, the addresses, the sockets and the server over them, the start of a
-- thread, and the logger.
--
-- How they interact: a fiber is what the scheduler runs; `IOManager` is a scheduler and a timer
-- manager, whose idle fiber waits for descriptors and timers and puts the callbacks and fibers that
-- wait for them into the scheduler's queue; the descriptor table says which descriptors the hooked
-- calls treat as sockets; the byte buffer holds what is sent and received, which a socket stream passes
-- between it and a socket; the server's sockets accept connections in fibers of its own.
--
-- - Memory, ByteArray: dag/bytearray.h and dag/bytearray.cpp. The record `ByteArray` has the fields of
--   the class; `write`, `read`, `read_at`, `set_position`, `clear` and `add_capacity` are its
--   functions. Valid is the invariant. Buffers are the scatter lists and the input and output of files, Gather
--   and Scatter what the lists name.
-- - Codec: the typed readers and writers of dag/bytearray.cpp, with `byteswap` of
--   dag/utils/endian.h. A float has the bits of the number of its width. A number is the unsigned
--   number of its bits.
-- - Timer: dag/timer.h and dag/timer.cpp. A time is the count of nanoseconds from the least one of 64
--   bits, and each reading of the clock is an argument; a duration is a
--   `uint64_t` taken as a signed number, as in the source. Order is the set, Invariant the manager's invariant, Reachable its calls, Expiry, Waiting and Defects
--   `listExpiredCb`, `getNextTimer` and what the order by deadline alone leads to.
-- - Fiber: dag/fiber.h and dag/fiber.cpp, the fibers of one thread and the switches between them, with whose
--   execution each machine context holds.
-- - Scheduler: dag/scheduler.h and dag/scheduler.cpp, the queue and a round of `run`.
-- - IoManager: dag/ioscheduler.h and dag/ioscheduler.cpp. Valid is the invariant of the table of
--   descriptors, Keeps and Adding and Draining are its operations and the loop of `idle` over ready
--   events.
-- - FdManager: dag/fd_manager.h and dag/fd_manager.cpp.
-- - Hook: dag/hook.h and dag/hook.cpp. `do_io` and the calls over it (Calls), on a `World` that has the
--   descriptor table, the timers and the events of a thread. Waiting is one wait of a fiber, Answers,
--   Expiry and Blocking are `do_io`, Flags and Closing the other calls.
-- - Logger: dag/logger.h and dag/logger.cpp. Scanning, Formatting and Patterns are the formatter's
--   pattern, Appender the appenders, loggers and their manager, Logging, Files and Manager what they do.
--   Meaning is the table of what the characters of a pattern stand for.
-- - Address: dag/address.h and dag/address.cpp. Masks is about `|` and `&`, Subnets about the addresses of a
--   subnet, Order about the comparison of addresses.
-- - Socket: dag/socket.h and dag/socket.cpp, over a record of the system's calls. Connected is the invariant
--   of a socket.
-- - SocketStream: dag/stream/socket_stream.h and dag/stream/socket_stream.cpp, a socket with the buffers that are
--   written to it and read from it.
-- - TcpServer: dag/tcp_server.h and dag/tcp_server.cpp. Binding is its `bind`.
-- - Thread: dag/thread.h and dag/thread.cpp, the semaphore and how a thread starts, as steps of two
--   threads.
-- - Stream: dag/stream.h and dag/stream.cpp, over any `read` and `write`.
-- - Common: lists, bits, tests, and `Outcome`, what a call can do: return, throw, fail an assertion, or
--   go where the language gives no meaning.
--
-- Loops that are not structural run on fuel and are `stuck` without it. The loops of the buffer get the
-- length, or one more than the length or than the number of blocks, which the theorems on `read`,
-- `write`, `setPosition` and the scatter lists show to be enough; the loop of `listExpiredCb` needs as
-- many rounds as timers are due, those of a stream as many as bytes are asked for, that of `do_io` one
-- more than the replies EINTR and EAGAIN that the system has left, and that of `startAccept` as many as
-- come before the server stops.
--
-- Each operation is one step: the mutex that it holds is not modelled. What the system returns (the
-- result of `epoll_ctl`, `fstat`, the clock) is an argument. A fiber that waits in a hooked call is
-- resumed after a function that stands for all that the other fibers do. A socket takes an address as
-- its family and a number. Not modelled: the look-up of names and interfaces, the names and the
-- end of threads, and the registers and stacks of fibers.
pub mod Common
pub mod Memory
pub mod Address
pub mod ByteArray
pub mod Codec
pub mod Stream
pub mod Timer
pub mod Fiber
pub mod Scheduler
pub mod IoManager
pub mod FdManager
pub mod Logger
pub mod Hook
pub mod Socket
pub mod SocketStream
pub mod TcpServer
pub mod Thread
