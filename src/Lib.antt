-- ===== src/Lib.antt =====
-- kit_server, a C++ server framework on coroutines: a model of its parts and their theorems.
--
-- The program. The framework runs coroutines (kit_server/coroutine.cpp) on the threads of a
-- scheduler (kit_server/scheduler.cpp), which IOManager (kit_server/iomanager.cpp) joins to epoll
-- and to the timers of TimerManager (kit_server/timer.cpp). Descriptors are kept by FdManager
-- (kit_server/fdmanager.cpp) for the hooked system calls (kit_server/hook.cpp). Above that stand
-- streams (kit_server/stream.cpp), the byte buffer ByteArray (kit_server/bytearray.cpp) and the
-- HTTP modules (kit_server/http/), whose servlets (kit_server/http/servlet.cpp) answer requests.
--
-- The files of the model.
--   Common and its children: Boolean tests, list, integer and bit lemmas over native numbers.
--   Codec: the number formats. Codec/Endian is kit_server/endian.h; Codec/Zigzag and Codec/Varint
--   are the static functions and the loops of kit_server/bytearray.cpp.
--   ByteArray: the class of kit_server/bytearray.h, with its state, write, read, addCapacity and
--   setPosition. ByteArray/Buffers are getReadBuf, getWriteBuf, the constant read and toString;
--   ByteArray/Typed are the typed reads and writes; the other children are proofs.
--   Timer: the classes of kit_server/timer.h, with every operation of Timer and TimerManager.
--   Stream: the loops of readFixSize and writeFixSize in kit_server/stream.cpp.
--   Servlet: the dispatch of requests to servlets in kit_server/http/servlet.cpp.
--   FdManager: FdCtx and FdManager of kit_server/fdmanager.cpp.
--   Hook: do_io, connect and setsockopt of kit_server/hook.cpp, over the TimerManager, the
--   IoManager and the FdManager of this model; Hook/Flags is the flags of fcntl and ioctl.
--   Coroutine: the states of a coroutine, kit_server/coroutine.cpp.
--   Scheduler: the task queue of kit_server/scheduler.h and kit_server/scheduler.cpp.
--   IoManager: the events of kit_server/iomanager.cpp, their registration, removal and the rounds
--   of `idle`, with what is told to epoll as a log.
--   Http: kit_server/http/http.h and kit_server/http/http.cpp. Http/Method has the methods and the
--   status codes, Http/Headers the maps whose keys ignore case, Http/Lines, Http/Request and
--   Http/Response the messages, their text and the two servlets with a page of their own.
--   HttpSession: recvRequest of kit_server/http/http_session.cpp, over a stream and a parser.
--   HttpConnection: recvResponse of kit_server/http/http_connection.cpp, with chunked bodies.
--
-- How the state corresponds. The node list of a ByteArray is a list of nodes, each with its
-- memory; the pointer m_cur is an index into that list, and the null pointer is the index behind
-- its last node. An operation that follows a null pointer, or that writes behind its local array,
-- returns none: what the program does then is not defined. Memory of `new char[n]` is zeros. A
-- thrown exception is a constructor of the operation's own result. Machine integers are natural
-- numbers with their wrap-around written out; a signed one is ℤ. The byte order of the machine,
-- the time, and the address of a new object are arguments. A std::set of timers is a list in the
-- comparator's order. What the kernel and the other threads do while a hooked call waits is a
-- list of turns.
--
-- Steps. The lock of a class makes each of its calls one step, and a history of calls is a list
-- or a relation of such steps. Three calls let go of their lock and take it again: the get of
-- FdManager, the reset of Timer and the addEvent of IOManager. They are two parts each, and one
-- step only in histories of calls that do not overlap; FdManager/Race, Timer/Race and
-- IoManager/Race are about another call between the two parts.
--
-- Bounds. The varint readers of 32 and 64 bits take at most 5 and 10 rounds, the bounds of the
-- loops in the source; the varint writers have room for 5 and 10 bytes, the size of `temp`. The
-- loops of write, read and seek recurse on the nodes from m_cur on, and addCapacity computes
-- the number of its rounds before, as the source does, with an exact quotient for `ceil` of a
-- double.
--
-- The loops that read messages in HttpSession and HttpConnection take fuel; their theorems give
-- more fuel than bytes are to come and than the buffer holds. `decimal` takes the 20 digits that a
-- number of 64 bits has at most. Whether body.resize finds room for a length is an argument.
--
-- Not modelled: system calls, epoll itself, sockets and threads, which are the kernel's; the
-- parsers of kit_server/http and of kit_server/uri.rl that Ragel generates; logging,
-- configuration files and the program's start, which move data between libraries and files; the
-- server and the connection pool of kit_server/http; the hooked sleeps, socket and close. Of a
-- ByteArray the file transfers and the dump in hexadecimal, of a coroutine the switch between two
-- contexts and the thread's current coroutine, of the scheduler `start`, `stop` and the idle
-- coroutine, and of IOManager the pipe that wakes a thread and the loop around epoll_wait have no
-- model. Where Scheduler::run compares the iterator of the task that it has erased with the end
-- of the list, which C++ does not define, the model takes the two to differ.
pub mod ByteArray
pub mod Codec
pub mod Common
pub mod Coroutine
pub mod FdManager
pub mod Hook
pub mod Http
pub mod HttpConnection
pub mod HttpSession
pub mod IoManager
pub mod Scheduler
pub mod Servlet
pub mod Stream
pub mod Timer
