-- ===== src/Lib.antt =====
-- A model of libnbuss, a C++ library of non-blocking socket servers and clients on Linux, with the
-- properties that make it correct.
--
-- The parts. IGenericServer listens with epoll and reports events on its connections to a callback.
-- ThreadedServer runs it in a thread of its own. ThreadedServer2 does so too, takes the callback's
-- place, and adds a thread that writes what a descriptor could not take at once, from a queue in
-- that descriptor's SocketData. WorkQueue takes the callback's place in a ThreadedServer2 and hands
-- events to consumer threads. Clients connect, read and write. Crc16 computes checksums, and
-- FiniteStateMachine runs an action for an event. Two programs go with the library: a server that
-- writes back what it reads, and a client in C.
--
-- The files:
--   Base            numbers, lists and bits that all parts share; Base/Int has the C++ int as an
--                   integer without a bound, for descriptors, byte counts and counters.
--   Kernel          the system calls, a record of functions on a type of states of the system, and
--                   what the manual pages say of them, as records of laws.
--   Descriptor      libnbuss/FileDescriptor.h (close), libnbuss/UnixPipe.h.
--   Server          libnbuss/IGenericServer.h and IGenericServer.cpp: the fields, set_IO, unset_IO
--                   and is_IO; Server/Io has read, write and the socket options, Server/Life has
--                   close, closeSockets, remove_from_epoll, terminate and the destructor,
--                   Server/Listen has listen.
--                   Server/Trace has interpret_event. The other children are about these: Fds and
--                   Tracking, with Events and Batch, about the set of connections, Keeps about what
--                   reads and writes leave alone, Dispatch about the events, Shutdown and Restart
--                   about the end, Accounts, with Loop, about the descriptors that are open, Fixed
--                   about the flags, Write, Read and Elements about the streams.
--   Transfer        the loop around write(2), of IGenericServer::write and BaseClient::write, and the
--                   bytes of a vector; Stream and Full are about what is sent.
--   ThreadedServer  libnbuss/ThreadedServer.h and ThreadedServer.cpp; Restart is about a second start.
--   SocketData      libnbuss/SocketData.h and SocketData.cpp; Lock is about its lock.
--   ThreadedServer2 libnbuss/ThreadedServer2.h and ThreadedServer2.cpp; ThreadedServer2/Threads
--                   has start and stop. Drain is about the writing thread, Write, Empty and Reach
--                   about the method write, Close about close, Stopped about stop, Restart about a
--                   start after it, Record about the connections of the server that it runs.
--   WorkQueue       libnbuss/WorkQueue.h and WorkQueue.cpp; Fifo is about the queue,
--                   Pool, with Account, Order, Silence and Passes, about consumers at work, Wake about
--                   their end, Pipeline, with Queues, about the way of an event from the
--                   listener to the user.
--   Crc16           libnbuss/Crc16.h and Crc16.cpp; Serial and Detect are about the checksum.
--   Client          libnbuss/BaseClient.cpp, UnixSocketClient.cpp and TcpClient.cpp; Write and Mode
--                   are about writing, Path is about the address of a socket, Lifetime about the
--                   descriptor.
--   Binding         libnbuss/UnixSocketServer.cpp and TcpServer.cpp: the constructors; Open and Unix
--                   are about the descriptors they leave open, Options has the functions on the
--                   options of a descriptor.
--   Echo            main/main.cpp, the callback my_listener and the client's part of main; Stream is
--                   about what the callback sends, Record and Accounts about the connections and
--                   the descriptors of its server, Fixed about its flags, Linked and Session about
--                   client and server together.
--   UnixClient      unix_socket_client/unixsocketclient.c; Request is about what it sends, Result about
--                   what it prints.
--   StateMachine    libnbuss/FiniteStateMachine.h; Table is about its table.
--   Logger          libnbuss/Logger.cpp: init_log.
--   Tests           a simulated system, runs on it, and the theorems at concrete inputs.
--
-- A method is a function from the object's fields and the state of the system to both; a thrown
-- exception and a call that still waits are values. Threads are explicit: a parameter says what the
-- others do while one waits, or a step relation says what each may do next.
--
-- Loops. The loop around write(2) runs on fuel, the length of the data, which is enough since a
-- round that goes on leaves less. The loop of read runs on fuel, and more than the bytes that the
-- system holds is enough. The listener's loop runs over the list of what other threads do at each
-- epoll_wait, and blocks in epoll_wait when the list ends. All other loops are structural.
--
-- Not modelled: log output, memory allocation, the threads as such, the bounds of int and ssize_t
-- (a run stays far inside them), the variant of main for Unix sockets in main/main.cpp, which is
-- compiled out, the loop of main, whose client waits for ever in its first round, the tests, and
-- FiniteStateMachine::call, which cannot be instantiated.
pub mod Base
pub mod Kernel
pub mod Descriptor
pub mod Server
pub mod Transfer
pub mod SocketData
pub mod ThreadedServer
pub mod ThreadedServer2
pub mod WorkQueue
pub mod Crc16
pub mod Client
pub mod Binding
pub mod Echo
pub mod UnixClient
pub mod StateMachine
pub mod Logger
pub mod Tests
