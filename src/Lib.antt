-- ===== src/Lib.antt =====
-- A model of SynapTCP, a C++ library for TCP connections with optional SSL, and what holds of it.
--
-- The program. Class Socket (src/socket.cpp, include/socket.hpp) is one connection: its settings,
-- its address, its descriptor, two mutexes, what was received (`data`) and what was received beyond
-- the request (`remainingData`). Class SynapSock (src/synapsock.cpp) adds framed messages to it,
-- TCPClient (src/tcp-client.cpp) opens a connection, TCPServer (src/tcp-server.cpp) accepts many,
-- and SSLWarper (src/layer-ssl.cpp) makes the SSL connections. The build defines __STCP_SSL__, and
-- the model is of that build.
--
-- The files.
--   Socket.antt            the fields of class Socket; taking and giving back its mutexes
--   Socket/Settings.antt   setters, getters, isSocketTimeout, duplicate
--   Socket/Address.antt    isValidIPAddress, setAddress, getAddress
--   Socket/Config.antt     the constructors; sequences of setter calls
--   Socket/Os.antt         the system calls that class Socket makes, and what it relies on
--   Socket/Receive.antt    isInputBytesAvailable, receiveData
--   Socket/Collect.antt    receiveNBytes, receiveStopBytes
--   Socket/Search.antt     receiveStartBytes, receiveUntillStopBytes
--   Socket/Buffer.antt     getBuffer, getRemainingBuffer and their variants
--   Socket/Send.antt       sendData
--   Socket/Close.antt      closeConnection, closeSocket
--   Socket/Overloads.antt  the methods that take a vector or a text for bytes
--   Frames.antt            what the framing uses of DataFrame
--   SynapSock.antt         SynapSock: the format, its operators, sendFramedData
--   SynapSock/Framed.antt  receiveFramedData
--   Net.antt               the system calls and the OpenSSL calls of the client and the server
--   Client.antt            TCPClient: connectToServer, init, initializeSSL; createSSL, acceptSSL and
--                          connectSSL of SSLWarper
--   Server.antt            TCPServer: settings and handlers, init, initializeSSL
--   Server/Clients.antt    the list of clients: the end of addClient, removeClient,
--                          the walk of the destructor
--   Server/Accept.antt     acceptNewClient, addClient
--   Server/Hub.antt        what eventCheck works on, and what it calls
--   Server/Drop.antt       the destructors of a node and of TCPServer
--   Server/Events.antt     eventCheck
--   Server/Thread.antt     the end of eventCheck and receptionThreadHandler, in turns
--   Ssl.antt               the contexts and certificates of SSLWarper
--   Client/Derived.antt    the operators and the destructor of TCPClient
--   Construct.antt         the constructors of SynapSock, TCPClient and TCPServer
--   Base.antt              lists, integers, tests and results that the others share
--   Tests.antt             a small system to run the model on, and the model on it
-- The theorems about a file stand in the modules below it.
--
-- The state. A method is a function from the object (a record with the fields of the class, in the
-- order of the header) and the state W of the system to its result, the object and the state. W,
-- the operations on it (`Os`, `Net`) and the byte order functions htons and ntohs are parameters. A
-- byte is a number; unsigned short and in_port_t are reduced modulo 2^16 where the code stores
-- them, and the int of isSocketTimeout modulo 2^32. An int that is only compared or stored is a ℤ.
--
-- Frames are numbers, their addresses; what is read of them and done to them, in the state W, is
-- the parameter `Frames`, and a function that a program sets for a frame is called through the
-- parameter `Callback`.
--
-- A result is an `Outcome`: `done`, `blocked` for a thread that waits for a mutex it can never get
-- (one thread runs on an object, so a held mutex is never given back by another), `out_of_bounds`
-- for a read past the end of a vector or through a null pointer or a pointer to a freed node and for
-- FD_SET of a descriptor that a set has no bit for, and `out_of_fuel` for a loop whose fuel is used
-- up. The constructor of SSLWarper may call exit: `Ending` has a value for that.
--
-- Fuel. Each round of a loop takes one unit, inner loops run on what is left. Over a finite stream
-- (`IsStream`: a read takes bytes off the front, the clock does not go back and a sleep moves it)
-- the reception of n bytes ends within keepAliveMs + n + 1 rounds, with a factor 4 for the tries of
-- receiveNBytes; sendData within one round for each byte and one more. The walks over the list of
-- clients and over the frames of a format take a round for each node. The loop of connectToServer
-- without a timeout has no bound in the code, and none is claimed.
--
-- Threads. Server/Thread.antt alone has two threads: `Run` takes the statements of eventCheck and of the
-- thread that it starts in any order in which each can go on, wakeups without a signal included. An
-- order is a finite list, so that no fuel is needed.
--
-- Not modelled: threads that share an object otherwise, and what of eventCheck another thread could
-- change between its statements; the messages on std::cout; the DataFrame library, a submodule.
mod Base
pub mod Socket
pub mod Net
pub mod Frames
pub mod SynapSock
pub mod Client
pub mod Server
pub mod Ssl
pub mod Construct
mod Tests
