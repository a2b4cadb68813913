-- ===== src/Lib.antt =====
-- The C++ network library of include/net: sessions over TCP and websockets, the packets they carry,
-- the users behind them, the services that open them, and what a server keeps beside them.
--
-- How the parts work together: an acceptor or a connector opens a session; the session's read handler
-- writes what it received to the session's byte stream and posts a dispatch; the packet procedure
-- hands the stream to a packet parser, which cuts it into packets and calls the handler of each code;
-- the JSON handler reads a packet's header, URL and body and calls the handler of the URL with the
-- session's user; a user sends packets through its session. The schedulers, the rental
-- pool, the HTTP servers, the database connection, the logger and the crash handler stand alone.
--
-- Which file models what:
-- Base, Base/*: lists over the native numbers, slices of memory, association lists, machine words,
--   and Outcome: a value, a C++ exception, or an access outside an object.
-- ByteStream: include/net/byteStream.hpp. The buffer is a list of bytes, the positions are int32_t
--   patterns; read, write, advancePosRead and the others are read, write, advance_pos_read and so on.
--   ByteStream/Contents, Writing, Reading: what the operations do to the unread bytes.
--   ByteStream/Queue, Refinement: the queue of bytes that a stream stands for, and that it does.
-- Text: texts as lists of bytes, C strings, and maps from texts.
-- Packet/Protocol: include/net/packetJson/protocol.h, the packed structs as bytes, and the manipulator
--   of packetParser.hpp. Packet/Protocol/Layout, RoundTrip: their sizes and reading them back.
-- Packet/Parser: PacketJsonParser::parse of include/net/packetJson/packetParser.hpp. The world that the
--   handlers change is a parameter. Packet/Parser/Cut, Steps, Framing, Progress: a packet, a round of
--   the loop, the packets of a stream, and the end of the loop. Packet/Parser/Splitting, Chunks: the
--   bytes in the pieces that they come in.
-- Packet/Parse: parse for both types of session. Packet/Websocket, Websocket/Piling:
--   the texts of a websocket session.
-- Packet/Json: include/net/packetJson/handler.hpp; the JSON library is the parameter json_parse, and
--   the bytes behind the array urlString are the parameter beyond. Packet/Json/Delivery, EndToEnd: one
--   packet, and a sequence of messages from sender to handler. Packet/Json/Parsers, Parsers/Alike: parse
--   of jsonParserBoostjson.hpp and jsonParserCpprest.hpp, over the calls that they make.
-- Procedure: include/net/packetProcedure.hpp. Procedure/Registering: which handlers are called.
--   Procedure/Written, Pieces: what a TCP session makes of the pieces that it receives.
-- Session: include/net/session.hpp. A session is its state, the tasks posted to its strand and a log of
--   what it asked of its socket, timers and event receiver, the latest first. Session/Types, Events: the
--   enumerations, and the steps: what asio calls, in any order. The dispatch callback is a parameter; a
--   quiet one changes only the stream, the pending count, the user and log entries of other kinds.
--   Session/Moves, Lifecycle, Timers: what steps change, the close, the timers and the retries.
--   Session/Peer: the endpoint, the service and the type of a session.
--   Session/Counting, Sparing, Pending: the count of pending reads, with the dispatch of Procedure and
--   the JSON parser.
-- User: include/net/user/userBase.hpp. User/Wire: the bytes that are sent.
-- Users: include/net/user/userManagerBase.hpp. Users/Pairs: include/net/user/userSessionPair.hpp, over
--   the lock-free list as an interface. Users/Registry, Targets, Runs: the table of users, calls by
--   key, and the table over a whole run.
-- Time/Simple, Time/Strand: include/net/time/simpleScheduler.h. Time/Interval:
--   include/net/time/scheduler.h, the clock being a parameter. Time/Simple/Firing, Time/Strand/Gone,
--   Time/Interval/Elapsed: how often, whether and with what the callbacks are called.
-- RentalPool: include/net/container/rentalItemPool.hpp. RentalPool/Lending: how often an item is lent.
-- Service/Receiver: include/net/eventReceiver.hpp; a callback is an instance and a member of its class.
-- Service/Common: include/net/netCommonObjects.hpp, with the times of its timer as arguments.
--   Service/Common/Rounding: what the reported times add up to.
-- Service/Acceptor: include/net/netServiceAcceptor.hpp. Service/Acceptor/Starting, Listening, Stopping.
-- Service/Connector: include/net/netServiceConnector.hpp. Service/Connector/Endpoint, Connecting.
-- Service/Net: include/net/netService.hpp, the tables of services. Service/Net/Tables.
-- Http/Message, Routing: SendFunc, the table of URLs and handle_request of
--   include/net/http/httpServer.hpp. Beast's requests and responses are records; a handler gives the
--   responses that it passes to send and the exception that leaves it. Http/Routing/Targets, Fields,
--   Answers, Registered: which targets are taken, the headers a handler sees, the answers.
-- Http/Blocking, Callbacks, Listener: do_session, the callbacks of session, listener and the starts of
--   the same file. What Beast and asio report is a list of rounds, completions or errors.
--   Http/Callbacks/Agreement, Progress: both ways of serving compared, and what is under way.
-- Http/Coroutine: include/net/http/httpServerCoro.hpp. Http/Coroutine/Answers, Serving, Mime: its
--   handle_request, do_session and do_listen, mime_type. Http/Coroutine/Starting: startAsync.
--   Http/Comparison: the ways of accepting.
-- Mysql: include/net/mysql-legacy/connection.hpp and options.h. What the client library answers to a
--   call is a function of the calls made so far. Mysql/Queries, Untold, Runs: the calls of a query,
--   and what whole runs keep.
-- Mysql8: include/net/mysql8/connector.hpp. Gzip: encode64 of
--   include/net/compression/gzip.hpp.
-- Sample: mlnserver/serviceEventReceiver.cpp and clientSample/sampleConnector.h. Sample/Echo, Users:
--   the answers to logins, and the users while sessions come and go.
-- Crash, Crash/Reports, Crash/Traps: include/net/exceptionHandler.hpp: its paths, its dumps and stack
--   reports, and its handlers. What the system answers is a record; what a handler does is a list of
--   effects. Crash/Roots, Directories, Effects, Left: the path of the dumps, the directories that are
--   made, and what a handler leaves behind.
-- Logger: include/net/logger.hpp: the configuration as a record, and the logger that is made of it, as
--   the arguments of its sinks. Logger/Building, Rotating: what a chain of calls makes.
-- Tests/*: runs at concrete inputs.
--
-- Bounds and fuel: size_t and int64_t keep 64 bits, int32_t 32 bits, with wrap-around written out. The
-- loop of parse runs on fuel; Packet.Parser.Progress says how much is enough, and for which bytes none
-- is. Memory is never exhausted.
--
-- Not modelled: asio, Beast, spdlog and the JSON, database and compression libraries, which are
-- parameters or answers given to the operations; what only calls them (the rest of gzip); the lock-free
-- list, a copy of another project's; the text around the values of a crash report, and the registers of
-- 32-bit processes; setJsonBodyParser, whose argument is a parameter; the main function and the connects
-- of the sample server.
-- Handlers run one at a time, as the strand and the locks make them.
pub mod Base
pub mod ByteStream
pub mod Text
pub mod Packet
pub mod Session
pub mod Procedure
pub mod User
pub mod Users
pub mod Time
pub mod Service
pub mod RentalPool
pub mod Http
pub mod Mysql
pub mod Mysql8
pub mod Gzip
pub mod Crash
pub mod Logger
pub mod Sample
pub mod Tests
