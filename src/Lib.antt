-- ===== src/Lib.antt =====
-- The server of a command post and its terminal client: clients log in over TCP and keep their stock,
-- sensors raise alerts on a UNIX socket, and notices go out over UDP. This library models the server's
-- own classes as functions on one state, its threads as steps in any order, and the client's terminal,
-- and proves what their operations promise.
--
-- How the parts interact. `ClientSession` (src/server/clientSession.cpp) reads a message, logs the
-- client in by `Authenticator` (authenticator.cpp) and hands commands to `CommandProcessor`
-- (commandProcessor.cpp), which works on `Inventory` (inventory.cpp), `SessionManager`
-- (sessionManager.cpp) and `Storage` (storage.cpp). `AlertManager` (alertManager.cpp, ipcHandler.cpp)
-- locks the client that a dangerous alert names and broadcasts the alert by `UdpHandler`
-- (udpHandler.cpp), which queues it in `EventQueue` (eventQueue.cpp) for users that are offline.
-- `Logger` (logger.cpp) and `Traffic` (trafficReporter.cpp) are called by all. `Config` (config.cpp,
-- configValidator.cpp) loads the limits that the others use. `Server` (server.cpp) accepts the
-- connections and gives their turns to `ThreadPool` (threadPool.cpp). In src/client, `Client.Input`
-- (input_handler.c) makes a request of a typed line, `Client.Output` (output_handler.c,
-- client_context.c) prints the response and keeps the name of a login, and `Client.Session`
-- (session_handler.c) is the loop between them; `Client.Tokens` is `strtok`. `Client.Ipc`
-- (ipc_handler.c, udp_handler.c) hands the notices of the server to the message queue.
-- `Client.Connection` (client.c, transport.c, main.c) opens and closes what a run of the client needs,
-- and `Client.Log` (client/logger.c) is its log file. `Server.Setup` (server.cpp) opens the server's
-- own sockets and closes them, `Storage.Setup` (storage.cpp) makes the tables, and `Server.Program`
-- (main.cpp) is the start of the server from its arguments up to the loop, and the order in which its
-- objects end.
--
-- The state. `World` holds the tables of the database, the fields of each class, the session objects
-- by number, and the datagrams handed to the socket. A method that may throw is an action of `Exec`:
-- from a state to a result and a state, where a result is a value or an exception, and what was
-- written before a throw stays. A handler `catch (const json::exception &)` is `catch_json`, a
-- handler `catch (const std::exception &)` is `catch_std`; undefined behaviour is an exception that
-- nothing catches. A method is a run of it alone: a theorem on several calls ranges over every
-- sequence of them, and where two critical sections of one method matter, they are two steps.
-- `ThreadPool` and `Server` are step relations (`Work`, `Step`, `Reach`): the pool counts its
-- workers by where they stand, and a step is what a thread does up to the next point where another
-- may act; the server has the descriptors of its clients, what epoll has of each, the map of the
-- sessions and the tasks, and the run of a task is one step up to the close of the descriptor, its
-- erasure another, and the end of the task, with the destructor of the session, a third.
-- `Inventory.Interleaved` has the calls of several threads on the cache, each with its critical
-- sections as steps, and `SessionManager.LockRace` those on the set of locked clients. What is said
-- of a run of the server has each task, but for its end, as one step.
--
-- The invariants of the running server. `Invariant` is an interface: the statements that write, the
-- logger and the methods of the inventory have to keep a property of the tables and the cache. The
-- files `Tables` carry it over the other operations, class by class (`Traffic`, `EventQueue`,
-- `SessionManager`, `UdpHandler`, `AlertManager`, `Authenticator`, `CommandProcessor`,
-- `ClientSession`, `Server`, `Server/Setup`), with the rules of `World.Keeps`, one for each way to
-- compose actions. `Server.Invariants` fills the interface twice, by the schema (`Storage.Schema`) and
-- by the coherence of the cache (`Inventory.Coherent`), and `Server.Program.Launched` begins at the
-- start of the program.
--
-- What a process holds. `Resources` counts the descriptors, the log file, the message queue, the
-- lists of `getaddrinfo` and the name of the UNIX socket that are held, and how often one was given
-- back that was not; the setup and the end of the server and of the client are on it.
--
-- The parameters. `Platform` holds the code that the server calls and does not implement: the clock,
-- the failures of SQLite and of the file system by the number of the call, `strftime`, bcrypt, the
-- reader and printer of JSON, and `sendto`. `IsReliable` says that no SQL statement fails but by the
-- schema, and `IsBcrypt` that a password matches its own hash. What a socket gives or takes is an
-- argument of the method. The accessors of JSON documents are fields of `Platform`; `IsJson`,
-- `IsTyped` and `Client.Members.IsRead` say what their documentation says of a member that was put
-- in and of a document that is no object. `Json` has only the data type of documents. `Settings`
-- holds what the configuration calls (YAML, `stoi`, `getenv`, `exists`), and `Library` what the
-- client calls (cJSON, `strtol`, `atoi`, `getenv`).
--
-- Bounds. The event queues hold `queue_size` events, an `int` compared as an unsigned 64-bit number.
-- Timestamps are integers, and the stored one is cut to 32 bits where the code reads it so. No
-- definition runs on fuel but the decimal digits of a number, whose fuel is the number and one more:
-- every loop goes through a list.
--
-- Simplifications. Maps and sets are lists in the order of insertion, so the order in which a
-- broadcast or a reply walks them is not that of the code. The texts of `what()` are left out of the
-- log. Foreign keys are on, as the schema is initialized before anything else runs. Texts of the
-- client are ASCII, and a response is what one call of `recv` gives. What the program prints on the
-- terminal is left out where nothing depends on it, and so are the calls of the client's log, but
-- for the one whose format is not a constant. A rename or a removal of a log file succeeds, as the
-- process ends where it throws. Not modelled: interleavings inside the run of a task but for the
-- inventory's cache and the locks, the pointers to sessions in the session manager as owners, the
-- bytes of gzip, the Prometheus library, and the launch of the client's dashboard, a fork and exec.
--
-- Files. `Prelude` has the helpers: texts, lists, sets, integers and association lists (`Dict`).
-- `World/Stable` and `World/Keeps` have relations and properties that actions keep. Below each part's
-- file stand its theorems, named for what they prove, and `Tests` has a small state with an example of
-- each theorem.
pub mod AlertManager
pub mod Authenticator
pub mod Client
pub mod ClientSession
pub mod CommandProcessor
pub mod Config
pub mod EventQueue
pub mod Invariant
pub mod Inventory
pub mod Json
pub mod Logger
pub mod Platform
pub mod Prelude
pub mod Resources
pub mod Server
pub mod SessionManager
pub mod Storage
pub mod Tests
pub mod ThreadPool
pub mod Traffic
pub mod UdpHandler
pub mod World
