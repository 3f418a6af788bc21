-- ===== src/Lib.antt =====
-- A verification library for tr69d, a TR-069 (CWMP) client for customer premises equipment.
--
-- The daemon (src/Tr069Daemon.cpp) reads its configuration, holds a session with the ACS, acts on
-- what the session asks for, and waits for the next reason to inform the ACS. A session
-- (src/CwmpSession.cpp) posts an Inform, then an empty request, and answers one RPC after the
-- other until the ACS has none. It writes its documents with src/SoapBuilder.cpp, reads the ACS's
-- with src/SoapParser.cpp, answers RPCs by src/cwmp/rpc_handler.cpp, and keeps its state in
-- src/CwmpStateMachine.cpp. Parameters are read and written through
-- src/transformer/transformer_api.hpp, directly or by src/DataModel.cpp, behind which
-- src/transformer/lua_transformer.cpp calls a script; settings of the device go through the
-- commands of src/UciAdapter.cpp. Other threads ask the daemon for something: the one of
-- src/ConnectionRequestServer.cpp, the callbacks of src/UbusServer.cpp, the signals of
-- src/main.cpp.
--
-- The files, with the code that each models. Names are those of the code in this library's
-- spelling: `processAcsMessages` is `process_acs_messages`.
--   Base            `std::string` as a list of bytes, `std::to_string`, `std::stoul`, numbers
--   Types           include/tr069/Types.hpp
--   StateMachine    src/CwmpStateMachine.cpp; Graph: the diagram of docs/DESIGN.md
--   Transformer     src/transformer/transformer_api.hpp, as a record of operations
--   DataModel       src/DataModel.cpp
--   Clock           the text of a time in src/SoapBuilder.cpp and src/DownloadManager.cpp
--   SoapBuilder     src/SoapBuilder.cpp; Escape: a reader of character data; Markup and
--                   Skeleton: what is left of a document without its texts
--   RpcHandler      src/cwmp/rpc_handler.cpp; Replies: its answers and requests
--   Xml             the part of libxml2 that the parser uses, as a record of operations
--   SoapParser      src/SoapParser.cpp; Search: document order; Outcome: the ways out
--   Http            include/tr069/HttpClient.hpp, the structs
--   Lua             the Lua interface, as a record of operations, and its manual as laws
--   LuaTransformer  src/transformer/lua_transformer.cpp; Methods: the three methods; Contract: what
--                   the engine's methods say; Fields, Arguments and Results: the passages between
--                   C++ and Lua; Values, Updates and Names: the methods against the contract;
--                   Reached: any calls in any order
--   Session         src/CwmpSession.cpp; Loop and Rounds: rules for its loop; Outcome, Machine,
--                   Dialogue and Ending: its properties
--   Shell           `popen` and `system`, as a record of operations
--   Uci             src/UciAdapter.cpp; Words: how a shell splits a command; Quote, Values; Store:
--                   what uci documents of its commands
--   HttpClient      src/HttpClient.cpp, the download; Post and Answered: the requests to the ACS
--   Download        src/DownloadManager.cpp; Transfer: its properties
--   ConnectionRequest  src/ConnectionRequestServer.cpp between `recv` and `send`; Reply: the
--                   replies; Authentic: the requests that are granted; Headers: the reader of
--                   headers; Cutting and Reading: what a directive is; Directives, Client and
--                   Accepted: a client of RFC 2617; Listener and Lifecycle: the socket; Restart
--                   and Refined: the server that the daemon replaces; Serving and Raised: the
--                   loop over the clients
--   Platform        all that is not part of the repository, in one record
--   Config          the configuration of src/Tr069Daemon.cpp; Equality: its comparisons; Log: what
--                   the log says of a change
--   Logger          src/Logger.cpp
--   Reboot          src/RebootHandler.cpp
--   Daemon          the state, the refresh and the wait of src/Tr069Daemon.cpp; Loop: the rounds of
--                   its main loop; Run and Ending: `run` as a whole; Refresh, Waiting, Rounds,
--                   Events, Bootstrap; Wakeup: the wait against the threads that notify; Fairness:
--                   waits in a row; Status: `status`; Kept and Reboots: the flag of a reboot over
--                   a restart of the device
--   UbusServer      src/UbusServer.cpp; Lifecycle: its connection; Handlers: its callbacks
--   Main            src/main.cpp, the thread that waits for signals; Ubus and Joined: the two
--                   threads of the build with ubus
--   Md5             src/Md5.cpp; Padding, Text; Words, Reference and Rounds: the text of RFC 1321
--   Examples        tests, and the theorems at concrete inputs
--
-- State is passed explicitly. What lies outside the repository is an argument: the shell, libxml2,
-- libcurl, the file system, the clock and the environment, over a state `S` of the device that they
-- share; Lua, the sockets and ubus, over states of their own. The clients of `TransformerApi` take
-- its implementation as an argument too, over `S`, and one whose reads change nothing; a read of
-- `LuaTransformer` can change the Lua state, and so it is modelled beside the interface. The
-- answers of the ACS are a list, one for each request that a session posts; where the list is too
-- short, the session waits, and its result is `none`. The flags that other threads raise are
-- arguments of the daemon's steps. What `uci` documents of its commands, and that a restarted device
-- holds what was stored for good, are laws that the theorems about them take. The daemon takes the
-- text of a time as an argument, and Clock says how that text is written.
--
-- Bounds. The loop of a session is on fuel, the number of answers left and one more: each round
-- but the last takes an answer. `std::to_string` is on fuel, the number and one more. The zeros
-- that pad a digest's message are on fuel 64, and fewer are ever needed. The search for a header
-- is on fuel, the length of the request, which is more than its headers. `unsigned` is a number
-- below 2^32, with its wrap-around written out; `unsigned long` has 64 bits.
--
-- Not modelled: logging, which has no effect on the rest, but for the log of a change of the
-- configuration and of SetParameterValues; the script behind src/transformer/lua_transformer.cpp,
-- which is Lua, and the end of its state; `uloop_run`, which may return at any time here.
pub mod Base
pub mod Types
pub mod StateMachine
pub mod Transformer
pub mod DataModel
pub mod SoapBuilder
pub mod RpcHandler
pub mod Xml
pub mod SoapParser
pub mod Http
pub mod Lua
pub mod LuaTransformer
pub mod Session
pub mod Shell
pub mod Uci
pub mod HttpClient
pub mod Download
pub mod Platform
pub mod ConnectionRequest
pub mod Clock
pub mod Config
pub mod Logger
pub mod Reboot
pub mod Daemon
pub mod UbusServer
pub mod Main
pub mod Md5
pub mod Examples
