-- ===== src/Lib.antt =====
-- A model of the C++ core of Jitong, an instant-messaging application: the client library
-- `client_core` and the server `im_server`.
--
-- The parts and how they work together. A client reads and writes frames on a connection
-- (Transport). Its account layer decides when to connect, to log in, to refresh and to reconnect
-- (Account). Messages carry sequence numbers, and the sync tracker knows which have arrived and
-- which gaps to fetch (Sync). The runtime's contracts pass completions and database versions to the
-- user interface and choose the database at a cut-over (Runtime). One thread writes the database
-- (Storage), where a service keeps the suggestions of the AI (Services). On the server, a packet goes through the dispatcher to a handler; the login limiter,
-- the AI limiter and the table of online sessions guard the handlers, and the token service
-- issues, checks and rotates the tokens that the account layer keeps (Server).
--
-- Files, each with its child modules for the proofs:
-- - Base: names, lists measured by native numbers, byte strings, association lists.
-- - Sync/Ranges, Sync/Tracker: client_core/include/client_core/sync/SyncTracker.h, one function per
--   member function of SyncTracker.
-- - Sync/Service: client_core/include/client_core/sync/SyncService.h and
--   client_core/src/sync/SyncService.cpp, on top of the tracker.
-- - Account/Types, Account/State, Account/Machine: client_core/include/client_core/AccountTypes.h,
--   AuthStateMachine.h and client_core/src/account/AuthStateMachine.cpp. A request returns the
--   machine, the actions that the code appends to `out`, and the operation id; a signal returns the
--   first two.
-- - Account/ReconnectPolicy: client_core/include/client_core/ReconnectPolicy.h and
--   client_core/src/account/ReconnectPolicy.cpp.
-- - Account/TokenManager: client_core/include/client_core/TokenManager.h and
--   client_core/src/account/TokenManager.cpp.
-- - Transport/Bits, Transport/Frame: client_core/src/transport/FrameCodec.h and FrameCodec.cpp, and
--   encodeType32 and decodeType32 of client_core/include/client_core/Protocol.h.
-- - Account/DeviceProof: client_core/src/account/DeviceProofService.cpp and AuthRequestBuilder.cpp,
--   with client_core/include/client_core/DeviceProofService.h.
-- - Account/Session: client_core/include/client_core/AccountSession.h and
--   client_core/src/account/AccountSession.cpp. Actions is runActions with the two results that it
--   calls itself, Intents the other members.
-- - Transport/Messages: the messages of protocol/im.proto that the authentication handlers use.
-- - Runtime/Registry, Runtime/Bus, Runtime/Recovery: CompletionRegistry.h, InvalidationBus.h and
--   RecoveryResolver.h of client_core/include/client_core/runtime/.
-- - Storage/Queue: client_core/include/client_core/storage/DbCommandQueue.h and
--   client_core/src/storage/DbCommandQueue.cpp. The calls of `submit` and `close` and the two halves
--   of a turn of the writer's loop, before and after the locked block, are steps that a run takes in
--   any order.
-- - Storage/Suggestions: the table ai_suggestions in client_core/src/storage/NativeRepository.cpp:
--   joinSuggestions, splitSuggestions, upsertAiSuggestion and loadAiSuggestions.
-- - Services/Suggestions: client_core/include/client_core/ai/AiSuggestionService.h and
--   client_core/src/ai/AiSuggestionService.cpp. An operation returns what it hands to the repository.
-- - Server/Login: im_server/src/auth/LoginRateLimiter.h and LoginRateLimiter.cpp.
-- - Server/Ai: im_server/src/ai/AiRequestLimiter.h and AiRequestLimiter.cpp.
-- - Server/Presence: im_server/src/session/Presence.h and Presence.cpp.
-- - Server/AuthTable: the statements of im_server/src/db/Database.cpp on the tables auth_sessions
--   and auth_refresh_history, which enforce their UNIQUE columns.
-- - Server/Tokens: im_server/src/auth/TokenService.h and TokenService.cpp, on those tables; Rotate is
--   rotateRefresh.
-- - Server/DeviceKeys: the statements of im_server/src/db/Database.cpp on the table device_keys.
-- - Server/WriteQueue: im_server/src/db/DbWriteQueue.h and DbWriteQueue.cpp, as steps that a run takes
--   in any order: submit up to its wait, open, the halves of a turn of the loop, the destructor's stop.
-- - Server/DeviceProof: im_server/src/auth/DeviceProof.cpp.
-- - Server/Auth: im_server/src/handlers/AuthHandler.cpp. Login is onRegister and onLogin, Sessions is
--   onTokenLogin, onTokenRefresh and onLogout. A handler takes the parsed request, the connection and
--   the server's state, and returns the last two.
-- - Server/Router: im_server/src/routing/ProtocolRouter.h, ProtocolRouter.cpp and Dispatcher.cpp.
-- - Each part's Tests module runs the code on concrete inputs.
--
-- How the code is written down. State is a record that a function takes and returns. A mutex makes
-- a member function one step. An integer that the code keeps non-negative is a natural number, and
-- unsigned counters keep their wrap-around; the overflow of a 64-bit time, sequence number or delay
-- is not modelled. Times count ticks of the clock in question, and a test against `now - d` has `d`
-- on the other side, so that it means the same for early times. A std::string is the list of its
-- bytes. A map is an association list in which no key stands twice; the order of std::map is kept
-- where the code's result depends on it. An exception or an early return is a value.
--
-- Loops are recursions on the list, the counter or the buffer that they consume. The frame reader
-- runs on fuel, one round for each byte of the buffer: a round that goes on consumes eight bytes at
-- least, so the fuel is enough. `to_string` of the token manager runs on fuel 20, which is enough
-- for the digits of any 64-bit number. runActions of the account session calls itself where an action
-- cannot be sent: it runs on a depth of two levels, which is enough, since the actions of a failure
-- are always sent. What the session tells the transport and the event sink is a log, and a callback
-- that the transport makes during a call is taken as a step after it.
--
-- Parameters. SQLite is a function for sqlite3_exec with the laws that BEGIN, a failed COMMIT and
-- ROLLBACK change nothing committed, that a failed BEGIN opens no transaction, and that a COMMIT that
-- succeeds and a ROLLBACK end one. The jitter source, the cancel tokens, the lifetime of a session
-- behind a weak pointer and whether the token store accepts a change are arguments of the calls. Of
-- the client's repository, the rows that the sync service loads and replaces are a record. The
-- handler methods that the dispatcher calls are fields of a record. The token service takes SHA-256 as
-- a function, the bytes of each RAND_bytes, the flags of the statements that sqlite runs, and the key
-- at which the iteration of its unordered_map begins. The authentication handlers take OpenSSL's
-- verification, the user, friend and message tables and the liveness of connections in one record; a
-- stored message carries the protobuf message that fillChatInfo makes of it.
-- Whether a write to the suggestions commits, what the wait for the writer reports and whether a read
-- succeeds are arguments.
--
-- Not modelled: sockets, TLS, threads as such and the secure channel; the statement cache of the write
-- queue of the server; the SQL of the two databases but
-- for the tables of tokens and device keys of the server and that of AI suggestions of the client;
-- the other handlers and the AI clients of the server; the media services; the JNI
-- bindings and the Kotlin application; the copies of asio, httplib and SQLCipher. Log output is left out everywhere.
pub mod Base
pub mod Sync
pub mod Account
pub mod Transport
pub mod Runtime
pub mod Storage
pub mod Services
pub mod Server
