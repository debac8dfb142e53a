-- ===== src/Lib.antt =====
-- CornerTasks: a task list that synchronises end-to-end encrypted events between devices.
--
-- The program. A client keeps its tasks and an outbound queue in a local store
-- (apps/web/src/storage/TaskStore.ts). Its sync engine (apps/web/src/sync/SyncEngine.ts) turns each
-- edit into a sealed event (apps/web/src/sync/syncEvent.ts), pushes the queue and pulls the events
-- of the account's other devices, with a bearer token that it gets by signing a challenge
-- (apps/web/src/sync/authSession.ts). The server's handlers (backend/core/src/handlers) check
-- tokens and requests and call a store (backend/core/src/lib/db.ts), here the one over SQLite
-- (backend/core/src/lib/sqlite-store.ts). The self-hosted server also keeps WebSocket connections
-- (backend/server/src/ws-server.ts): a hub authenticates each, sends it its account's events past a
-- cursor, and notifies it of new ones. The web client negotiates the socket
-- (apps/web/src/sync/NegotiatingTransport.ts) and falls back to HTTP. The store keeps the latest
-- event of each task, numbered per account; the number of the last event that a client has pulled
-- is its cursor.
--
-- The files.
--   Prelude              shared names; Prelude/Text texts as UTF-16 code units, Prelude/Json JSON
--                        values, Prelude/Outcome and Prelude/Call results that may throw and calls
--                        on a state, Prelude/Latest last-writer-wins over any strict order.
--   Core/Types           types/api.ts and the data of lib/db.ts.
--   Core/Cursor          parseCursor, and String(n).
--   Core/Sqlite          lib/sqlite-store.ts: Rows the tables and prepared statements, Methods the
--                        methods; below it the lemmas and theorems, each file named for what it
--                        proves.
--   Core/Store           the Store contract as a record of calls; sqlite_store fills it.
--   Core/SigningKey      the loader of lib/signing-key.ts.
--   Core/Http, Did, Jwt, Auth, Schema, Config
--                        types/http.ts and lib/response.ts, lib/did.ts, lib/jwt.ts, lib/auth.ts, the
--                        zod schemas of types/api.ts, and what a deployment configures.
--   Core/Handlers        push.ts, pull.ts, auth/challenge.ts, auth/token.ts, over any store.
--   Web/Tasks            storage/TaskStore.ts: Mutations, Queue, Remote and Migration hold its
--                        operations; Lookup, Lww, Convergence, Edits and Pending the theorems.
--   Web/Wire             sync/syncEvent.ts, crypto/box.ts, and makeDidJwt of crypto/identity.ts.
--   Web/Session          sync/syncTransport.ts (how replies are read) and sync/authSession.ts.
--   Web/Sync             sync/SyncEngine.ts: Push, Pull and Resync its runs; Calls, Flush,
--                        Applying and Advance the theorems.
--   Web/Socket           Client is sync/WebSocketTransport.ts, Meta the reading of /v1/meta, and
--                        Negotiation sync/NegotiatingTransport.ts, with its step relation; Transport
--                        the push and pull that the engine calls. Pushes, Policy and Reachable hold
--                        theorems, Following lemmas for them, and Drain a theorem on a client
--                        and a hub together.
--   Web/Account          crypto/AccountManager.ts.
--   Server/Ws            backend/server/src/ws-server.ts: Frames and Connection its data, Pump the
--                        reading and sending of events, Hub the registry, close, notify and timers,
--                        Messages the handlers of frames, System the hub with a store, its steps in
--                        any order, and the push over HTTP of backend/server/src/server.ts. Below
--                        them, the files of Pump are about the pump, those of Moves
--                        say what a step does to one connection, and Reachable, Identity and
--                        Registry hold the theorems about all runs.
--   Server/Meta          backend/server/src/handlers/meta.ts, lib/ws-config.ts and lib/audience.ts;
--                        Negotiated is about the client that reads its answer.
--   Tests                the theorems applied to small inputs.
--
-- How the code is modelled. A method of a class is a function from the state to a result and the
-- state; the clock, random identifiers and the network are arguments or functions on a network
-- state. What packages, the browser and the runtime do (base64, UTF-8, JSON, Ed25519, HMAC, AES-
-- GCM, base58, dates, the UUID test) is a record of functions: Codec, Base58, Formats, Runtime,
-- World, Urls, Phrases and Process. Loops are structural recursion, but for four on fuel: the
-- digits of n (decimal, whose n + 1 steps are more than n has digits), the unit of a double (971
-- doublings reach 2^1024), the shortest decimal of a double (as many steps as it has digits), and
-- event_frames, whose fuel is the number of events, of which each frame takes at least one.
--
-- A handler that awaits is cut there: its first part leaves a record of what it waits for, and a
-- later step, in any order with those of other handlers and other connections, resumes it. What it
-- awaits (a read of the store, a push, the check of a token) is run when it is called. Step
-- (Server/Ws/System) and Step (Web/Socket/Negotiation) are the steps that the runtime may take. The
-- random delay before a reconnect is kept as its bound. In answers (Server/Ws/Pump/Rounds) the
-- answers to one pump follow each other, and what may come in between is an argument.
--
-- Bounds of the model. A cursor is a text that a client chooses: it is read as a double and printed
-- as JavaScript prints one (Core/Cursor). The other numbers of the program are integers below 2^53;
-- times are not before 1970 and are natural numbers. Lower-casing is that of ASCII. SQLite compares
-- text by code unit, which is the order of the model on ASCII time stamps. The payload column is a
-- record, for the store writes and reads the same JSON. Error details and listeners are left out,
-- and so are failures of IndexedDB but for those while a pull applies its events. A push or a pull
-- of the web client runs to its end before the next begins. An `as SyncEvent` of parsed text reads
-- only texts of that shape.
--
-- Not modelled: the HTTP upgrade and the routes, the start-up of the self-hosted server
-- (backend/server), the DynamoDB store (backend/aws), key derivation, the encrypted phrase store
-- and the reveal gate (apps/web/src/crypto), preferences and the back-end ping, the user interface,
-- the macOS client (apps/macos).
pub mod Prelude
pub mod Core
pub mod Web
pub mod Server
pub mod Tests
