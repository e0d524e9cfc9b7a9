-- ===== src/Lib.antt =====
-- The backend of Sagiton, a chat server: accounts, friends, guilds with channels, messages, and a
-- websocket gateway that hands events to the connected clients.
--
-- How the program is put together, and which file models which part. HTTP handlers and the websocket
-- session call the use cases of backend/src/application/use_cases, which check their inputs and the
-- rights of the caller and call the repositories of backend/src/infrastructure/db/repositories.
--
-- - Prelude, Text, Collections: shared helpers. Texts are lists of code points, with `trim` and the
--   length in bytes of `str`; `HashMap` and `HashSet` are association lists and lists without
--   repetition.
-- - Shared: `AppError` and `AppResult` of backend/src/shared/error.rs. A failure of a statement is
--   the internal error that `From<sqlx::Error>` makes of it.
-- - Schema, Database: the rows of all tables as one record `Db`, and a use case or repository call
--   as a function `Tx` from a database to a result and a database. Statements that run on the pool
--   commit one by one; `transaction` rolls back on an error. A statement meets the keys, the
--   references and the checks of backend/migrations where a violation can arise.
-- - Validation: the input checks of all use cases.
-- - Friendship: friendship.rs (use case) over friendship_repository.rs.
-- - Permission, Guild.Permissions: backend/src/domain/permission/mod.rs and
--   `resolve_channel_permissions`. An `i64` of flags is the number of its 64 bits.
-- - Guild: guild_channel.rs (use case) over guild_channel_repository.rs.
-- - Invite: when an invite is used up, which is the same for the invites of guilds and of groups.
-- - Conversation: conversation.rs (use case) over conversation_repository.rs. Conversation.Direct has
--   direct threads, with the protocol of a thread and of friendships in Direct.Protocol as the
--   abstract machine that the calls refine; Conversation.Group has groups and their invites; Conversation.Message has the
--   messages of threads, over the same feed as those of channels.
-- - Message: message.rs (use case) over message_repository.rs. `Message.Paging.read_all` is a client
--   that follows the cursors; its fuel is a number of pages, and one more than there are messages
--   is enough.
-- - Auth: auth.rs (use case) over auth_repository.rs. Argon2, JWT, HMAC and `to_lowercase` are the
--   record `AuthPorts`, of which the theorems assume nothing. Auth.Hex is
--   backend/src/infrastructure/jwt/refresh_token.rs, with the random bytes and the digest of HMAC as
--   arguments.
-- - Gateway: the hub of backend/src/interfaces/ws/gateway.rs with the types of protocol.rs. A
--   delivery is the id of the connection whose sender gets the event.
-- - Session: `handle_command` and `handle_socket` of gateway.rs with the publishing of
--   backend/src/bootstrap/app_state.rs. The frames that arrive are a list, by which the loop recurs;
--   what a session does beside changing the hub is a list of effects; what it asks of the use cases
--   and of the rate limiter is the record `Ports`.
-- - Redis: backend/src/infrastructure/redis/service.rs. What the server and the cancellation do is a
--   list of rounds for the listener and a list of signals for a session, by which they recur; the
--   random jitter of a wait is an argument, and the 32 bits of an attempt and the 64 bits of a
--   shift saturate as in the source. `serde_json` is the record `Json`, and the server of the rate
--   limit the record `Counter`; the theorems name what they rely on of the two.
-- - Http: backend/src/interfaces/http/authentication.rs and the handlers of conversations, messages,
--   guilds, friends and accounts. A handler is a function of the caller and its parsed input to a
--   result, a database and the events that it publishes; `Http.Calls.serve` is a request to any of
--   those handlers that ask for a caller. Verifying an access token and the answer of the rate
--   limit are in the record `AppState`.
--
-- Every module `Tests` has the theorems at concrete inputs.
--
-- Ids are UUIDs as numbers, and times are numbers; a call gets the ids it draws, `NOW()` and
-- `now_utc()` in an `Env`. Not modelled: each call runs alone, so neither what other calls do to the
-- database between two of its statements, nor a lost connection, nor a cancelled request; several
-- websocket sessions on one hub as interleaved steps, and how the upgrade of a websocket finds its
-- token; parsing and printing of requests and responses by axum and serde, the routes, the OpenAPI
-- document, metrics and health checks, which hold no logic of their own; the start-up of the server;
-- PostgreSQL, Redis, Argon2 and the JWT and HMAC libraries.
pub mod Prelude
pub mod Shared
pub mod Database
pub mod Text
pub mod Collections
pub mod Schema
pub mod Validation
pub mod Friendship
pub mod Permission
pub mod Guild
pub mod Invite
pub mod Gateway
pub mod Session
pub mod Message
pub mod Auth
pub mod Conversation
pub mod Redis
pub mod Http
