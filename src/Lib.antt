-- ===== src/Lib.antt =====
-- A model of pocket-oid, a small OpenID provider, and proofs about it.
--
-- The program answers HTTP requests. A browser asks for a code at `authorize`; the user proves who
-- they are at `login`, or at a trusted upstream provider, to which `begin_reauth` sends the browser
-- and from which it comes back to `reauth_callback`; `consent` and `reauth_consent` take the user's
-- decision. The client then exchanges the code for tokens at `token_endpoint`. All of them share
-- one store in memory, and a configuration that is checked once, when the program starts.
--
-- The files, and what of the repository they model:
--   * AuthStore (src/auth.rs): the store of sessions, codes and transactions. Each operation is a
--     function from a store to a store and an answer, under the name of its method. Each method
--     holds the lock of one map from its first access to its last, so it is one step; `Utc::now()`
--     and `Uuid::new_v4()` are arguments. AuthStore/Calls and AuthStore/Runs have sequences of
--     operations, in any interleaving, as lists.
--   * Handlers (src/handlers.rs): Handlers/Validation, Handlers/Issue, Handlers/Authorize,
--     Handlers/Reauth and Handlers/Token have the endpoints, Handlers/Scopes and Handlers/Pkce the
--     checks, Handlers/Messages the texts, and Handlers/State the shared state (src/app.rs). An
--     endpoint takes the times and identifiers that it draws as a record, and passes the store on.
--   * Uri (src/handlers.rs): the `return_to` address.
--   * Http (src/error.rs): responses and errors. A response has its status, its address, its cookie
--     and its body; a page is the name of its template with the values put into it. `panic` is a
--     panic of a called function, `diverge` a loop that has not ended within the fuel.
--   * Upstream, Upstream/Client (src/upstream.rs): what the endpoints ask of the upstream client,
--     as a record of functions, and the program's own client, which fills that record.
--   * Config (src/config.rs): the configuration's types, the checks of the registries, and the loading
--     of all files, of which Config/Load takes the contents.
--   * Template (src/token.rs): the token template. The loop over inline placeholders takes fuel.
--     Template/Termination has how much is enough, and a template for which none is.
--   * App (src/app.rs): the loading of the signing keys, for which a key file is an argument, the
--     discovery document, the scopes that it lists, and the start of the server.
--   * Users (src/users.rs): the check of a password, the credentials, the users of a file and those
--     of the rows of a database, and the list of either.
--   * Frontend (src/frontend.rs): the escaping of values, and the consent pages as texts.
--   * Admins (src/admins.rs): the table of the administrators as a list of rows, and the statements
--     that read and change it. A change of a password has two halves, between which other statements
--     may run: Admins/Races has them in any order, and Admins/Views and Admins/Moves the accounts
--     that the table implements and what a statement does to them.
--   * AdminConsole (src/admin_console/mod.rs): the console's sessions, its limit on attempts, and the
--     check of a request. AdminConsole/Login and AdminConsole/Account have the handlers that change
--     something, each cut where its task verifies a password, AdminConsole/Browse those that only
--     show something, AdminConsole/Summary, AdminConsole/Selection and
--     AdminConsole/Tables (src/admin_console/views.rs) what a list shows, and
--     AdminConsole/Replies the answers. AdminConsole/Runs has requests and tasks in any order.
--   * Base, Text, HashMap, BTreeSet, Json, Sorting: the types of the language and its library that the
--     program uses. A text is the list of its characters' codes; a map is an association list, and
--     `HashMap`'s order, which the program does not rely on, is that of the list.
--   * Outside: the crates, as records of functions with the documented behaviour that the proofs
--     use. What the network, the database and the cryptography answer is such a function.
--   * Tests: the theorems at concrete inputs.
--
-- Numbers: times are nanoseconds since the earliest time; a lifetime is an `i64` number of seconds,
-- and the cast of a `u64` to it wraps around, as in the source. Numbers in JSON are integers.
--
-- A response is what a handler asks for. `Redirect::to` panics where its address is no header value;
-- `sent` of Http says which responses leave the server.
--
-- Not modelled: the reading of files and their deserialization, the migration of databases, HTML,
-- the loading of keys, the routing, the endpoints that answer a stored value, and the
-- scheduling of tasks: each endpoint is one sequence of steps, while the store's operations are
-- also considered in any interleaving.
pub mod Base
pub mod Sorting
pub mod Text
pub mod HashMap
pub mod BTreeSet
pub mod Outside
pub mod Json
pub mod Config
pub mod Upstream
pub mod AuthStore
pub mod Users
pub mod Uri
pub mod Template
pub mod Http
pub mod Handlers
pub mod Admins
pub mod AdminConsole
pub mod App
pub mod Frontend
pub mod Tests
