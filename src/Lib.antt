-- ===== src/Lib.antt =====
-- The identity provider sso_go: its repository layer, its token service and its use cases.
--
-- The program (internal/) has these parts. The transports (httpapi, grpcapi) call the services
-- (internal/service), which test their input and call the repository (internal/repository/postgres).
-- Each repository operation is one PostgreSQL transaction, or a statement on the pool. The tokens
-- (internal/token) are signed and checked with keys that the repository keeps. Events are queued in
-- the transaction that causes them, and a loop (internal/events) sends them to Kafka.
--
-- Where each part is:
--   Prelude         names shared by all; texts as lists of bytes; SELECT, UPDATE, DELETE and ORDER BY
--                   on lists of rows (Prelude/Rows); the errors and results
--   Db              the tables of migrations/postgres, a record of lists of rows
--   Tx              a transaction: a function of the time and the tables to a result and tables; an
--                   error drops the writes
--   Action          a sequence of transactions and pure steps on a World: the tables, the failures of
--                   the database to come and the time. Action/Run has what is known of a run.
--   Repo/Tables     Client, Account and Access of postgres.go, and the tests that are foreign keys
--   Repo/Oauth      oauth.go: authorization codes (Codes), refresh tokens (Rotation, Families, Replay)
--   Repo/Identity, Repo/Passwords   identity.go
--   Repo/Admin      admin.go, with Repo/Admin/Granted
--   Repo/Lockout    what disabled accounts and renewed passwords cut off
--   Repo/Management management.go
--   Repo/Events     events.go: the two queues that an event is written to, and the audit; what the
--                   clients' sync reads is in Repo/Events/Feed
--   Repo/Replica    what a client knows that replays the events of its project: a specification of
--                   the feed, not code of the repository, and the operations that write it
--   Repo/Tokens     the refresh tokens over any sequence of operations, and after a replay
--   Repo/Outbox     outbox.go and internal/events/outbox.go
--   Repo/Keys       keys.go
--   Repo/Maintenance maintenance.go
--   Repo/Clients    clients.go, with EnsureBootstrap in Repo/Clients/Bootstrap
--   Strconv         numbers as strconv and fmt read and print them
--   Security        internal/security, with the encodings of encoding/base64 that it uses
--   Token           internal/token/keys.go
--   Service/Oauth, Service/Identity, Service/Admin, Service/Management, Service/Operator   the files
--                   of internal/service with these names; Service/Access has limits.go and
--                   ClientProject of sync.go, Service/Errors has errors.go, Service/Roles the two
--                   role validators, Service/Words what is used of Go's strings package; the run from
--                   Authorize over Exchange to Refresh is in Service/Oauth/Flow
--   Http            internal/transport/httpapi: requests and replies (Message), what handlers do
--                   first (Forms), clientIP (Address), the handlers (Browser, Account,
--                   AdminHandlers, OauthHandlers with TokenEndpoint, SyncHandlers), and which
--                   request goes to which handler (Routes)
--   Grpc            internal/transport/grpcapi
--   Import          cmd/import_octopus_users: what it reads (Users), its transaction (Writing), its run
--                   (Running)
--   Config          internal/config
--   Migrations      Migrate of postgres.go
--   Examples        the theorems on a small database
--
-- How the code corresponds: a method of postgres.DB with the name DoThis is the definition do_this;
-- a closure that it gets (a password check, a PKCE check, a send) is an argument. `w.faults` says
-- which of the coming transactions the database fails: a failure at Begin, at a statement or at
-- Commit has one effect, an error and no writes, so one bit stands for all. PublishNext draws two,
-- since a send stands between its SELECT and its UPDATE. A list of faults that ends stands for a
-- database that works from then on.
--
-- Conventions: times are numbers on one scale of seconds, and the clock stands still during one
-- operation, so that now() of PostgreSQL and time.Now() agree within it. Texts are bytes, and
-- lower, TrimSpace and Fields are those of ASCII. The tokens and identifiers that the code draws at
-- random are arguments, `ids n` being the n-th that one operation draws. Columns that nothing reads
-- are left out. A test of RowsAffected on a primary key is the test that some row matches. The
-- numbers of sync_events are given back on a rollback, where PostgreSQL leaves a gap.
--
-- Every loop runs over a list, and the publishing loop over its ticks. The one fuel is that of
-- Strconv.digits, 20 digits, which a 64-bit number does not exceed.
--
-- Parameters: SHA-256 (`hash`, `challenge_of`), RSA, and JSON and base64 of tokens (the record
-- Jose), argon2 and bcrypt (the record Crypto), the mailer, mail.ParseAddress and url.QueryEscape
-- (the record Outside), url.Parse, the functions of package net (the record Net), and Kafka (a
-- Sender). What a theorem needs of them is among its hypotheses.
--
-- Fosite's check of an authorize request is a function of the request and the tables.
--
-- Not modelled: the page state, metrics and response headers of the HTTP transport, the wiring and
-- the commands (network and process I/O), what the SQL of a migration does, the reads that only fill
-- a page (UserProjects, AdminView), and the generation of keys.
pub mod Prelude
pub mod Db
pub mod Tx
pub mod Action
pub mod Strconv
pub mod Security
pub mod Repo
pub mod Service
pub mod Token
pub mod Http
pub mod Grpc
pub mod Import
pub mod Config
pub mod Migrations
pub mod Examples
