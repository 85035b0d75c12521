-- ===== src/Lib.antt =====
-- A verification library for the video streaming service, a Go program: an HTTP API, a worker that
-- transcodes uploaded videos, a Postgres database, a Redis server and a file store.
--
-- The parts that are modelled, and the files that model them:
--
--   Domain.Role, Domain.User, Domain.Video   internal/domain/role.go, user.go, video.go: the data of
--     the program as records and data types, their validation, and one function per method. A method
--     that changes its receiver returns the new record; one that may fail returns both.
--   Password      pkg/security/password.go: the policy and the hashing.
--   Token         pkg/jwt/token.go: access and refresh tokens (GenerateToken, validate, ...).
--   Redis         the commands of the Redis server, a record of operations and laws that the clients
--     take as a parameter.
--   Session       internal/service/session_service.go: the denylist of tokens.
--   Auth          internal/middleware/auth.go: from the Authorization header to a principal.
--   Account       internal/service/auth_service.go: Register, Login, Refresh, Logout.
--   RateLimit     internal/middleware/rate_limiter.go: the fixed-window limiter, and the cap on
--     concurrent requests as a state machine over events (Concurrency).
--   Storage       internal/storage/storage.go and local.go: keys, paths and Save.
--   Progress      SaveProgress of internal/service/view_tracker.go, with the row that it writes.
--   Postgres      internal/repository/postgres: the statements on one video (Videos,
--     video_repository.go), on reports and bans (Moderated, report_repository.go, user_repository.go),
--     and the sequencing of code that calls the database (Calls).
--   Domain.Report, Moderation   internal/domain/report.go, internal/service/moderation_service.go: the
--     filing and the review of reports, and bans. Moderation.Filing has requests to file reports that
--     interleave: the check and the insertion are two statements in no transaction.
--   Domain.Social, Social   internal/domain/social.go, internal/service/social_service.go: likes,
--     comments, subscriptions, playlists, the lists to watch later and notifications, over the tables of
--     internal/repository/postgres/social_repository.go (Postgres.Likes, Postgres.Comments,
--     Postgres.Subscriptions, Postgres.Playlists, Postgres.Notices), with the constraints and triggers
--     of migrations/000009_add_social_features.up.sql and migrations/000011_fix_count_triggers.up.sql.
--     Social.Requests is the service as a machine that serves one request after the other,
--     Social.Counters is about the counters and Social.Playlists.Contents about playlists as lists.
--   Email         internal/service/email_service.go: the verification of addresses, the reset and the
--     change of passwords.
--   Transcoding   internal/service/transcoding_service.go: ProcessVideo.
--   Cache         internal/cache/cache.go: LocalCache, the cache in the process.
--   Common        the shared types (Error is internal/domain/errors.go) and lemmas, with Go's strings
--     and strconv as far as the program uses them.
--   Examples      fixtures, tests, and the theorems at concrete inputs.
--
-- How the parts interact: a request passes the middleware (Auth), which asks Token for the claims and
-- Session for the revocation; Account mints tokens through Token, writes accounts through the interface
-- UserRepository and denies tokens through Session. The worker runs Transcoding over Postgres.
--
-- Conventions: a time is a number of nanoseconds from 1970 and is passed in, as is every fresh UUID,
-- which is the number of its bytes. Sizes and counts of the source that may be negative are of the type
-- ℤ of Common. State is passed explicitly: the Redis server is an abstract state with laws, the
-- database is its tables with a list of outcomes of the calls to come (World), the file system a map from
-- paths to sizes. A call of a service runs without interruption by others except where it says otherwise
-- (RateLimit.Concurrency, Moderation.Filing, Cache.Forgetting). A time in a row is kept as it is, where a
-- column of type TIMESTAMPTZ rounds it to microseconds. A table is a list of rows or a function of the primary key; a statement is carried out
-- with its constraints and triggers or not at all, and a transaction is rolled back after an error. Loops are structural recursions over the lists that the source ranges over, so no
-- fuel is spent, but for the digits of a number, where as much fuel as the number is always enough.
--
-- Code outside of the repository is a parameter with the laws that the source relies on: Redis,
-- golang-jwt, bcrypt, the Unicode classes, uuid.Parse, strings.ToLower, base64, SHA-256, the delivery of mail, and the
-- outcomes of ffmpeg, the file system and the database. Wrapped errors are the sentinel that they wrap.
--
-- What is not modelled: the HTTP handlers, router and pages, configuration, logging, metrics and
-- the part of the cache that is in Redis (glue and I/O); the listings of videos, users and reports and the other tables (SQL); the audit
-- log; the object store; and so far the counting of views, search, uploads and the job queue.
pub mod Cache
pub mod Common
pub mod Domain
pub mod Email
pub mod Password
pub mod Token
pub mod Redis
pub mod Session
pub mod Auth
pub mod Account
pub mod Postgres
pub mod Transcoding
pub mod RateLimit
pub mod Social
pub mod Storage
pub mod Moderation
pub mod Progress
pub mod Examples
