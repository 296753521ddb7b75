-- ===== src/Lib.antt =====
-- Golem-Harness: an ingest proxy for signed UI telemetry. A device signs an envelope round a JSON
-- frame; the proxy verifies the envelope, refuses replays, binds the payload to the envelope,
-- blanks or hashes the raw texts of the UI tree, and appends the sanitized frame to a sink.
--
-- Files, and the code that each models:
--   Base, Base/*         words shared by all: texts as lists of bytes, tests, lists, integers, maps
--   Errors               the sentinel errors of auth.go and signing.go, and a value or an error
--   Clock, Platform      package time, crypto/sha256, crypto/ed25519 and encoding/hex
--   Decimal, Strings     strconv.FormatUint and strconvI; strings.TrimSpace and sort.Strings
--   Regex, Regex/*       package regexp: expressions, a matcher, and which words they read
--   Trajectory           server/pkg/trajectory/types.go
--   Signing              server/pkg/signing/signing.go (CanonicalBytes, SignEnvelope, HashPayload)
--   Signing/Proto        server/pkg/signing/proto.go
--   Auth                 server/internal/auth/auth.go (Verify, bindClientCert)
--   Auth/Registry        auth.go (NewStaticDeviceRegistry, LookupDevice, RequiresClientCert)
--   Auth/Log, Auth/Guard what a ReplayGuard promises, over the log of accepted frames
--   Auth/Memory          auth.go (MemoryReplayGuard)
--   Auth/Sqlite          server/internal/auth/replay_sqlite.go (CheckAndRecord)
--   Auth/Sqlite/Opening  replay_sqlite.go (NewSQLiteReplayGuard, Close)
--   Auth/Sqlite/Lives    replay_sqlite.go, over restarts of the process
--   Sanitize/Redactor    server/internal/sanitize/sanitize.go (textRedactor)
--   Sanitize/Patterns    sanitize.go (the seven regular expressions)
--   Sanitize/Unique      sanitize.go (unique)
--   Sanitize/Outcomes    sanitize.go (NewPipeline, drop, quarantine, the parts of Process)
--   Sanitize/Process     sanitize.go (Process)
--   Ingest               server/internal/ingest/service.go (IngestFrame)
--   Ingest/Calls         service.go (Response, safeLog, safeRequestID, peerCertificateFingerprint)
--   Ingest/Bind, Codes   service.go (bindEnvelopeToFrame; mapAuthError, safeReason)
--   Ingest/Concurrent    service.go, for calls of IngestFrame that run at the same time
--   Ingest/Timed         service.go, with clocks that go on from call to call
--   Config               server/internal/config/config.go (Validate, AuthDevices, SignatureTTL)
--   Client               server/pkg/client/client.go, and server/internal/ingest/convert.go and
--                        grpc_server.go (the messages and the handler before the service)
--   Storage              server/internal/storage/storage.go (WriteSanitizedFrame, ensureWriter, Close)
--   Storage/Paths        storage.go (validateSanitizedFrame, archiveStamp, rotatedPath)
--   Proxy                server/cmd/golem-proxy/main.go, and server/internal/ingest/grpc.go
--   Proxy/Lives          main.go, over lives of the process
--   MockClient           mock-client/main.go
--   Tests/*              runs on concrete data
-- The other children hold proofs and are named for what they prove.
--
-- State is passed explicitly. A verifier holds the state of its replay guard, and a service those
-- of its verifier, sanitizer and sink, with the lines that it has logged. A mutex makes a call one
-- step, so a run is a list of calls. Calls of IngestFrame at the same time are a step relation: a
-- call is its verification, which the guard's lock makes one step, and what follows, which the
-- sink's lock makes one, and the steps of other calls may come in between. An error is a value:
-- `Result` where the caller tells errors apart, `Option` where it only asks whether there is one.
--
-- Code outside the repository is a parameter. `Platform` holds SHA-256, Ed25519 and the RFC 3339
-- print of a time, and `IsLawful` what their documentation promises: the lengths, that a signature
-- made with a key from a seed verifies under its public half, and that a printed time is one line
-- and tells the time. Nothing is assumed on forging. `ReplayDb` is the database, and `IsTransactional` says
-- that a statement that succeeds has its effect, and that a rollback or a commit that fails leaves
-- the rows of the transaction's beginning; `ReplayFile` is the disk with a database
-- at each path, and `IsDurable` says that what was committed stands at its path after the process. `Outside` holds what the proxy reads of files
-- and certificates, and `KeyFiles` the key file of the mock client. The NER, the vision redactor,
-- encoding/json, timestamppb, base64, the files of a sink and the peer of a call are parameters
-- too. Package regexp is written out: a text is its UTF-8 bytes, `(?i)` folds ASCII letters and the
-- two characters that fold to one, and the matcher says whether there is a match, as MatchString
-- does. The redactor takes any matcher as an argument; `match_pattern` is the one for the source's
-- expressions.
--
-- A byte is a natural number, and a uint64 is a natural number with `< 2 ^ 64` where that matters.
-- `int` lengths and limits are integers, a time is a number of nanoseconds since the zero time and
-- `Sub` saturates at the ends of int64. The digit loop has 20 places, which is enough for 64 bits.
-- The search for an archive name has the 100 attempts of the source. The loop of a starred
-- expression has as many rounds as bytes are left, which is enough, since each round takes one. All
-- other recursion is on lists or on trees.
--
-- Not modelled: the listeners, flags, signals and the logger of the proxy and what the mock client
-- prints, all input and output or calls of libraries; the fixtures of the repository's tests; and
-- generated code.
pub mod Base
pub mod Errors
pub mod Clock
pub mod Platform
pub mod Proxy
pub mod Decimal
pub mod Strings
pub mod Trajectory
pub mod Signing
pub mod Auth
pub mod Regex
pub mod Sanitize
pub mod Ingest
pub mod Config
pub mod Client
pub mod MockClient
pub mod Storage
pub mod Tests
