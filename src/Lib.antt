-- ===== src/Lib.antt =====
-- kube-oidc-proxy: a reverse proxy that authenticates a request with OIDC (or a TokenReview) and
-- forwards it to a Kubernetes API server under the identity that it found.
--
-- A request passes the filters of pkg/proxy/handlers.go: a correlation id (pkg/proxy/requestid.go),
-- the sanitiser of the forwarded headers (pkg/proxy/context/context.go), authentication with the
-- bearer token (pkg/util/token/token.go) and the guard on reserved identities, and impersonation,
-- where a request that asks for another identity is checked by SubjectAccessReviews
-- (pkg/proxy/subjectaccessreview). The last step is RoundTrip of pkg/proxy/proxy.go.
--
-- Where the parts are:
--   Base       text as a list of bytes, maps as association lists, Boolean tests, results
--   Header     net/http's Header: canonical names, Get, Set, Del, Add
--   Request    the request and the values that the filters keep on its context
--   ClientIp   ResolveClientIP, SanitizeForwardHeaders and RemoteAddr of pkg/proxy/context
--   RequestId  withRequestID and validRequestID of pkg/proxy/requestid.go
--   Token      ParseFromRequest of pkg/util/token
--   Reserved   checkReservedIdentity and parseAllowedReservedGroups of pkg/proxy
--   Sanitize   Bound and BoundedList of pkg/logging/sanitize.go
--   Hooks      pkg/proxy/hooks: the registry of shutdown hooks
--   Sar        pkg/proxy/subjectaccessreview: Sar/Live is the cache and one check, Sar/Check the walk
--              over the headers, the rest what they guarantee
--   TokenReview  pkg/proxy/tokenreview: a live review, its cache and the encoding of the cache's key
--   Chain      the filters and RoundTrip: Chain/Errors is the error handler, Chain/Impersonation the
--              identity that is sent, Chain/Filters the filters as withHandlers composes them
--   Lifecycle  the response recorder and the lifecycle filter of pkg/proxy/lifecycle.go, with the
--              gauges of pkg/metrics/request.go
--   Issuers    pkg/proxy/issuerattr.go: which issuer's name a request carries
--   Labels     the labels of pkg/metrics/labels.go
--   Probe      pkg/probe: the readiness probe, its verdicts, gauges and endpoints
--   AccessLog  pkg/proxy/logging/accesslog.go: the record of a decision
--   Limiter    pkg/logging/ratelimit.go: the limiter of repeated records
--   Options    the validation of the flags in cmd/app/options
--   Flag       pkg/util/flags: the flag that reads a map of lists
--   Startup    cmd/app/run.go: the names of the issuers, the start, its failures and the drain
--   Examples   runs of the theorems at concrete requests
--
-- State is passed explicitly: an operation takes the state and returns the new one beside its
-- answer. The API server, the LRU store, singleflight, json.Marshal, the clock and the parsers of
-- package net are parameters, with the laws that are relied on as fields of IsEnv (Sar/Trust), Net
-- (ClientIp) and IsUnion (Issuers/Naming). Every loop is structural recursion on the data that the
-- source ranges over, so no fuel is needed. A map is ranged over in the order of its association
-- list, which is arbitrary. Numbers are natural numbers; a duration that is not positive is 0. The
-- numbers of the flags, which may be negative, are the integers of Options. Readiness checks that
-- overlap are a sequence of moves, each the part of a check between two of its locks, in any order
-- (Probe/Rounds).
--
-- The chain's parameters are the fields of Proxy (Chain): the OIDC authenticator, the token
-- reviewer, the limiter of warnings, the audit filters, the reverse proxy's own rewriting and the
-- transports. Its theorems ask of the rewriting only that it keeps the request's context.
--
-- Not modelled: the HTTP server, Prometheus and log/slog, which are libraries, and with them the
-- recorders, the catalogue and the server of the metrics and the names of the log events; the audit
-- backends and what the audit filters of pkg/proxy/audit record (whether they let a request on is a
-- field of Proxy); the construction of the OIDC authenticators and the loading of their configuration,
-- the records of forwarded headers, the registration of flags and the signals.
pub mod Base
pub mod Header
pub mod Request
pub mod ClientIp
pub mod RequestId
pub mod Token
pub mod Reserved
pub mod Sanitize
pub mod Hooks
pub mod Sar
pub mod TokenReview
pub mod Chain
pub mod Lifecycle
pub mod Issuers
pub mod Labels
pub mod Probe
pub mod AccessLog
pub mod Limiter
pub mod Options
pub mod Flag
pub mod Startup
pub mod Examples
