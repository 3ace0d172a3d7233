-- ===== src/Lib.antt =====
-- nats-oidc-callout: a NATS auth callout service that verifies OIDC tokens and issues user JWTs.
--
-- The program's parts and how they interact. A NATS server hands each connecting client's token to
-- the service. The authorizer (internal/callout/callout.go) has the verifier
-- (internal/verifier/verifier.go) check the token, the policy (internal/authz/authz.go) decide what
-- the identity is granted, and signs a user JWT with the granted permissions; the metrics
-- (internal/metrics/metrics.go) count the outcomes. The command (cmd/nats-oidc-callout/main.go)
-- loads the configuration, connects to NATS, starts the callout service with an authorizer, swaps a
-- new verifier and policy into it on SIGHUP, and stops the connection at the end. The verifier
-- selects a configured issuer by the token's unverified "iss", lets go-oidc check the token with
-- that issuer's cached keys (internal/verifier/keyset.go), and flattens the claims
-- (internal/identity/identity.go), which the policy's rules match by exact values, by subject
-- patterns and by CEL expressions (internal/authz/cel.go). The client libraries lib/k8sauth and
-- lib/awsauth get the tokens that clients present; test/k8s/client/main.go is such a client.
--
-- The files.
--   Prelude    shared tests, lists, texts, maps and signed integers
--   Strings    Go's `strings`: HasPrefix, CutPrefix, TrimSuffix, Split, SplitN, Join, TrimSpace
--   Regexp     Go's `regexp` on the patterns that a glob compiles to
--   Identity   identity.go: `Parse` is parse, `flatten` is flatten, `(*Identity).Claim` is claim
--   Authz      Patterns, Rules and Policy for authz.go, Cel for cel.go: `Validate` is validate,
--              `Evaluate` is evaluate, `matches` is matches, `hasStrongPin` is has_strong_pin,
--              `compileSub` is compile_sub, `evalCEL` is eval_cel, `DecodeStrict` is decode_strict
--   Verifier   verifier.go: `Verify` is verify, `New` is new; Verifier/KeySet for keyset.go, with
--              `refresh` as start_refresh and finish_refresh, and Verifier/KeySet/Requests for
--              calls of `VerifySignature` at the same time
--   Metrics    metrics.go: `RecordAllowed`, `RecordDenied` and the gauge; Metrics/Server for
--              internal/metrics/server.go: `newMux` is new_mux
--   Callout    callout.go: `Authorize` is authorize, `cappedExpiry` is capped_expiry
--   Config     internal/config/config.go, `LoadPolicy` of authz.go and `ValidatePath` of
--              internal/metrics/server.go: `Load` is load, `Validate` is validated
--   Service    cmd/nats-oidc-callout/main.go: `reloadConfig` is reload_config, `watchReloads` is
--              watch_reloads; Service/Connection for `connectNATS`, `nkeyOption` and `tlsConfig`,
--              Service/Startup for `run`, `main` and `newLogger`, Service/Shutdown for `stopService`,
--              Service/Concurrency for `Authorize` in many workers under `watchReloads`
--   K8sAuth    lib/k8sauth/k8sauth.go: `Token` is token, the handler of `NATSOption` is handler
--   AwsAuth    lib/awsauth/awsauth.go: `New` is new, `mint` is mint; AwsAuth/Cache for the cache file,
--              with `readCache` as read_cache and `writeCache` as write_cache; AwsAuth/Tokens for
--              `Token` as token and the goroutine of `refreshAsync` as refresh
--   MockOidc   internal/mockoidc/mockoidc.go, the issuer that the tests use: `encodeExponent` is
--              encode_exponent, `SetDefaultKey` is set_default_key; MockOidc/Tokens for `Mint`
--   TestClient test/k8s/client/main.go, the client of the end-to-end test: `run` is run
--   Examples   the theorems at concrete inputs
-- A child module holds the theorems about its parent's definitions.
--
-- State and concurrency. A method that changes its receiver returns the changed record.
-- `Authorize` reads its ruleset once, so it is a function of one ruleset; Service/Concurrency
-- takes that load and the rest of a request as two steps, with reloads and other requests between
-- them. The two critical sections of a key set's refresh are steps of a relation
-- (Verifier/KeySet/Throttle), and an interleaving of requests and fetching goroutines is a
-- sequence of these steps. Verifier/KeySet/Requests splits a whole `VerifySignature` into its
-- locked blocks, its wait and its wake-up, so that calls, fetches and timeouts interleave in any
-- order; one call's miss may start, delay or throttle another's refresh there. Steps of a relation are also the calls, background refreshes and writes of the processes
-- that share a cache file of AWS tokens (AwsAuth/Tokens/Isolation): what a call asks for is part
-- of its outcome, and is carried out in a later step or never. What a request meets outside its
-- code, the answers of the key sets and the readings of the clock, is its own (Callout.Moment), so
-- two requests may get different answers for one token; Service/Concurrency leaves these answers
-- free, and does not say how they follow from the key sets that its requests share. It also takes
-- the counter updates of a request as one with its end: their order is not modelled. A run of the service is the sequence of
-- its effects, with its error and the authorizer that it serves with.
--
-- Parameters, for code that is not in the repository: the decoders of JSON and base64, go-oidc
-- (with OidcLaws as what it documents, its exception for Google's issuer included), go-jose, OIDC
-- discovery, the CEL library (with CelLaws as what it documents of types), files and YAML,
-- functions on URL paths, certificates, the regular expressions outside the modelled syntax, the
-- signing of a JWT, nats.go and the callout library, net/http, nkeys, crypto/tls, the AWS SDK with
-- STS, SHA-256 (a law says that its digests are bytes; another one that JSON decodes a cache entry in
-- ASCII as it was encoded), the outcome of each file operation, and the clock.
--
-- Conventions. A text is the list of its bytes. Subjects and patterns are taken as valid UTF-8,
-- which the decoders guarantee. A time is a number of nanoseconds since the epoch, a duration a
-- signed number of them. A map is an association list in the order in which Go visits it. An error
-- is reduced to its cause. A compiled CEL program is represented by its source. White space is
-- ASCII's. Of `jwt.UserPermissionLimits` the fields that the source leaves zero are left out.
--
-- Fuel. Computed on fuel are the digits of a rule's index, with one more than the index, which is
-- at least the number of its digits, the digits of a time in a test token, on 20, which 64 bits
-- never exceed, and the loop of `stopService`, with 1001 rounds, which suffice since each round
-- sleeps 10 ms of a deadline of 10 s. Every other loop is a structural recursion.
--
-- Not modelled: logging, HTTP, YAML, the parsing of flags and signals, since they are I/O. A
-- cancelled context is one of the errors that a call may return.
pub mod Prelude
pub mod Strings
pub mod Regexp
pub mod Identity
pub mod Authz
pub mod Verifier
pub mod Metrics
pub mod Callout
pub mod K8sAuth
pub mod Config
pub mod Service
pub mod AwsAuth
pub mod MockOidc
pub mod TestClient
pub mod Examples
