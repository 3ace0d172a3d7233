-- ===== src/Verifier/KeySet.antt =====
-- internal/verifier/keyset.go: the cached keys of an issuer and the throttled refresh. go-jose and
-- the HTTP client are parameters. A lock-protected block is one function on the state.
pub mod Throttle
pub mod Signatures
pub mod Requests
use nats_oidc_callout.Prelude.{
  ℕ, ◌+◌, ◌^◌, Bool, true, false, not, ◌&&◌, ◌||◌, Option, none, some, List, [], ◌∷◌, Result, ok,
  err, if◌then◌else◌, is_empty, ltb, ◌==◌, take,
}
use nats_oidc_callout.Prelude.Texts.{Text, text_eq}
use nats_oidc_callout.Prelude.Int.{ℤ, is_positive, pos_part}

-- `jose.JSONWebKey`: its id and its material
pub record Jwk : Type 0 where
  pub key_id : Text
  pub material : Text

-- `jose.JSONWebSignature`: the token and the key id in the header of each signature
pub record Jws : Type 0 where
  pub token : Text
  pub key_ids : List Text

pub record Jose : Type 0 where
  pub parse_signed : Text → List Text → Option Jws
  pub verify : Jws → Jwk → Option Text

-- The parts of `http.Client` that are set: its timeout, and the root certificates of its transport,
-- none for the default transport.
pub record Client : Type 0 where
  pub timeout : ℤ
  pub root_cas : Option Text

-- The state of a `keySet`; `last_fetch` is none for the zero time, and `inflight` holds while
-- `k.inflight` is not nil. Times and the interval are in nanoseconds.
pub record KeySet : Type 0 where
  pub jwks_url : Text
  pub client : Client
  pub algs : List Text
  pub interval : ℕ
  pub keys : List Jwk
  pub last_fetch : Option ℕ
  pub inflight : Bool

-- 30 s
abbrev pub default_jwks_refresh_interval : ℕ
default_jwks_refresh_interval = 30_000_000_000

-- `newKeySet`
unfoldable pub new_key_set : Text → Client → List Text → ℤ → KeySet
new_key_set jwks_url client algs interval = record {
  jwks_url = jwks_url;
  client = client;
  algs = algs;
  interval = if is_positive interval then pos_part interval else default_jwks_refresh_interval;
  keys = [];
  last_fetch = none;
  inflight = false;
}

-- `verifyWith`: the first key with the id, or any key for an empty id, that verifies.
unfoldable pub verify_with : Jose → Jws → Text → List Jwk → Option Text
verify_with jose jws kid [] = none
verify_with jose jws kid (key ∷ keys) =
    let later = verify_with jose jws kid keys in
    if not (is_empty kid) && not (text_eq key.key_id kid)
    then later
    else elim (jose.verify jws key) [ some payload ↦ some payload | none ↦ later ]

-- What the locked part of `refresh` decides.
pub data Start : Type 0 where
  throttled joined started : Start

-- `!k.lastFetch.IsZero() && time.Since(k.lastFetch) < k.interval`
abbrev pub too_early : ℕ → ℕ → Option ℕ → Bool
too_early now interval none = false
too_early now interval (some last) = ltb now (last + interval)

-- The locked part of `refresh` at the time `now`, with the start of a fetch. The two readings of the
-- clock are one.
unfoldable pub start_refresh : ℕ → KeySet → KeySet × Start
start_refresh now k =
    if k.inflight && not (is_empty k.keys)
    then (k, throttled)
    else if not k.inflight && too_early now k.interval k.last_fetch
    then (k, throttled)
    else if not k.inflight
    then (record k { inflight = true; last_fetch = some now }, started)
    else (k, joined)

-- The end of the fetching goroutine: a failed fetch, none, keeps the keys.
unfoldable pub finish_refresh : Option (List Jwk) → KeySet → KeySet
finish_refresh none k = record k { inflight = false }
finish_refresh (some keys) k = record k { keys = keys; inflight = false }

-- 1 MiB
abbrev pub max_jwks_size : ℕ
max_jwks_size = 2 ^ 20

-- `fetch`: the request's outcome is a status and a body, or none if it failed; the decoder reads a
-- JSON key set.
unfoldable pub fetch : (Text → Option (List Jwk)) → Option (ℕ × Text) → Option (List Jwk)
fetch decode none = none
fetch decode (some (status, body)) =
    if status == 200 then decode (take max_jwks_size body) else none

pub data SignatureError : Type 0 where
  malformed_jwt several_signatures refresh_throttled fetch_failed timed_out not_verified :
      SignatureError

-- The second attempt of `VerifySignature`, on the keys after the refresh.
unfoldable pub retry :
    Jose → Jws → Text → Result SignatureError (Unit {0}) → List Jwk → Result SignatureError Text
retry jose jws kid (err e) keys = err e
retry jose jws kid (ok _) keys = elim (verify_with jose jws kid keys) [
  | none ↦ err not_verified
  | some payload ↦ ok payload
]

-- `VerifySignature` on the key ids of the parsed token: `keys` are those before the refresh,
-- `refreshed` is the refresh's outcome and `keys'` are those after it.
unfoldable pub verify_parsed :
    Jose
    → Jws
    → List Text
    → List Jwk
    → Result SignatureError (Unit {0})
    → List Jwk
    → Result SignatureError Text
verify_parsed jose jws (kid ∷ []) keys refreshed keys' = elim (verify_with jose jws kid keys) [
  | some payload ↦ ok payload
  | none ↦ retry jose jws kid refreshed keys'
]
verify_parsed jose jws _ keys refreshed keys' = err several_signatures

unfoldable pub verify_signature :
    Jose
    → List Text
    → Text
    → List Jwk
    → Result SignatureError (Unit {0})
    → List Jwk
    → Result SignatureError Text
verify_signature jose algs raw keys refreshed keys' = elim (jose.parse_signed raw algs) [
  | none ↦ err malformed_jwt
  | some jws ↦ verify_parsed jose jws jws.key_ids keys refreshed keys'
]
