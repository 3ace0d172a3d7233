-- ===== src/AwsAuth/Tokens.antt =====
-- The operations of `TokenSource` in lib/awsauth/awsauth.go. What an operation does to the world, a
-- write of the cache or the start of a background refresh, is in its outcome, to be carried out later.
pub mod Isolation
pub mod Encoding
pub mod Origin
pub mod Reuse
pub mod Refreshing
use nats_oidc_callout.Prelude.{
  ℕ, ◌+◌, ◌-◌, ◌*◌, Bool, true, false, not, ◌&&◌, Option, none, some, List, [], ◌∷◌, Result, ok,
  err, if◌then◌else◌, is_empty, ltb,
}
use nats_oidc_callout.Prelude.Texts.{Text}
use nats_oidc_callout.Prelude.Int.{ℤ, pos, negsuc, is_positive, pos_part}
use nats_oidc_callout.AwsAuth.{
  TokenSource, TokenError, no_credentials_provider, credentials_not_retrieved, Sts, mint, second,
  default_fetch_timeout,
}
use nats_oidc_callout.AwsAuth.Cache.{Formats, read_cache, fingerprint}

-- `pinCredentials`: the access key id that signs the call. `retrieved` is the provider's answer, the
-- access key id of its credentials.
unfoldable pub pin_credentials : TokenSource → Option Text → Result TokenError Text
pin_credentials ts retrieved =
    if not ts.has_credentials
    then err no_credentials_provider
    else elim retrieved [ none ↦ err credentials_not_retrieved | some key ↦ ok key ]

-- A token and the access key id whose fingerprint the cache entry is bound to.
pub record Write : Type 0 where
  pub token : Text
  pub key : Text

-- The result of `Token`; the call of STS that it makes, if any, with the key that pins it; the write
-- of the cache and the start of a background refresh that it asks for.
pub record Outcome : Type 0 where
  pub result : Result TokenError Text
  pub called : Option (Option Text)
  pub write : Option Write
  pub refresh : Bool

-- `time.Until(exp) < ts.cacheRefreshBefore`, for an expiry after `now`
abbrev pub expires_soon : ℕ → ℤ → ℤ → Bool
expires_soon now (pos exp) margin = ltb (exp * second) (now + pos_part margin)
expires_soon now (negsuc _) margin = true

-- The synchronous call of STS in `Token`; with a pinned key the cache is written.
unfoldable pub minted : Option Text → Result TokenError Text → Outcome
minted key (err e) = record { result = err e; called = some key; write = none; refresh = false }
minted none (ok tok) = record { result = ok tok; called = some none; write = none; refresh = false }
minted (some key) (ok tok) = record {
  result = ok tok;
  called = some (some key);
  write = some (record { token = tok; key = key });
  refresh = false;
}

-- The key that pins the call of STS and the cache, none if the cache is not used.
unfoldable pub cache_key : TokenSource → Option Text → Option Text
cache_key ts retrieved =
    if is_empty ts.cache_path
    then none
    else elim (pin_credentials ts retrieved) [ err _ ↦ none | ok key ↦ some key ]

abbrev pub from_cache : ℕ → TokenSource → Text × ℤ → Outcome
from_cache now ts (tok, exp) = record {
  result = ok tok;
  called = none;
  write = none;
  refresh = expires_soon now exp ts.cache_refresh_before;
}

-- The part of `Token` behind the pinning.
unfoldable pub with_key : Formats → Sts → ℕ → TokenSource → Option Text → Option Text → Outcome
with_key formats sts now ts file none = minted none (mint sts ts none)
with_key formats sts now ts file (some key) =
    elim (read_cache formats now ts.audience (fingerprint formats key) file) [
      | some found ↦ from_cache now ts found
      | none ↦ minted (some key) (mint sts ts (some key))
    ]

-- `Token` at the time `now`, with the provider's answer and the cache file's contents. The two
-- readings of the clock are one.
unfoldable pub token : Formats → Sts → ℕ → TokenSource → Option Text → Option Text → Outcome
token formats sts now ts retrieved file = with_key formats sts now ts file (cache_key ts retrieved)

-- The locked part of `refreshAsync`: is a goroutine started?
unfoldable pub begin_refresh : TokenSource → TokenSource × Bool
begin_refresh ts = if ts.refreshing then (ts, false) else (record ts { refreshing = true }, true)

-- `setLastError`
abbrev pub set_last_error : Option TokenError → TokenSource → TokenSource
set_last_error e ts = record ts { last_err = e }

-- `LastError`
abbrev pub last_error : TokenSource → Option TokenError
last_error ts = ts.last_err

-- What the goroutine of `refreshAsync` does: the last error that it sets, its call of STS and its
-- write of the cache.
pub record Refreshed : Type 0 where
  pub last_err : Option TokenError
  pub called : Option (Option Text)
  pub write : Option Write

unfoldable pub after_mint : Text → Result TokenError Text → Refreshed
after_mint key (err e) = record { last_err = some e; called = some (some key); write = none }
after_mint key (ok tok) = record {
  last_err = none;
  called = some (some key);
  write = some (record { token = tok; key = key });
}

-- The goroutine of `refreshAsync`, which resolves the credentials afresh.
unfoldable pub refresh : Sts → TokenSource → Option Text → Refreshed
refresh sts ts retrieved = elim (pin_credentials ts retrieved) [
  | err e ↦ record { last_err = some e; called = none; write = none }
  | ok key ↦ after_mint key (mint sts ts (some key))
]

-- The deferred end of the goroutine.
abbrev pub end_refresh : TokenSource → TokenSource
end_refresh ts = record ts { refreshing = false }

-- The timeout of `NATSOption`
unfoldable pub fetch_timeout : ℤ → ℤ
fetch_timeout timeout = if is_positive timeout then timeout else default_fetch_timeout

-- The handler of `NATSOption`: the last error that it sets and the token that it hands over.
unfoldable pub handled : Result TokenError Text → Option TokenError × Text
handled (ok tok) = (none, tok)
handled (err e) = (some e, [])
