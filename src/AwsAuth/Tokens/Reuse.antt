-- ===== src/AwsAuth/Tokens/Reuse.antt =====
-- When a cached token is used again.
use nats_oidc_callout.Prelude.{
  ℕ, ◌≡◌, ◌≢◌, refl, ap, true, Option, none, some, List, [], arith, inl, inr, Result, ok, err,
  Option-cases, any, ◌↔◌, ◌*◌, ◌+◌, ◌<◌,
}
use nats_oidc_callout.Prelude.Texts.{Text, text_eq}
use nats_oidc_callout.Prelude.Int.{ℤ, pos, negsuc, pos_part}
use nats_oidc_callout.Strings.{trim_space}
use nats_oidc_callout.AwsAuth.{TokenSource, Sts, mint}
use nats_oidc_callout.AwsAuth.Cache.{
  Formats, FileOps, Disk, fingerprint, entry_of, read_cache, before, unverified_expiry_audience,
  write_cache, write_text, fill_temp, remove_temp,
}
use nats_oidc_callout.AwsAuth.Cache.Files.{read_cache_iff}
use nats_oidc_callout.AwsAuth.Tokens.{
  Write, Outcome, token, with_key, minted, cache_key, from_cache,
}
use nats_oidc_callout.AwsAuth.Tokens.Encoding.{JsonLaw, HashLaw, IsAscii, entry_law}
use nats_oidc_callout.AwsAuth.Tokens.Origin.{with_key_hit}

-- Every file operation of a write succeeds, up to the rename.
abbrev pub AllSucceed : FileOps → Type 0
AllSucceed ops =
    (ops.mkdir ≡ true)
    × (ops.create_temp ≡ true)
    × (ops.chmod ≡ true)
    × (ops.write ≡ true)
    × (ops.close ≡ true)
    × (ops.rename ≡ true)

-- The token is one that the cache can hold: it has no white space at its ends, and names an expiry
-- and the audience.
pub record IsCacheable (formats : Formats) (audience tok : Text) (exp : ℤ) : Type 0 where
  pub auds : List Text
  pub ascii : IsAscii tok
  pub trimmed : trim_space tok ≡ tok
  pub nonempty : tok ≢ []
  pub claims : unverified_expiry_audience formats tok ≡ some (exp, auds)
  pub audience_named : any (λ a. text_eq a audience) auds ≡ true

written :
    (formats : Formats) (ops : FileOps) (tok cred_id text : Text) (disk : Disk)
    → AllSucceed ops
    → formats.marshal (entry_of tok cred_id) ≡ some text
    → (write_cache formats ops tok cred_id disk).cached ≡ some text
unfolding write_cache write_text fill_temp remove_temp
written formats ops tok cred_id text disk (mkdir, create, chmod, write, close, rename) e =
    rw e (rw (mkdir, create, chmod, write, close, rename) (ground arith))

-- What is written is read back by the same principal for the same audience, until it expires.
pub write_cache-read_cache :
    (formats : Formats) (ops : FileOps) (now : ℕ) (audience tok key text : Text) (exp : ℤ)
    (disk : Disk)
    → JsonLaw formats
    → HashLaw formats
    → AllSucceed ops
    → formats.marshal (entry_of tok (fingerprint formats key)) ≡ some text
    → IsCacheable formats audience tok exp
    → before now exp ≡ true
    → read_cache formats now audience
        (fingerprint formats key)
        (write_cache formats ops tok (fingerprint formats key) disk).cached
      ≡ some (tok, exp)
write_cache-read_cache formats ops now audience tok key text exp disk law hash done e c alive =
    rw (written formats ops tok (fingerprint formats key) text disk done e) (
      (read_cache_iff formats now audience (fingerprint formats key) text tok exp).1 (record {
        entry = entry_of tok (fingerprint formats key);
        auds = c.auds;
        decoded = entry_law formats tok key text law hash c.ascii e;
        version = refl;
        bound = refl;
        trimmed = c.trimmed;
        nonempty = c.nonempty;
        claims = c.claims;
        alive = alive;
        audience_named = c.audience_named;
      }))

key_of : Option Write → Option Text
key_of none = none
key_of (some x) = some x.key

minted-key :
    (key : Option Text) (r : Result _ Text) (x : Write)
    → (minted key r).write ≡ some x
    → key ≡ some x.key
unfolding minted key_of
minted-key none (ok tok) x h = cc
minted-key none (err e) x h = cc
minted-key (some key) (ok tok) x h = ap key_of h
minted-key (some key) (err e) x h = cc

with_key-key :
    (formats : Formats) (sts : Sts) (now : ℕ) (ts : TokenSource) (file key : Option Text)
    (x : Write)
    → (with_key formats sts now ts file key).write ≡ some x
    → key ≡ some x.key
unfolding with_key
with_key-key formats sts now ts file none x h = minted-key none (mint sts ts none) x h
with_key-key formats sts now ts file (some key) x h =
    elim (Option-cases (read_cache formats now ts.audience (fingerprint formats key) file)) [
      | inl e ↦ minted-key (some key) (mint sts ts (some key)) x (rw (e, with_key) at h)
      | inr (found, e) ↦ absurd (ground arith)
    ]

-- The token is about to expire: less than the margin is left, a margin below 0 counted as 0.
abbrev pub IsNearExpiry : ℕ → ℤ → ℤ → Type 0
IsNearExpiry now (pos exp) margin = exp * 1_000_000_000 < now + pos_part margin
IsNearExpiry now (negsuc _) margin = Unit

from_cache-refresh_iff :
    (now : ℕ) (ts : TokenSource) (tok : Text) (exp : ℤ)
    → ((from_cache now ts (tok, exp)).refresh ≡ true) ↔ IsNearExpiry now exp ts.cache_refresh_before
from_cache-refresh_iff now ts tok (pos n) = (λ h. ground arith, λ h. ground arith)
from_cache-refresh_iff now ts tok (negsuc n) = (λ _. tt, λ _. refl)

-- What a later call does: the token again, without STS or a write.
pub record IsReused (now : ℕ) (ts : TokenSource) (tok : Text) (exp : ℤ) (o : Outcome) : Type 0 where
  pub result : o.result ≡ ok tok
  pub not_called : o.called ≡ none
  pub no_write : o.write ≡ none
  pub refreshes : (o.refresh ≡ true) ↔ IsNearExpiry now exp ts.cache_refresh_before

from_cache-IsReused :
    (now : ℕ) (ts : TokenSource) (tok : Text) (exp : ℤ)
    → IsReused now ts tok exp (from_cache now ts (tok, exp))
from_cache-IsReused now ts tok exp = record {
  result = refl;
  not_called = refl;
  no_write = refl;
  refreshes = from_cache-refresh_iff now ts tok exp;
}

-- Two calls, one mint, with JSON and SHA-256 as documented: when a call mints a cacheable token, one in
-- ASCII that names an expiry and the audience, and the write that it asks for succeeds, every later
-- call of that source with the same credentials on that file returns this token until it expires,
-- whatever STS would answer: it does not call STS, writes nothing, and asks for a background refresh
-- exactly when less of the token's life is left than the configured margin.
pub token_reuse :
    (formats : Formats) (ops : FileOps) (sts sts' : Sts) (now later : ℕ) (ts : TokenSource)
    (retrieved : Option Text) (disk : Disk) (x : Write) (text : Text) (exp : ℤ)
    → JsonLaw formats
    → HashLaw formats
    → (token formats sts now ts retrieved disk.cached).write ≡ some x
    → AllSucceed ops
    → formats.marshal (entry_of x.token (fingerprint formats x.key)) ≡ some text
    → IsCacheable formats ts.audience x.token exp
    → before later exp ≡ true
    → IsReused later ts x.token exp (
        token formats sts' later ts retrieved
          (write_cache formats ops x.token (fingerprint formats x.key) disk).cached)
unfolding token
token_reuse formats ops sts sts' now later ts retrieved disk x text exp law hash h done e c alive =
    let key = with_key-key formats sts now ts disk.cached (cache_key ts retrieved) x h in
    let found =
      write_cache-read_cache formats ops later ts.audience x.token x.key text exp disk law hash done
        e c alive in
    rw key (
      rw (with_key_hit formats sts' later ts _ x.key (x.token, exp) found)
        (from_cache-IsReused later ts x.token exp))
