-- ===== src/Examples/AwsTokens.antt =====
-- Web identity tokens of AWS: a source, its cache file and the processes that share it.
use nats_oidc_callout.AwsAuth.Cache.{remove_temp}
use nats_oidc_callout.AwsAuth.Cache.{
  fill_temp, hex, of_parts, parse_audience, read_entry, unverified_expiry_audience, usable,
  write_text,
}
use nats_oidc_callout.Strings.{split, trim_space}
use nats_oidc_callout.AwsAuth.Tokens.{minted, pin_credentials, with_key}
use AwsAuth.{
  built, check_algorithm, check_duration, mint, new, new_from_aws_config, new_with_client, validate,
}
use nats_oidc_callout.Prelude.{
  ◌≡◌, refl, true, false, ◌&&◌, Option, none, some, [], ◌∷◌, ok, ◌↔◌, ◌⊎◌, if◌then◌else◌, arith, ap,
  sym,
}
use nats_oidc_callout.Prelude.Texts.{Text, codes, text_eq, text_eq_iff}
use nats_oidc_callout.Prelude.Int.{pos}
use nats_oidc_callout.AwsAuth.Tokens.Refreshing
use nats_oidc_callout.AwsAuth.Tokens.Refreshing.{started, Reach-single}
use nats_oidc_callout.AwsAuth.Tokens.{begin_refresh}
use nats_oidc_callout.Prelude.{◌+◌, ◌≤◌, ◌<◌, ◌%◌, map, All}
use nats_oidc_callout.AwsAuth
use nats_oidc_callout.AwsAuth.{Config, AwsConfig, TokenSource, Sts, sts_input}
use nats_oidc_callout.AwsAuth.Settings.{IsWithinLimits, new-IsWithinLimits}
use nats_oidc_callout.AwsAuth.Cache.{
  CacheEntry, Formats, Disk, FileOps, entry_of, read_cache, write_cache, fingerprint,
}
use nats_oidc_callout.AwsAuth.Cache.Files.{write_cache_atomic}
use nats_oidc_callout.AwsAuth.Tokens.{Write, cache_key, token}
use nats_oidc_callout.AwsAuth.Tokens.Isolation.{World, Reach, here, next, calls, writes}
use nats_oidc_callout.AwsAuth.Tokens.Encoding.{JsonLaw, HashLaw, IsAscii, all-IsAscii}
use nats_oidc_callout.AwsAuth.Tokens.Origin.{IsIssued, IsCached, token_origin}
use nats_oidc_callout.AwsAuth.Tokens.Reuse.{IsCacheable, IsReused, token_reuse}

abbrev settings : Config
settings = record {
  audience = codes "nats";
  signing_algorithm = [];
  duration = pos 60_000_000_000;
  cache_path = codes "/c";
  cache_refresh_before = pos 0;
}

abbrev aws : AwsConfig
aws = record { region = codes "eu-west-3"; has_credentials = true }

abbrev source : TokenSource
source = record {
  audience = codes "nats";
  signing_algorithm = codes "RS256";
  duration = pos 60_000_000_000;
  cache_path = codes "/c";
  cache_refresh_before = pos 10_000_000_000;
  has_credentials = true;
  last_err = none;
  refreshing = false;
}

source_built : AwsAuth.new (some aws) settings ≡ ok source
unfolding new validate check_algorithm check_duration new_from_aws_config new_with_client built
source_built = refl

new-IsWithinLimits_example : IsWithinLimits settings source
new-IsWithinLimits_example = new-IsWithinLimits (some aws) settings source source_built

abbrev key : Text
key = codes "AK"

abbrev raw_token : Text
raw_token = codes "h.p.s"

-- The one entry that the format below encodes; its credential is the hexadecimal form of the key.
abbrev entry : CacheEntry
entry = entry_of raw_token (codes "414b")

abbrev is_entry : CacheEntry → Option Text
is_entry e =
    if text_eq e.version entry.version
      && (text_eq e.credential entry.credential && text_eq e.token entry.token)
    then some (codes "E")
    else none

abbrev formats : Formats
formats = record {
  sha256 = λ t. map (λ b. b % 256) t;
  marshal = is_entry;
  unmarshal = λ contents. some entry;
  base64 = λ s. some s;
  claims = λ payload. some (record { exp = pos 100; aud = codes "nats" });
  as_string = λ raw. some raw;
  as_strings = λ raw. none;
}

json_law : JsonLaw formats
json_law e text version_ascii credential_ascii token_ascii h =
    let version = (text_eq_iff e.version entry.version).0 (ground arith) in
    let credential = (text_eq_iff e.credential entry.credential).0 (ground arith) in
    let same = (text_eq_iff e.token entry.token).0 (ground arith) in
    ap some
      (λ i. record { version = sym version i; credential = sym credential i; token = sym same i })

bytes_only : (t : Text) → All (λ b. b < 256) (map (λ b. b % 256) t)
bytes_only [] = tt
bytes_only (b ∷ t) = (omega arith, bytes_only t)

hash_law : HashLaw formats
hash_law key = bytes_only key

raw_token-IsAscii : IsAscii raw_token
raw_token-IsAscii = all-IsAscii raw_token refl

abbrev sts : Sts
sts signer input = some (some raw_token)

-- An STS that fails.
abbrev down : Sts
down signer input = none

abbrev fine : FileOps
fine = record {
  mkdir = true;
  create_temp = true;
  chmod = true;
  write = true;
  partial = [];
  close = true;
  rename = true;
  remove = true;
}

abbrev write : Write
write = record { token = raw_token; key = key }

first_writes : (token formats sts 50 source (some key) none).write ≡ some write
unfolding token with_key cache_key pin_credentials read_cache minted mint
first_writes = refl

abbrev empty : Disk
empty = record { cached = none; temporary = none }

cacheable : IsCacheable formats (codes "nats") raw_token (pos 100)
unfolding trim_space unverified_expiry_audience of_parts split parse_audience text_eq
cacheable = record {
  auds = codes "nats" ∷ [];
  ascii = raw_token-IsAscii;
  trimmed = refl;
  nonempty = λ h. cc;
  claims = refl;
  audience_named = refl;
}

entry_encoded : formats.marshal (entry_of raw_token (fingerprint formats key)) ≡ some (codes "E")
unfolding text_eq fingerprint hex
entry_encoded = refl

token_reuse_example : IsReused 60 source raw_token (pos 100) (
    token formats down 60 source
      (some key)
      (write_cache formats fine raw_token (fingerprint formats key) empty).cached)
token_reuse_example =
    token_reuse formats fine sts down 50 60 source (some key) empty write (codes "E") (pos 100)
      json_law hash_law first_writes (refl, refl, refl, refl, refl, refl) entry_encoded cacheable
      refl

write_cache_atomic_example :
    (((write_cache formats fine raw_token (codes "414b") empty).temporary ≡ none)
      ⊎ (fine.remove ≡ false))
    × (((write_cache formats fine raw_token (codes "414b") empty).cached ≡ none)
        ⊎ ((write_cache formats fine raw_token (codes "414b") empty).cached
            ≡ formats.marshal (entry_of raw_token (codes "414b"))))
write_cache_atomic_example = write_cache_atomic formats fine raw_token (codes "414b") empty refl

-- One process minted the token, and its write of the cache is done.
abbrev shared : World
shared = record { file = some (codes "E"); pending = write ∷ []; log = write ∷ [] }

shared_reached : Reach formats shared
unfolding token with_key cache_key pin_credentials read_cache minted mint write_cache write_text
    text_eq fingerprint hex fill_temp remove_temp
shared_reached = next (next here (calls sts 50 source (some key))) (writes fine [] write [] refl)

second_hits : (token formats down 60 source (some key) shared.file).result ≡ ok raw_token
unfolding token with_key cache_key pin_credentials read_cache read_entry text_eq fingerprint hex
    trim_space unverified_expiry_audience of_parts split usable parse_audience
second_hits = refl

token_origin_example :
    IsIssued down source
      (token formats down 60 source (some key) (some (codes "E")))
      (cache_key source (some key))
      raw_token
    ⊎ ((k : Text) × (cache_key source (some key) ≡ some k)
        × IsCached formats 60
            (write ∷ [])
            source.audience
            (token formats down 60 source (some key) (some (codes "E")))
            k
            raw_token)
token_origin_example =
    token_origin formats json_law hash_law shared down 60 source (some key) raw_token shared_reached
      (raw_token-IsAscii, tt) second_hits

-- Two calls ask for a refresh, one behind the other.
abbrev asked : Refreshing.World
asked = record { source = (begin_refresh source).0; running = started (begin_refresh source).1 + 0 }

abbrev asked_again : Refreshing.World
asked_again = record {
  source = (begin_refresh asked.source).0;
  running = started (begin_refresh asked.source).1 + asked.running;
}

asked_again_reached : Refreshing.Reach source asked_again
asked_again_reached =
    let once : Refreshing.Reach source asked = Refreshing.next Refreshing.here Refreshing.asks in
    Refreshing.next once Refreshing.asks

Reach-single_example :
    (asked_again.running ≤ 1)
    × (((begin_refresh asked_again.source).1 ≡ true) ↔ (asked_again.running ≡ 0))
Reach-single_example = Reach-single source asked_again refl asked_again_reached
