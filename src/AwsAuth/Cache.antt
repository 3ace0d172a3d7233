-- ===== src/AwsAuth/Cache.antt =====
-- The cache file of lib/awsauth/awsauth.go: its format, its reading and its atomic writing. Hashing,
-- base64, JSON and the file system are parameters.
pub mod Files
use nats_oidc_callout.Prelude.{
  ℕ, ◌+◌, ◌-◌, ◌*◌, ◌/◌, ◌%◌, Bool, true, false, not, ◌&&◌, ◌||◌, Option, none, some, List, [], ◌∷◌,
  ◌++◌, Result, ok, err, ◌>>=◌, ◌>>◌, fail_if, if◌then◌else◌, is_empty, any, take, ltb,
}
use nats_oidc_callout.Prelude.Texts.{Text, codes, text_eq}
use nats_oidc_callout.Prelude.Int.{ℤ, pos, negsuc, is_zero}
use nats_oidc_callout.Strings.{split, trim_space}
use nats_oidc_callout.AwsAuth.{TokenSource, second}

-- `cacheVersion`
abbrev pub cache_version : Text
cache_version = codes "awsauth.cache.v2"

-- `cacheEntry`
pub record CacheEntry : Type 0 where
  pub version : Text
  pub credential : Text
  pub token : Text

-- The claims of a token that are read: "exp" in seconds since the epoch, 0 if it is not there, and
-- the raw "aud", empty if it is not there.
pub record TokenClaims : Type 0 where
  pub exp : ℤ
  pub aud : Text

pub record Formats : Type 0 where
  pub sha256 : Text → List ℕ
  pub marshal : CacheEntry → Option Text
  pub unmarshal : Text → Option CacheEntry
  pub base64 : Text → Option Text
  pub claims : Text → Option TokenClaims
  pub as_string : Text → Option Text
  pub as_strings : Text → Option (List Text)

abbrev hex_digit : ℕ → ℕ
hex_digit d = if ltb d 10 then 48 + d else 87 + d

-- `hex.EncodeToString`
unfoldable pub hex : List ℕ → Text
hex [] = []
hex (b ∷ bytes) = hex_digit (b / 16) ∷ hex_digit (b % 16) ∷ hex bytes

-- The fingerprint of an access key id.
unfoldable pub fingerprint : Formats → Text → Text
fingerprint formats key = hex (take 16 (formats.sha256 key))

-- `parseAudience`
unfoldable pub parse_audience : Formats → Text → List Text
parse_audience formats [] = []
parse_audience formats raw = elim (formats.as_string raw) [
  | some one ↦ one ∷ []
  | none ↦ elim (formats.as_strings raw) [ some many ↦ many | none ↦ [] ]
]

abbrev audiences_of : Formats → TokenClaims → Option (ℤ × List Text)
audiences_of formats claims =
    if is_zero claims.exp then none else some (claims.exp, parse_audience formats claims.aud)

-- `unverifiedExpiryAudience` on the parts of the token: the expiry, in seconds, and the audiences.
unfoldable pub of_parts : Formats → List Text → Option (ℤ × List Text)
of_parts formats (header ∷ payload ∷ signature ∷ []) = elim (formats.base64 payload) [
  | none ↦ none
  | some decoded ↦ elim (formats.claims decoded) [
    | none ↦ none
    | some claims ↦ audiences_of formats claims
  ]
]
of_parts formats _ = none

unfoldable pub unverified_expiry_audience : Formats → Text → Option (ℤ × List Text)
unverified_expiry_audience formats token = of_parts formats (split b'.' token)

-- The first second that `time.Time` does not hold: 2 ^ 63 less the seconds from year 1 to the epoch.
-- A later one wraps around to a time long past.
abbrev pub max_unix : ℕ
max_unix = 9_223_371_974_719_179_008

-- `time.Now().Before(exp)` at the time `now`, in nanoseconds, for an expiry in seconds
abbrev pub before : ℕ → ℤ → Bool
before now (pos exp) = ltb exp max_unix && ltb now (exp * second)
before now (negsuc _) = false

-- The last two tests of `readCache`.
unfoldable pub usable : ℕ → Text → Text → ℤ × List Text → Option (Text × ℤ)
usable now audience tok (exp, auds) =
    if not (before now exp)
    then none
    else if not (any (λ a. text_eq a audience) auds)
    then none
    else some (tok, exp)

abbrev pub judge : Formats → ℕ → Text → Text → Option (Text × ℤ)
judge formats now audience tok = elim (unverified_expiry_audience formats tok) [
  | none ↦ none
  | some claims ↦ usable now audience tok claims
]

-- `readCache` on the decoded entry
unfoldable pub read_entry : Formats → ℕ → Text → Text → CacheEntry → Option (Text × ℤ)
read_entry formats now audience cred_id entry =
    if not (text_eq entry.version cache_version) || not (text_eq entry.credential cred_id)
    then none
    else if is_empty (trim_space entry.token)
    then none
    else judge formats now audience (trim_space entry.token)

-- `readCache` on the file's contents, none if it cannot be read
unfoldable pub read_cache : Formats → ℕ → Text → Text → Option Text → Option (Text × ℤ)
read_cache formats now audience cred_id none = none
read_cache formats now audience cred_id (some contents) = elim (formats.unmarshal contents) [
  | none ↦ none
  | some entry ↦ read_entry formats now audience cred_id entry
]

-- The entry that `writeCache` stores.
abbrev pub entry_of : Text → Text → CacheEntry
entry_of tok cred_id = record { version = cache_version; credential = cred_id; token = tok }

-- The cache file and the temporary file beside it.
pub record Disk : Type 0 where
  pub cached : Option Text
  pub temporary : Option Text

-- How the file operations of one write go: each succeeds or fails, and a failing write may leave
-- any contents.
pub record FileOps : Type 0 where
  pub mkdir : Bool
  pub create_temp : Bool
  pub chmod : Bool
  pub write : Bool
  pub partial : Text
  pub close : Bool
  pub rename : Bool
  pub remove : Bool

-- The part of `writeCache` behind the creation of the temporary file.
unfoldable pub fill_temp : FileOps → Text → Disk → Disk
fill_temp ops text disk =
    if not ops.chmod
    then disk
    else if not ops.write
    then record disk { temporary = some ops.partial }
    else if not ops.close || not ops.rename
    then record disk { temporary = some text }
    else record { cached = some text; temporary = none }

-- The deferred removal of the temporary file.
unfoldable pub remove_temp : FileOps → Disk → Disk
remove_temp ops disk = if ops.remove then record disk { temporary = none } else disk

-- `writeCache` with the marshalled entry
unfoldable pub write_text : FileOps → Option Text → Disk → Disk
write_text ops none disk = disk
write_text ops (some text) disk =
    if not ops.mkdir || not ops.create_temp
    then disk
    else remove_temp ops (fill_temp ops text (record disk { temporary = some [] }))

-- `writeCache`
unfoldable pub write_cache : Formats → FileOps → Text → Text → Disk → Disk
write_cache formats ops tok cred_id disk =
    write_text ops (formats.marshal (entry_of tok cred_id)) disk

-- The file's name in `DefaultCachePath`
abbrev pub default_cache_name : Formats → Text → Text
default_cache_name formats audience =
    codes "awsauth-" ++ (hex (take 8 (formats.sha256 audience)) ++ codes "-v2.jwt")

-- `DefaultCachePath`: the user's cache directory, none if there is none, and `filepath.Join`.
unfoldable pub default_cache_path : Formats → (List Text → Text) → Option Text → Text → Option Text
default_cache_path formats filepath_join none audience = none
default_cache_path formats filepath_join (some dir) audience =
    some
      (filepath_join (dir ∷ codes "nats-oidc-callout" ∷ default_cache_name formats audience ∷ []))
