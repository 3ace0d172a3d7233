-- ===== src/AwsAuth.antt =====
-- lib/awsauth/awsauth.go: the client's source of AWS web identity tokens. This file holds its
-- configuration and the call of STS; `Cache` the file that caches a token, `Tokens` the operations.
-- The AWS SDK is a parameter.
pub mod Settings
pub mod Cache
pub mod Tokens
use nats_oidc_callout.Prelude.{
  ℕ, ◌+◌, ◌*◌, Bool, true, false, not, ◌||◌, Option, none, some, List, [], ◌∷◌, Result, ok, err,
  ◌>>=◌, ◌>>◌, fail_if, if◌then◌else◌, is_empty, any, length, ltb,
}
use nats_oidc_callout.Prelude.Texts.{Text, codes, text_eq}
use nats_oidc_callout.Prelude.Int.{
  ℤ, pos, negsuc, is_zero, is_negative, int_ltb, quot, rem, to_int32,
}

-- `DefaultSigningAlgorithm`, and `supportedSigningAlgorithms`
abbrev pub default_signing_algorithm : Text
default_signing_algorithm = codes "RS256"

abbrev pub supported_signing_algorithms : List Text
supported_signing_algorithms = codes "RS256" ∷ codes "ES384" ∷ []

-- Durations in nanoseconds: 5 min, 10 s, 10 s, and the window of STS, 60 s to 3600 s.
abbrev pub default_duration : ℤ
default_duration = pos 300_000_000_000

abbrev pub default_fetch_timeout : ℤ
default_fetch_timeout = pos 10_000_000_000

abbrev pub default_cache_refresh_before : ℤ
default_cache_refresh_before = pos 10_000_000_000

abbrev pub min_duration : ℤ
min_duration = pos 60_000_000_000

abbrev pub max_duration : ℤ
max_duration = pos 3_600_000_000_000

abbrev pub max_audience_len : ℕ
max_audience_len = 1000

-- `time.Second`
abbrev pub second : ℕ
second = 1_000_000_000

-- `Config`
pub record Config : Type 0 where
  pub audience : Text
  pub signing_algorithm : Text
  pub duration : ℤ
  pub cache_path : Text
  pub cache_refresh_before : ℤ

pub data SettingsError : Type 0 where
  audience_required audience_too_long unsupported_algorithm : SettingsError
  duration_out_of_range duration_not_whole negative_refresh_before : SettingsError
  config_not_loaded region_required : SettingsError

unfoldable pub check_algorithm : Text → Result SettingsError (Unit {0})
check_algorithm alg =
    fail_if (not (is_empty alg || any (λ s. text_eq s alg) supported_signing_algorithms))
      unsupported_algorithm

unfoldable pub check_duration : ℤ → Result SettingsError (Unit {0})
check_duration d = if is_zero d then ok tt else do
  fail_if (int_ltb d min_duration || int_ltb max_duration d) duration_out_of_range
  fail_if (not (is_zero (rem d second))) duration_not_whole

-- `(Config).validate`
unfoldable pub validate : Config → Result SettingsError (Unit {0})
validate cfg = do
  fail_if (is_empty cfg.audience) audience_required
  fail_if (ltb max_audience_len (length cfg.audience)) audience_too_long
  check_algorithm cfg.signing_algorithm
  check_duration cfg.duration
  fail_if (is_negative cfg.cache_refresh_before) negative_refresh_before

-- What a token call or a refresh fails with.
pub data TokenError : Type 0 where
  no_credentials_provider credentials_not_retrieved sts_failed empty_token : TokenError

-- `TokenSource`; the STS client is a parameter of the operations. `has_credentials` holds when
-- `credentials` is not nil, and `refreshing` while a background refresh is in flight.
pub record TokenSource : Type 0 where
  pub audience : Text
  pub signing_algorithm : Text
  pub duration : ℤ
  pub cache_path : Text
  pub cache_refresh_before : ℤ
  pub has_credentials : Bool
  pub last_err : Option TokenError
  pub refreshing : Bool

-- The source that `newWithClient` builds, with its defaults.
unfoldable pub built : Config → TokenSource
built cfg = record {
  audience = cfg.audience;
  signing_algorithm =
      if is_empty cfg.signing_algorithm then default_signing_algorithm else cfg.signing_algorithm;
  duration = if is_zero cfg.duration then default_duration else cfg.duration;
  cache_path = cfg.cache_path;
  cache_refresh_before =
      if is_zero cfg.cache_refresh_before
      then default_cache_refresh_before
      else cfg.cache_refresh_before;
  has_credentials = false;
  last_err = none;
  refreshing = false;
}

-- `newWithClient`
unfoldable pub new_with_client : Config → Result SettingsError TokenSource
new_with_client cfg = do validate cfg; ok (built cfg)

-- The parts of `aws.Config` that are read: the region, and whether the client that is built from it
-- has a credentials provider.
pub record AwsConfig : Type 0 where
  pub region : Text
  pub has_credentials : Bool

-- `NewFromAWSConfig`
unfoldable pub new_from_aws_config : AwsConfig → Config → Result SettingsError TokenSource
new_from_aws_config aws cfg = do
  validate cfg
  fail_if (is_empty aws.region) region_required
  ts ← new_with_client cfg
  ok (record ts { has_credentials = aws.has_credentials })

-- `New`; `loaded` is the default AWS configuration, none if it cannot be loaded.
unfoldable pub new : Option AwsConfig → Config → Result SettingsError TokenSource
new loaded cfg = do
  validate cfg
  elim loaded [ none ↦ err config_not_loaded | some aws ↦ new_from_aws_config aws cfg ]

-- `sts.GetWebIdentityTokenInput`
pub record StsInput : Type 0 where
  pub audience : List Text
  pub signing_algorithm : Text
  pub duration_seconds : ℤ

-- `GetWebIdentityToken`, signed with the credentials of an access key id, or with the client's own for
-- none: the outer none is an error, the inner one an output with no token.
abbrev pub Sts : Type 0
Sts = Option Text → StsInput → Option (Option Text)

unfoldable pub sts_input : TokenSource → StsInput
sts_input ts = record {
  audience = ts.audience ∷ [];
  signing_algorithm = ts.signing_algorithm;
  duration_seconds = to_int32 (quot ts.duration second);
}

abbrev pub token_of : Option (Option Text) → Result TokenError Text
token_of none = err sts_failed
token_of (some none) = err empty_token
token_of (some (some tok)) = if is_empty tok then err empty_token else ok tok

-- `mint`
unfoldable pub mint : Sts → TokenSource → Option Text → Result TokenError Text
mint sts ts key = token_of (sts key (sts_input ts))
