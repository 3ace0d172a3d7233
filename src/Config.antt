-- ===== src/Config.antt =====
-- internal/config/config.go, with the loading of a policy file (internal/authz/authz.go) and the
-- metrics path (internal/metrics/server.go). The files, YAML, and the functions on URL paths are
-- parameters.
pub mod Loading
use nats_oidc_callout.Prelude.{
  ℕ, ◌+◌, Bool, true, false, not, ◌&&◌, ◌||◌, Option, none, some, List, [], ◌∷◌, Result, ok, err,
  ◌>>=◌, ◌>>◌, fail_if, if◌then◌else◌, is_empty, any, ltb,
}
use nats_oidc_callout.Prelude.Texts.{Text, codes, text_eq}
use nats_oidc_callout.Prelude.Int.{ℤ, pos, is_zero, is_negative}
use nats_oidc_callout.Strings.{has_prefix, contains_byte}
use nats_oidc_callout.Regexp.{Engine}
use nats_oidc_callout.Authz.Cel.{Cel}
use nats_oidc_callout.Authz.Strict.{Decoded, decode_strict}
use nats_oidc_callout.Authz.Policy.{Policy, PolicyError, validate}
use nats_oidc_callout.Verifier.{IssuerOption}

-- `NATSConfig`
pub record NatsConfig : Type 0 where
  pub url : Text
  pub credentials : Text
  pub username : Text
  pub password : Text
  pub nkey_seed : Text
  pub ca_cert : Text
  pub client_cert : Text
  pub client_key : Text

-- `MetricsConfig`
pub record MetricsConfig : Type 0 where
  pub enabled : Bool
  pub address : Text
  pub path : Text

-- `Config`; an `IssuerConfig` has the fields of the verifier's option.
pub record Config : Type 0 where
  pub nats : NatsConfig
  pub issuer_account_seed : Text
  pub xkey_seed : Text
  pub audiences : List Text
  pub signing_algs : List Text
  pub issuers : List IssuerOption
  pub http_timeout : ℤ
  pub workers : ℤ
  pub verify_timeout : ℤ
  pub jwks_refresh_interval : ℤ
  pub oidc_ca_cert : Text
  pub metrics : MetricsConfig
  pub policy : Policy
  pub policy_file : Text

-- What loading uses and the repository does not hold.
pub record Files : Type 0 where
  pub read : Text → Option Text  -- `os.ReadFile`
  pub first_config : Text → Decoded Config  -- the first document, decoded with `KnownFields`
  pub first_policy : Text → Decoded Policy
  pub next_document : Text → Decoded (Unit {0})
  pub unescape : Text → Option Text  -- `url.PathUnescape`
  pub clean : Text → Text  -- `path.Clean`
  pub mux_accepts : Text → Bool  -- `newMux` does not panic

pub data PathError : Type 0 where
  not_literal bad_escape reserved_path refused_by_mux : PathError

pub data ConfigError : Type 0 where
  unreadable unparsable nats_url several_auth_methods password_without_user : ConfigError
  no_seed no_audience no_signing_alg no_issuer no_issuer_url : ConfigError
  negative_workers negative_verify_timeout negative_refresh_interval : ConfigError
  unreadable_policy unparsable_policy : ConfigError
  bad_path : PathError → ConfigError
  bad_policy : PolicyError → ConfigError

abbrev pub liveness_path : Text
liveness_path = codes "/healthz"

abbrev pub readiness_path : Text
readiness_path = codes "/readyz"

-- `strings.ContainsAny(p, "{} \t")`
abbrev pub has_pattern_byte : Text → Bool
has_pattern_byte p =
    contains_byte b'{' p || (contains_byte b'}' p || (contains_byte 32 p || contains_byte 9 p))

-- The tests of `ValidatePath` behind the unescaping.
unfoldable pub check_decoded : Files → Text → Option Text → Result PathError (Unit {0})
check_decoded files p none = err bad_escape
check_decoded files p (some decoded) = do
  fail_if
      (text_eq (files.clean decoded) liveness_path || text_eq (files.clean decoded) readiness_path)
      reserved_path
  fail_if (not (files.mux_accepts p)) refused_by_mux

-- `metrics.ValidatePath`
unfoldable pub validate_path : Files → Text → Result PathError (Unit {0})
validate_path files p = do
  fail_if (not (has_prefix p (codes "/")) || has_pattern_byte p) not_literal
  check_decoded files p (files.unescape p)

-- The number of the loop over the three methods of authentication.
abbrev pub one_if : Text → ℕ
one_if v = if is_empty v then 0 else 1

unfoldable pub auth_methods : NatsConfig → ℕ
auth_methods nats = one_if nats.credentials + (one_if nats.username + one_if nats.nkey_seed)

abbrev pub lift_path : Result PathError (Unit {0}) → Result ConfigError (Unit {0})
lift_path (ok _) = ok tt
lift_path (err e) = err (bad_path e)

-- `Validate` in front of the policy.
unfoldable pub check : Files → Config → Result ConfigError (Unit {0})
check files c = do
  fail_if (is_empty c.nats.url) nats_url
  fail_if (ltb 1 (auth_methods c.nats)) several_auth_methods
  fail_if (not (is_empty c.nats.password) && is_empty c.nats.username) password_without_user
  fail_if (is_empty c.issuer_account_seed) no_seed
  fail_if (is_empty c.audiences) no_audience
  fail_if (is_empty c.signing_algs) no_signing_alg
  fail_if (is_empty c.issuers) no_issuer
  fail_if (any (λ iss. is_empty iss.url) c.issuers) no_issuer_url
  (if c.metrics.enabled && not (is_empty c.metrics.path)
      then lift_path (validate_path files c.metrics.path)
      else ok tt)
  fail_if (is_negative c.workers) negative_workers
  fail_if (is_negative c.verify_timeout) negative_verify_timeout
  fail_if (is_negative c.jwks_refresh_interval) negative_refresh_interval

-- The policy's part of `Validate`: the configuration with the policy as its validation leaves it.
abbrev pub with_policy : Config → Policy × Option PolicyError → Result ConfigError Config
with_policy c (p, none) = ok (record c { policy = p })
with_policy c (p, some e) = err (bad_policy e)

-- `(*Config).Validate`
unfoldable pub validated : Files → Engine → Cel → Config → Result ConfigError Config
validated files engine cel c = do check files c; with_policy c (validate engine cel c.policy)

abbrev pub int_or : ℤ → ℤ → ℤ
int_or d x = if is_zero x then d else x

abbrev pub text_or : Text → Text → Text
text_or d x = if is_empty x then d else x

-- The defaults of an enabled metrics endpoint.
abbrev pub default_metrics_address : Text
default_metrics_address = codes ":9090"

unfoldable pub fill_metrics : MetricsConfig → MetricsConfig
fill_metrics m =
    if m.enabled
    then record m {
      address = text_or default_metrics_address m.address;
      path = text_or (codes "/metrics") m.path;
    }
    else m

-- Durations are in nanoseconds.
abbrev pub default_http_timeout : ℤ
default_http_timeout = pos 10_000_000_000

abbrev pub default_workers : ℤ
default_workers = pos 8

abbrev pub default_verify_timeout : ℤ
default_verify_timeout = pos 1_500_000_000

abbrev pub default_jwks_refresh_interval : ℤ
default_jwks_refresh_interval = pos 30_000_000_000

-- The defaults that `Load` fills in.
unfoldable pub fill_defaults : Config → Config
fill_defaults c = record c {
  http_timeout = int_or default_http_timeout c.http_timeout;
  workers = int_or default_workers c.workers;
  verify_timeout = int_or default_verify_timeout c.verify_timeout;
  jwks_refresh_interval = int_or default_jwks_refresh_interval c.jwks_refresh_interval;
  metrics = fill_metrics c.metrics;
}

abbrev pub accepted_policy : Policy × Option PolicyError → Result ConfigError Policy
accepted_policy (p, none) = ok p
accepted_policy (p, some e) = err (bad_policy e)

abbrev pub or_fail : {A : Type 0} → ConfigError → Option A → Result ConfigError A
or_fail e none = err e
or_fail e (some a) = ok a

-- `var p Policy`, and `var cfg Config`
abbrev pub zero_policy : Policy
zero_policy = record { rules = []; validated = false }

abbrev pub zero_config : Config
zero_config = record {
  nats = record {
    url = [];
    credentials = [];
    username = [];
    password = [];
    nkey_seed = [];
    ca_cert = [];
    client_cert = [];
    client_key = [];
  };
  issuer_account_seed = [];
  xkey_seed = [];
  audiences = [];
  signing_algs = [];
  issuers = [];
  http_timeout = pos 0;
  workers = pos 0;
  verify_timeout = pos 0;
  jwks_refresh_interval = pos 0;
  oidc_ca_cert = [];
  metrics = record { enabled = false; address = []; path = [] };
  policy = zero_policy;
  policy_file = [];
}

abbrev pub decode_policy : Files → Text → Option Policy
decode_policy files d = decode_strict zero_policy (files.first_policy d) (files.next_document d)

abbrev pub decode_config : Files → Text → Option Config
decode_config files d = decode_strict zero_config (files.first_config d) (files.next_document d)

-- `authz.LoadPolicy`
unfoldable pub load_policy : Files → Engine → Cel → Text → Result ConfigError Policy
load_policy files engine cel path = do
  data_read ← or_fail unreadable_policy (files.read path)
  p ← or_fail unparsable_policy (decode_policy files data_read)
  accepted_policy (validate engine cel p)

-- The policy file replaces an inline policy.
unfoldable pub choose_policy : Files → Engine → Cel → Config → Result ConfigError Config
choose_policy files engine cel c =
    if is_empty c.policy_file
    then ok c
    else do p ← load_policy files engine cel c.policy_file; ok (record c { policy = p })

-- `Load`
unfoldable pub load : Files → Engine → Cel → Text → Result ConfigError Config
load files engine cel path = do
  data_read ← or_fail unreadable (files.read path)
  decoded ← or_fail unparsable (decode_config files data_read)
  chosen ← choose_policy files engine cel decoded
  validated files engine cel (fill_defaults chosen)
