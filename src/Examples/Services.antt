-- ===== src/Examples/Services.antt =====
-- Configurations, reloads and token files.
use nats_oidc_callout.Prelude.Maps.{insert}
use Verifier.{add_issuers, http_client, made_entry, new}
use nats_oidc_callout.Verifier.KeySet.{Client, new_key_set}
use nats_oidc_callout.Authz.Rules.{has_strong_pin}
use nats_oidc_callout.Authz.Patterns.{compile_sub}
use nats_oidc_callout.Authz.Policy.{
  check_expr, check_grant, check_pin, is_empty_permission, validate_rule, validate_rules,
}
use nats_oidc_callout.Prelude.{◌≡◌, ◌≢◌, refl, true, false, none, some, [], ◌∷◌, ok, ◌↔◌, In}
use nats_oidc_callout.Authz.Strict.{document, malformed, end_of_input, decode_strict}
use nats_oidc_callout.Prelude.Texts.{Text, codes}
use nats_oidc_callout.Prelude.Int.{pos}
use nats_oidc_callout.Authz.Policy.{validate}
use nats_oidc_callout.Authz.Policy.Validation.{IsValidPolicy, validate_sound}
use nats_oidc_callout.Config.{
  Config, Files, load, check, validated, fill_defaults, fill_metrics, choose_policy, auth_methods,
}
use nats_oidc_callout.Config.Loading.{IsReady, load-IsReady}
use nats_oidc_callout.Callout.{Authorizer}
use nats_oidc_callout.Service.{Environment}
use nats_oidc_callout.Verifier
use nats_oidc_callout.Verifier.{
  Options, IssuerOption, IssuerEntry, Verifier, Discovery, no_provider, metadata,
}
use nats_oidc_callout.Verifier.Entries.{Honours}
use nats_oidc_callout.Verifier.Issuers.{new_iff}
use nats_oidc_callout.Prelude.Maps.{lookup}
use nats_oidc_callout.Examples.Fixtures.{engine, cel, policy, verifier, key_set}
use nats_oidc_callout.Examples.Policies.{accepted}

abbrev config : Config
config = record {
  nats = record {
    url = codes "nats://n";
    credentials = [];
    username = [];
    password = [];
    nkey_seed = [];
    ca_cert = [];
    client_cert = [];
    client_key = [];
  };
  issuer_account_seed = codes "SA";
  xkey_seed = [];
  audiences = codes "nats" ∷ [];
  signing_algs = codes "RS256" ∷ [];
  issuers = (record { url = codes "iss"; require_claims = (codes "env", codes "prod") ∷ [] }) ∷ [];
  http_timeout = pos 0;
  workers = pos 0;
  verify_timeout = pos 0;
  jwks_refresh_interval = pos 0;
  oidc_ca_cert = [];
  metrics = record { enabled = false; address = []; path = [] };
  policy = policy;
  policy_file = [];
}

abbrev pub files : Files
files = record {
  read = λ path. some path;
  first_config = λ contents. document config;
  first_policy = λ contents. malformed;
  next_document = λ contents. end_of_input;
  unescape = λ p. some p;
  clean = λ p. p;
  mux_accepts = λ p. true;
}

abbrev pub loaded : Config
loaded = record config {
  http_timeout = pos 10_000_000_000;
  workers = pos 8;
  verify_timeout = pos 1_500_000_000;
  jwks_refresh_interval = pos 30_000_000_000;
  policy = (validate engine cel policy).0;
}

pub config_loads : load files engine cel (codes "f") ≡ ok loaded
unfolding load choose_policy validated check fill_defaults auth_methods fill_metrics validate
    validate_rules validate_rule check_grant is_empty_permission compile_sub check_expr check_pin
    has_strong_pin decode_strict
config_loads = refl

load-IsReady_example : IsReady files engine cel loaded
load-IsReady_example = load-IsReady files engine cel (codes "f") loaded config_loads

-- A world in which no file can be read.
abbrev pub broken : Environment
broken = record {
  files = record files { read = λ path. none };
  has_certs = λ pem. false;
  discover = λ http url. no_provider;
}

-- Every issuer's keys are at the same address.
abbrev pub found : Client → Text → Discovery
found http url = metadata (codes "keys")

abbrev pub working : Environment
working = record { files = files; has_certs = λ pem. true; discover = found }

abbrev pub running : Authorizer
running = record {
  state = record { verifier = verifier; policy = (validate engine cel policy).0 };
  metrics = none;
  verify_timeout = pos 1;
}

running_valid : IsValidPolicy engine cel running.state.policy
running_valid = (validate_sound engine cel policy accepted).0

abbrev pub options : Options
options = record {
  issuers = (record { url = codes "iss"; require_claims = [] }) ∷ [];
  audiences = codes "nats" ∷ [];
  signing_algs = codes "RS256" ∷ [];
  http_timeout = pos 0;
  root_cas = none;
  jwks_refresh_interval = pos 0;
}

abbrev pub entry : IssuerEntry
entry = record {
  url = codes "iss";
  algs = codes "RS256" ∷ [];
  require_claims = [];
  key_set = key_set;
}

abbrev pub built : Verifier
built = record { issuers = (codes "iss", entry) ∷ []; audiences = codes "nats" ∷ [] }

pub verifier_built : Verifier.new found options ≡ ok built
unfolding new add_issuers http_client made_entry new_key_set lookup insert
verifier_built = refl

new_iff_example :
    (built.audiences ≡ options.audiences)
    × (built.audiences ≢ [])
    × ((lookup (codes "iss") built.issuers ≡ some entry) ↔ (
        (iss : IssuerOption) × In iss options.issuers
        × (iss.url ≡ codes "iss")
        × Honours found options iss entry))
new_iff_example = new_iff found options built (codes "iss") entry verifier_built
