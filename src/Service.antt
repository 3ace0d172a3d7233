-- ===== src/Service.antt =====
-- cmd/nats-oidc-callout/main.go: the reload of the configuration on SIGHUP, and the verifier that it
-- builds; `Startup`, `Connection` and `Shutdown` hold the rest of the command, `Concurrency` its reloads
-- among requests. What the outside world answers at a reload is a parameter.
pub mod Reloads
pub mod Rulesets
pub mod Warnings
pub mod Connection
pub mod Shutdown
pub mod Startup
pub mod Concurrency
use nats_oidc_callout.Prelude.{
  Bool, true, false, not, ◌&&◌, ◌||◌, Option, none, some, List, [], ◌∷◌, ◌++◌, Result, ok, err,
  ◌>>=◌, ◌>>◌, fail_if, if◌then◌else◌, is_empty,
}
use nats_oidc_callout.Prelude.Texts.{Text, text_eq}
use nats_oidc_callout.Prelude.Int.{int_eq}
use nats_oidc_callout.Regexp.{Engine}
use nats_oidc_callout.Authz.Cel.{Cel}
use nats_oidc_callout.Verifier
use nats_oidc_callout.Verifier.{Verifier, NewError, Options, Discovery}
use nats_oidc_callout.Verifier.KeySet.{Client}
use nats_oidc_callout.Config.{Config, ConfigError, Files, NatsConfig, MetricsConfig, load}
use nats_oidc_callout.Callout.{Authorizer, reload}

-- The world at one reload: the files, the certificates, and OIDC discovery over an HTTP client.
pub record Environment : Type 0 where
  pub files : Files
  pub has_certs : Text → Bool  -- `AppendCertsFromPEM`
  pub discover : Client → Text → Discovery

pub data BuildError : Type 0 where
  unreadable_ca no_certificates : BuildError
  bad_verifier : NewError → BuildError

-- The root certificates of `buildVerifier`: none for the system's, or the file, which holds one.
unfoldable pub root_cas : Environment → Text → Result BuildError (Option Text)
root_cas env path = if is_empty path then ok none else elim (env.files.read path) [
  | none ↦ err unreadable_ca
  | some pem ↦ if env.has_certs pem then ok (some pem) else err no_certificates
]

abbrev pub verifier_options : Config → Option Text → Options
verifier_options cfg cas = record {
  issuers = cfg.issuers;
  audiences = cfg.audiences;
  signing_algs = cfg.signing_algs;
  http_timeout = cfg.http_timeout;
  root_cas = cas;
  jwks_refresh_interval = cfg.jwks_refresh_interval;
}

abbrev pub lift_new : Result NewError Verifier → Result BuildError Verifier
lift_new (ok v) = ok v
lift_new (err e) = err (bad_verifier e)

-- `buildVerifier`
unfoldable pub build_verifier : Environment → Config → Result BuildError Verifier
build_verifier env cfg = do
  cas ← root_cas env cfg.oidc_ca_cert
  lift_new (Verifier.new env.discover (verifier_options cfg cas))

-- A setting that needs a restart, as `warnUnreloadable` logs it.
pub data Warning : Type 0 where
  nats_changed seeds_changed metrics_changed workers_changed : Warning

-- `==` on `NATSConfig`
unfoldable pub nats_eq : NatsConfig → NatsConfig → Bool
nats_eq a b =
    text_eq a.url b.url
    && (text_eq a.credentials b.credentials
        && (text_eq a.username b.username
            && (text_eq a.password b.password
                && (text_eq a.nkey_seed b.nkey_seed
                    && (text_eq a.ca_cert b.ca_cert
                        && (text_eq a.client_cert b.client_cert
                            && text_eq a.client_key b.client_key))))))

abbrev pub bool_eq : Bool → Bool → Bool
bool_eq true b = b
bool_eq false b = not b

-- `==` on `MetricsConfig`
unfoldable pub metrics_eq : MetricsConfig → MetricsConfig → Bool
metrics_eq a b =
    bool_eq a.enabled b.enabled && (text_eq a.address b.address && text_eq a.path b.path)

abbrev pub warn_if : Bool → Warning → List Warning
warn_if true w = w ∷ []
warn_if false w = []

-- `warnUnreloadable`
unfoldable pub warn_unreloadable : Config → Config → List Warning
warn_unreloadable old new =
    warn_if (not (nats_eq old.nats new.nats)) nats_changed
    ++ (warn_if
          (not (text_eq old.issuer_account_seed new.issuer_account_seed)
            || not (text_eq old.xkey_seed new.xkey_seed))
          seeds_changed
        ++ (warn_if (not (metrics_eq old.metrics new.metrics)) metrics_changed
            ++ warn_if
                (not (int_eq old.workers new.workers)
                  || not (int_eq old.verify_timeout new.verify_timeout))
                workers_changed))

pub data ReloadError : Type 0 where
  bad_config : ConfigError → ReloadError
  bad_build : BuildError → ReloadError

-- The end of `reloadConfig`: the verifier and the policy are swapped in together.
unfoldable pub swap_in :
    Authorizer → Config → Result BuildError Verifier → Authorizer × Option ReloadError
swap_in a cfg (err e) = (a, some (bad_build e))
swap_in a cfg (ok v) = (reload a v cfg.policy, none)

unfoldable pub apply :
    Environment → Authorizer → Result ConfigError Config → Authorizer × Option ReloadError
apply env a (err e) = (a, some (bad_config e))
apply env a (ok cfg) = swap_in a cfg (build_verifier env cfg)

-- `reloadConfig`: the authorizer, and the error that is logged.
unfoldable pub reload_config :
    Engine → Cel → Text → Environment → Authorizer → Authorizer × Option ReloadError
reload_config engine cel path env a = apply env a (load env.files engine cel path)

-- The loop of `watchReloads`: one reload for each SIGHUP.
unfoldable pub watch_reloads : Engine → Cel → Text → List Environment → Authorizer → Authorizer
watch_reloads engine cel path [] a = a
watch_reloads engine cel path (env ∷ envs) a =
    watch_reloads engine cel path envs (reload_config engine cel path env a).0
