-- ===== src/Service/Startup/Safety.antt =====
-- The ruleset of the authorizer that a run serves with.
use nats_oidc_callout.Prelude.{
  ◌≡◌, refl, Bool, true, false, not, ◌&&◌, Option, none, some, Result, ok, err, is_empty,
  if◌then◌else◌,
}
use nats_oidc_callout.Prelude.Texts.{Text}
use nats_oidc_callout.Regexp.{Engine}
use nats_oidc_callout.Authz.Cel.{Cel}
use nats_oidc_callout.Metrics
use nats_oidc_callout.Metrics.{Metrics}
use nats_oidc_callout.Verifier.{Verifier}
use nats_oidc_callout.Config.{Config, ConfigError, load}
use nats_oidc_callout.Callout
use nats_oidc_callout.Callout.{Authorizer, Ruleset}
use nats_oidc_callout.Service.{BuildError, build_verifier}
use nats_oidc_callout.Service.Rulesets.{IsConfigured}
use nats_oidc_callout.Service.Connection.{Connect, ConnectError, connect_nats}
use nats_oidc_callout.Service.Startup.{
  World, Run, failed, after, serve, with_connection, connected, with_verifier, with_config, run,
  is_seed, serves_metrics, cannot_listen, bad_account_seed, bad_xkey_seed,
}

-- Whatever authorizer the run starts to serve with has a ruleset with the property.
abbrev pub Serves : (Ruleset → Type 0) → Run → Type 0
Serves P r = (a : Authorizer) → r.authorizer ≡ some a → P a.state

abbrev ruleset_of : Config → Verifier → Ruleset
ruleset_of cfg v = record { verifier = v; policy = cfg.policy }

module _ (P : Ruleset → Type 0) (world : World) where
  if-Serves : (b : Bool) (r s : Run) → Serves P r → Serves P s → Serves P (if b then r else s)
  if-Serves true r s h k = h
  if-Serves false r s h k = k

  serve-Serves : (a : Authorizer) → P a.state → Serves P (serve world a)
  unfolding serve
  serve-Serves a valid =
      if-Serves world.service_starts _ _ (λ b same. let e : a ≡ b = cc in rw (← e) valid)
        (λ b h. cc)

  with_connection-Serves :
      (cfg : Config) (v : Verifier) (m : Option Metrics) (r : Result ConnectError Connect)
      → P (ruleset_of cfg v)
      → Serves P (with_connection world cfg v m r)
  unfolding with_connection Callout.new
  with_connection-Serves cfg v m (err e) valid = λ b h. cc
  with_connection-Serves cfg v m (ok options) valid =
      serve-Serves (Callout.new v cfg.policy (Metrics.track_nats_connection m) cfg.verify_timeout)
        valid

  with_verifier-Serves :
      (cfg : Config) (r : Result BuildError Verifier)
      → ((v : Verifier) → r ≡ ok v → P (ruleset_of cfg v))
      → Serves P (with_verifier world cfg r)
  unfolding with_verifier
  with_verifier-Serves cfg (err e) valid = λ b h. cc
  with_verifier-Serves cfg (ok v) valid =
      if-Serves (not cfg.metrics.enabled) (connected world cfg v none) _
        (with_connection-Serves cfg v none (connect_nats world.lib world.dial cfg.nats)
          (valid v refl))
        (if-Serves (world.listens cfg.metrics.address)
          (after serves_metrics (connected world cfg v (some Metrics.new))) (failed cannot_listen)
          (with_connection-Serves cfg v (some Metrics.new)
            (connect_nats world.lib world.dial cfg.nats) (valid v refl))
          (λ b h. cc))

  with_config-Serves :
      (r : Result ConfigError Config)
      → ((cfg : Config) (v : Verifier)
          → r ≡ ok cfg
          → build_verifier world.env cfg ≡ ok v
          → P (ruleset_of cfg v))
      → Serves P (with_config world r)
  unfolding with_config
  with_config-Serves (err e) valid = λ b h. cc
  with_config-Serves (ok cfg) valid =
      if-Serves (not (is_seed world.lib cfg.issuer_account_seed)) (failed bad_account_seed) _
        (λ b h. cc)
        (if-Serves (not (is_empty cfg.xkey_seed) && not (is_seed world.lib cfg.xkey_seed))
          (failed bad_xkey_seed) (with_verifier world cfg (build_verifier world.env cfg))
          (λ b h. cc)
          (with_verifier-Serves cfg (build_verifier world.env cfg) (λ v. valid cfg v refl)))

pub run-IsConfigured :
    (engine : Engine) (cel : Cel) (world : World) (path : Text)
    → Serves (IsConfigured engine cel path) (run engine cel world path)
unfolding run
run-IsConfigured engine cel world path =
    with_config-Serves (IsConfigured engine cel path) world (load world.env.files engine cel path)
      (λ cfg v l b. record { env = world.env; cfg = cfg; loaded = l; built = b; policy = refl })
