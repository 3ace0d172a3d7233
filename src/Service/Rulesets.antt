-- ===== src/Service/Rulesets.antt =====
-- Which configuration a ruleset of the service comes from: internal/callout/callout.go holds one that
-- cmd/nats-oidc-callout/main.go built of a file.
use nats_oidc_callout.Prelude.{◌≡◌, refl, Option, Result, ok, err, >>=-eq-ok}
use nats_oidc_callout.Prelude.Texts.{Text}
use nats_oidc_callout.Regexp.{Engine}
use nats_oidc_callout.Authz.Cel.{Cel}
use nats_oidc_callout.Authz.Policy.Validation.{IsValidPolicy}
use nats_oidc_callout.Verifier
use nats_oidc_callout.Verifier.{Verifier, NewError}
use nats_oidc_callout.Config.{Config, ConfigError, load}
use nats_oidc_callout.Config.Loading.{load-IsReady}
use nats_oidc_callout.Callout.{Authorizer, Ruleset, reload}
use nats_oidc_callout.Service.{
  Environment, BuildError, build_verifier, root_cas, verifier_options, lift_new, swap_in, apply,
  reload_config,
}

-- In some world, the file gave the configuration of the policy, and the verifier was built of it.
pub record IsConfigured (engine : Engine) (cel : Cel) (path : Text) (rs : Ruleset) : Type 0 where
  pub env : Environment
  pub cfg : Config
  pub loaded : load env.files engine cel path ≡ ok cfg
  pub built : build_verifier env cfg ≡ ok rs.verifier
  pub policy : rs.policy ≡ cfg.policy

lift_new-ok : (r : Result NewError Verifier) (v : Verifier) → lift_new r ≡ ok v → r ≡ ok v
lift_new-ok (ok w) v h = cc
lift_new-ok (err e) v h = cc

pub build_verifier-ok :
    (env : Environment) (cfg : Config) (v : Verifier)
    → build_verifier env cfg ≡ ok v
    → (cas : Option Text) × (root_cas env cfg.oidc_ca_cert ≡ ok cas)
      × (Verifier.new env.discover (verifier_options cfg cas) ≡ ok v)
unfolding build_verifier
build_verifier-ok env cfg v h =
    let (cas, given, built) = >>=-eq-ok (root_cas env cfg.oidc_ca_cert) _ h in
    (cas, given, lift_new-ok (Verifier.new env.discover (verifier_options cfg cas)) v built)

module _ (engine : Engine) (cel : Cel) (path : Text) where
  pub IsConfigured-IsValidPolicy :
      (rs : Ruleset) → IsConfigured engine cel path rs → IsValidPolicy engine cel rs.policy
  IsConfigured-IsValidPolicy rs c =
      rw c.policy ((load-IsReady c.env.files engine cel path c.cfg c.loaded).policy)

  swap_in-IsConfigured :
      (env : Environment) (a : Authorizer) (cfg : Config) (r : Result BuildError Verifier)
      → load env.files engine cel path ≡ ok cfg
      → build_verifier env cfg ≡ r
      → IsConfigured engine cel path a.state
      → IsConfigured engine cel path (swap_in a cfg r).0.state
  unfolding swap_in reload
  swap_in-IsConfigured env a cfg (err e) l b h = h
  swap_in-IsConfigured env a cfg (ok v) l b h = record {
    env = env;
    cfg = cfg;
    loaded = l;
    built = b;
    policy = refl;
  }

  apply-IsConfigured :
      (env : Environment) (a : Authorizer) (r : Result ConfigError Config)
      → load env.files engine cel path ≡ r
      → IsConfigured engine cel path a.state
      → IsConfigured engine cel path (apply env a r).0.state
  unfolding apply
  apply-IsConfigured env a (err e) l h = h
  apply-IsConfigured env a (ok cfg) l h =
      swap_in-IsConfigured env a cfg (build_verifier env cfg) l refl h

  pub reload_config-IsConfigured :
      (env : Environment) (a : Authorizer)
      → IsConfigured engine cel path a.state
      → IsConfigured engine cel path (reload_config engine cel path env a).0.state
  unfolding reload_config
  reload_config-IsConfigured env a h =
      apply-IsConfigured env a (load env.files engine cel path) refl h
