-- ===== src/Service/Reloads.antt =====
-- What a running service keeps through any sequence of reloads.
use nats_oidc_callout.Prelude.{◌≡◌, refl, some, List, [], ◌∷◌, Result, ok, err}
use nats_oidc_callout.Prelude.Texts.{Text}
use nats_oidc_callout.Regexp.{Engine}
use nats_oidc_callout.Authz.Cel.{Cel}
use nats_oidc_callout.Authz.Policy.Validation.{IsValidPolicy}
use nats_oidc_callout.Verifier.{Verifier}
use nats_oidc_callout.Config.{Config, ConfigError, load}
use nats_oidc_callout.Config.Loading.{load-IsReady}
use nats_oidc_callout.Callout.{Authorizer, reload}
use nats_oidc_callout.Service.{
  Environment, BuildError, ReloadError, build_verifier, swap_in, apply, reload_config,
  watch_reloads,
}

-- The parts of the authorizer that a reload leaves alone, and a policy that was accepted.
pub record IsServing (engine : Engine) (cel : Cel) (start : Authorizer) (a : Authorizer)
    : Type 0 where
  pub policy : IsValidPolicy engine cel a.state.policy
  pub metrics : a.metrics ≡ start.metrics
  pub verify_timeout : a.verify_timeout ≡ start.verify_timeout

module _ (engine : Engine) (cel : Cel) (start : Authorizer) where
  swap_in-IsServing :
      (a : Authorizer) (cfg : Config) (r : Result BuildError Verifier)
      → IsValidPolicy engine cel cfg.policy
      → IsServing engine cel start a
      → IsServing engine cel start (swap_in a cfg r).0
  unfolding swap_in reload
  swap_in-IsServing a cfg (err e) valid s = s
  swap_in-IsServing a cfg (ok v) valid s = record {
    policy = valid;
    metrics = s.metrics;
    verify_timeout = s.verify_timeout;
  }

  apply-IsServing :
      (env : Environment) (a : Authorizer) (r : Result ConfigError Config)
      → ((cfg : Config) → r ≡ ok cfg → IsValidPolicy engine cel cfg.policy)
      → IsServing engine cel start a
      → IsServing engine cel start (apply env a r).0
  unfolding apply
  apply-IsServing env a (err e) valid s = s
  apply-IsServing env a (ok cfg) valid s =
      swap_in-IsServing a cfg (build_verifier env cfg) (valid cfg refl) s

  pub reload_config-IsServing :
      (path : Text) (env : Environment) (a : Authorizer)
      → IsServing engine cel start a
      → IsServing engine cel start (reload_config engine cel path env a).0
  unfolding reload_config
  reload_config-IsServing path env a s =
      apply-IsServing env a (load env.files engine cel path)
        (λ cfg e. (load-IsReady env.files engine cel path cfg e).policy) s

  serving :
      (path : Text) (envs : List Environment) (a : Authorizer)
      → IsServing engine cel start a
      → IsServing engine cel start (watch_reloads engine cel path envs a)
  unfolding watch_reloads
  serving path [] a s = s
  serving path (env ∷ envs) a s =
      serving path envs (reload_config engine cel path env a).0
        (reload_config-IsServing path env a s)

-- A service that starts with an accepted policy never serves another kind of policy, whatever files
-- and discovery answers its reloads meet, and keeps its metrics and its verification timeout.
pub watch_reloads-IsServing :
    (engine : Engine) (cel : Cel) (path : Text) (envs : List Environment) (start : Authorizer)
    → IsValidPolicy engine cel start.state.policy
    → IsServing engine cel start (watch_reloads engine cel path envs start)
watch_reloads-IsServing engine cel path envs start valid =
    serving engine cel start path envs start
      (record { policy = valid; metrics = refl; verify_timeout = refl })

swap_in-failed :
    (a : Authorizer) (cfg : Config) (r : Result BuildError Verifier) (e : ReloadError)
    → (swap_in a cfg r).1 ≡ some e
    → (swap_in a cfg r).0 ≡ a
unfolding swap_in
swap_in-failed a cfg (err e') e h = refl
swap_in-failed a cfg (ok v) e h = cc

apply-failed :
    (env : Environment) (a : Authorizer) (r : Result ConfigError Config) (e : ReloadError)
    → (apply env a r).1 ≡ some e
    → (apply env a r).0 ≡ a
unfolding apply
apply-failed env a (err e') e h = refl
apply-failed env a (ok cfg) e h = swap_in-failed a cfg (build_verifier env cfg) e h

-- A reload that logs an error, of the configuration, of the root certificates or of the verifier,
-- leaves the authorizer wholly as it was.
pub reload_config-failed :
    (engine : Engine) (cel : Cel) (path : Text) (env : Environment) (a : Authorizer)
    (e : ReloadError)
    → (reload_config engine cel path env a).1 ≡ some e
    → (reload_config engine cel path env a).0 ≡ a
unfolding reload_config
reload_config-failed engine cel path env a e h =
    apply-failed env a (load env.files engine cel path) e h
