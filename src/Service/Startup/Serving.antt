-- ===== src/Service/Startup/Serving.antt =====
-- What a run of the service does before it ends, and how it ends.
use nats_oidc_callout.Prelude.{
  ◌≡◌, ◌≢◌, refl, ap, ◌∙◌, Bool, true, false, not, ◌&&◌, Option, none, some, List, [], ◌∷◌, ◌++◌,
  arith, ◌⊎◌, ◌↔◌, inl, inr, Result, ok, err, Bool-cases, is_empty, if◌then◌else◌,
}
use nats_oidc_callout.Prelude.Texts.{Text}
use nats_oidc_callout.Regexp.{Engine}
use nats_oidc_callout.Authz.Cel.{Cel}
use nats_oidc_callout.Metrics.{Metrics}
use nats_oidc_callout.Verifier.{Verifier}
use nats_oidc_callout.Config.{Config, ConfigError, load}
use nats_oidc_callout.Callout
use nats_oidc_callout.Metrics
use nats_oidc_callout.Callout.{Authorizer}
use nats_oidc_callout.Service.{BuildError, build_verifier}
use nats_oidc_callout.Service.Connection.{Connect, ConnectError, connect_nats}
use nats_oidc_callout.Service.Startup.{
  World, Ending, signalled, service_failed, nats_failed, Run, RunError, Effect, serves_metrics,
  tracks_connection, starts_service, becomes_ready, watches_reloads, stops_connection, connects,
  failed, after, serve, with_connection, connected, with_verifier, with_config, run, is_seed,
  error_of, cannot_listen, bad_account_seed, bad_xkey_seed,
}

-- The effects of a run that never reached NATS: the metrics endpoint at most.
abbrev pub IsUnconnected : Run → Type 0
IsUnconnected r =
    (r.authorizer ≡ none)
    × (r.error ≢ none)
    × ((r.effects ≡ []) ⊎ (r.effects ≡ serves_metrics ∷ []))

-- The effects between the connection and its end: the service is started or cannot be.
abbrev pub between : Bool → List Effect
between true = tracks_connection ∷ starts_service ∷ becomes_ready ∷ watches_reloads ∷ []
between false = tracks_connection ∷ []

-- A run that connected: it ends with the stop of the connection, whatever came in between.
pub record IsStopped (world : World) (r : Run) : Type 0 where
  pub front : List Effect
  pub options : Connect
  pub unserved : (front ≡ []) ⊎ (front ≡ serves_metrics ∷ [])
  pub effects :
      r.effects
      ≡ front ++ (connects options ∷ (between world.service_starts ++ (stops_connection ∷ [])))
  pub clean : (r.error ≡ none) ↔ ((world.service_starts ≡ true) × (world.ending ≡ signalled))

abbrev Fine : World → Run → Type 0
Fine world r = IsUnconnected r ⊎ IsStopped world r

failed-Fine : (world : World) (e : RunError) → Fine world (failed e)
failed-Fine world e = inl (refl, λ h. cc, inl refl)

serve-between :
    (world : World) (a : Authorizer)
    → (tracks_connection ∷ (serve world a).effects) ≡ between world.service_starts
unfolding serve
serve-between world a = elim (Bool-cases world.service_starts) [
  | inl e ↦ ground arith
  | inr e ↦ ground arith
]

-- An end by a signal is no error, and every other end is one.
ending_cases :
    (ending : Ending)
    → ((ending ≡ signalled) × (error_of ending ≡ none))
      ⊎ ((ending ≢ signalled) × (error_of ending ≢ none))
ending_cases signalled = inl (refl, refl)
ending_cases service_failed = inr (λ h. cc, λ h. cc)
ending_cases (nats_failed f) = inr (λ h. cc, λ h. cc)

serve-clean :
    (world : World) (a : Authorizer)
    → ((serve world a).error ≡ none) ↔ ((world.service_starts ≡ true) × (world.ending ≡ signalled))
unfolding serve
serve-clean world a = elim (ending_cases world.ending) [
  | inl e ↦ ground arith
  | inr (e, fails) ↦ ground arith
]

-- A run from the connection on: unconnected with no effect, or stopped with the connection first.
abbrev FromConnection : World → Run → Type 0
FromConnection world r =
    ((r.effects ≡ []) × IsUnconnected r) ⊎ ((s : IsStopped world r) × (s.front ≡ []))

with_connection-Fine :
    (world : World) (cfg : Config) (v : Verifier) (m : Option Metrics)
    (r : Result ConnectError Connect)
    → FromConnection world (with_connection world cfg v m r)
unfolding with_connection
with_connection-Fine world cfg v m (err e) = inl (refl, (refl, λ h. cc, inl refl))
with_connection-Fine world cfg v m (ok options) =
    let a = Callout.new v cfg.policy (Metrics.track_nats_connection m) cfg.verify_timeout in
    inr (
      record {
        front = [];
        options = options;
        unserved = inl refl;
        effects =
            ap (λ l. connects options ∷ (l ++ (stops_connection ∷ []))) (serve-between world a);
        clean = serve-clean world a;
      },
      refl,
    )

from_connection : (world : World) (r : Run) → FromConnection world r → Fine world r
from_connection world r (inl (_, u)) = inl u
from_connection world r (inr (s, _)) = inr s

behind_metrics :
    (world : World) (r : Run) → FromConnection world r → Fine world (after serves_metrics r)
behind_metrics world r (inl (no_effects, (no_a, failure, _))) =
    inl (no_a, failure, inr (ap (λ l. serves_metrics ∷ l) no_effects))
behind_metrics world r (inr (s, at_front)) = inr (record {
  front = serves_metrics ∷ [];
  options = s.options;
  unserved = inr refl;
  effects =
      ap (λ l. serves_metrics ∷ l)
        (s.effects
          ∙ ap
              (λ f.
                f
                ++ (connects s.options ∷ (between world.service_starts ++ (stops_connection ∷ []))))
              at_front);
  clean = s.clean;
})

if-Fine :
    (world : World) (b : Bool) (r s : Run)
    → Fine world r
    → Fine world s
    → Fine world (if b then r else s)
if-Fine world true r s h k = h
if-Fine world false r s h k = k

with_verifier-Fine :
    (world : World) (cfg : Config) (r : Result BuildError Verifier)
    → Fine world (with_verifier world cfg r)
unfolding with_verifier
with_verifier-Fine world cfg (err e) = failed-Fine world _
with_verifier-Fine world cfg (ok v) =
    if-Fine world (not cfg.metrics.enabled) (connected world cfg v none) _
      (from_connection world (connected world cfg v none)
        (with_connection-Fine world cfg v none (connect_nats world.lib world.dial cfg.nats)))
      (if-Fine world (world.listens cfg.metrics.address)
        (after serves_metrics (connected world cfg v (some Metrics.new))) (failed cannot_listen)
        (behind_metrics world (connected world cfg v (some Metrics.new)) (
          with_connection-Fine world cfg v (some Metrics.new)
            (connect_nats world.lib world.dial cfg.nats)))
        (failed-Fine world cannot_listen))

with_config-Fine :
    (world : World) (r : Result ConfigError Config) → Fine world (with_config world r)
unfolding with_config
with_config-Fine world (err e) = failed-Fine world _
with_config-Fine world (ok cfg) =
    if-Fine world (not (is_seed world.lib cfg.issuer_account_seed)) (failed bad_account_seed) _
      (failed-Fine world bad_account_seed)
      (if-Fine world (not (is_empty cfg.xkey_seed) && not (is_seed world.lib cfg.xkey_seed))
        (failed bad_xkey_seed) (with_verifier world cfg (build_verifier world.env cfg))
        (failed-Fine world bad_xkey_seed)
        (with_verifier-Fine world cfg (build_verifier world.env cfg)))

-- Every run either fails without ever connecting to NATS, with the metrics endpoint as its only
-- effect at most, or connects once and ends with the stop of that connection as its last effect;
-- then it returns no error exactly if the callout service started and the end came by a signal.
pub run_cases :
    (engine : Engine) (cel : Cel) (world : World) (path : Text)
    → IsUnconnected (run engine cel world path) ⊎ IsStopped world (run engine cel world path)
unfolding run
run_cases engine cel world path = with_config-Fine world (load world.env.files engine cel path)
