-- ===== src/Service/Startup.antt =====
-- cmd/nats-oidc-callout/main.go: `run` and `main`. What the calls of nats.go, nkeys and the callout
-- library return is a parameter, and what the service does is a sequence of effects.
pub mod Serving
pub mod Safety
use nats_oidc_callout.Prelude.{
  ℕ, Bool, true, false, not, ◌&&◌, Option, none, some, List, [], ◌∷◌, ◌++◌, Result, ok, err,
  if◌then◌else◌, is_empty,
}
use nats_oidc_callout.Prelude.Texts.{Text, codes, text_eq}
use nats_oidc_callout.Regexp.{Engine}
use nats_oidc_callout.Authz.Cel.{Cel}
use nats_oidc_callout.Metrics
use nats_oidc_callout.Metrics.{Metrics}
use nats_oidc_callout.Verifier.{Verifier}
use nats_oidc_callout.Callout
use nats_oidc_callout.Callout.{Authorizer}
use nats_oidc_callout.Config.{Config, ConfigError, MetricsConfig, load}
use nats_oidc_callout.Service.{Environment, BuildError, build_verifier}
use nats_oidc_callout.Service.Connection.{Libraries, Connect, ConnectError, Failure, connect_nats}

-- Why the service stops once it has started: the signal, the connection, or the callout service.
pub data Ending : Type 0 where
  signalled service_failed : Ending
  nats_failed : Failure → Ending

-- The world at a start.
pub record World : Type 0 where
  pub env : Environment
  pub lib : Libraries
  pub listens : Text → Bool  -- `net.Listen`
  pub dial : Connect → Bool  -- `nats.Connect`
  pub service_starts : Bool  -- `callout.NewAuthorizationService`
  pub ending : Ending

pub data RunError : Type 0 where
  bad_configuration : ConfigError → RunError
  bad_account_seed bad_xkey_seed cannot_listen cannot_start service_stopped : RunError
  bad_verifier : BuildError → RunError
  cannot_connect : ConnectError → RunError
  connection_failed : Failure → RunError

-- What the service does, in order. Serving metrics and watching for reloads go on in the background.
pub data Effect : Type 0 where
  serves_metrics tracks_connection starts_service becomes_ready watches_reloads : Effect
  stops_connection : Effect
  connects : Connect → Effect

-- A run: its effects, its error, and the authorizer that it started to serve with.
pub record Run : Type 0 where
  pub effects : List Effect
  pub error : Option RunError
  pub authorizer : Option Authorizer

abbrev pub failed : RunError → Run
failed e = record { effects = []; error = some e; authorizer = none }

abbrev pub after : Effect → Run → Run
after e r = record r { effects = e ∷ r.effects }

-- The deferred `stopService`.
abbrev pub stopping : Run → Run
stopping r = record r { effects = r.effects ++ (stops_connection ∷ []) }

abbrev pub error_of : Ending → Option RunError
error_of signalled = none
error_of service_failed = some service_stopped
error_of (nats_failed f) = some (connection_failed f)

-- `run` from the start of the callout service on.
unfoldable pub serve : World → Authorizer → Run
serve world a =
    if world.service_starts
    then record {
      effects = starts_service ∷ becomes_ready ∷ watches_reloads ∷ [];
      error = error_of world.ending;
      authorizer = some a;
    }
    else failed cannot_start

-- `run` from the connection on.
unfoldable pub with_connection :
    World → Config → Verifier → Option Metrics → Result ConnectError Connect → Run
with_connection world cfg v m (err e) = failed (cannot_connect e)
with_connection world cfg v m (ok options) = after (connects options) (
    stopping (
      after tracks_connection (
        serve world
          (Callout.new v cfg.policy (Metrics.track_nats_connection m) cfg.verify_timeout))))

abbrev pub connected : World → Config → Verifier → Option Metrics → Run
connected world cfg v m = with_connection world cfg v m (connect_nats world.lib world.dial cfg.nats)

-- `run` from the metrics endpoint on.
unfoldable pub with_verifier : World → Config → Result BuildError Verifier → Run
with_verifier world cfg (err e) = failed (bad_verifier e)
with_verifier world cfg (ok v) =
    if not cfg.metrics.enabled
    then connected world cfg v none
    else if world.listens cfg.metrics.address
    then after serves_metrics (connected world cfg v (some Metrics.new))
    else failed cannot_listen

abbrev pub is_seed : Libraries → Text → Bool
is_seed lib seed = elim (lib.from_seed seed) [ none ↦ false | some pair ↦ true ]

-- `run` from the seeds on.
unfoldable pub with_config : World → Result ConfigError Config → Run
with_config world (err e) = failed (bad_configuration e)
with_config world (ok cfg) =
    if not (is_seed world.lib cfg.issuer_account_seed)
    then failed bad_account_seed
    else if not (is_empty cfg.xkey_seed) && not (is_seed world.lib cfg.xkey_seed)
    then failed bad_xkey_seed
    else with_verifier world cfg (build_verifier world.env cfg)

-- `run`
unfoldable pub run : Engine → Cel → World → Text → Run
run engine cel world path = with_config world (load world.env.files engine cel path)

-- What `ready` reads: the `started` flag, the state of the connection, and of the micro service.
pub record Status : Type 0 where
  pub started : Bool
  pub is_connected : Bool
  pub is_stopped : Bool

-- `ready`
unfoldable pub is_ready : Status → Bool
is_ready s = s.started && (s.is_connected && not s.is_stopped)

-- The flags of `main`
pub record Flags : Type 0 where
  pub config_path : Text
  pub show_version : Bool

-- The exit status of `main`, and whether it ran the service.
unfoldable pub exit_status : Engine → Cel → World → Flags → ℕ
exit_status engine cel world flags =
    if flags.show_version
    then 0
    else if is_empty flags.config_path
    then 2
    else elim ((run engine cel world flags.config_path).error) [ none ↦ 0 | some e ↦ 1 ]

pub data Level : Type 0 where
  debug info warn error_level : Level

-- The level of `newLogger`
unfoldable pub level_of : Text → Level
level_of name =
    if text_eq name (codes "debug")
    then debug
    else if text_eq name (codes "warn")
    then warn
    else if text_eq name (codes "error")
    then error_level
    else info
