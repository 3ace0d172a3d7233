-- ===== src/Metrics/Server.antt =====
-- internal/metrics/server.go: the endpoint's routes and its end. net/http is a parameter.
pub mod Routes
use nats_oidc_callout.Prelude.{
  ℕ, Bool, true, false, Option, none, some, List, [], ◌∷◌, if◌then◌else◌, is_empty,
}
use nats_oidc_callout.Prelude.Texts.{Text, codes}
use nats_oidc_callout.Config.{liveness_path, readiness_path}

-- `DefaultPath`
abbrev pub default_path : Text
default_path = codes "/metrics"

-- The path that `Serve` routes to the metrics.
abbrev pub served_path : Text → Text
served_path path = if is_empty path then default_path else path

pub data Handler : Type 0 where
  metrics_handler liveness readiness : Handler

-- `newMux`: the patterns in the order of their registration.
unfoldable pub new_mux : Text → List (Text × Handler)
new_mux path =
    (path, metrics_handler) ∷ (liveness_path, liveness) ∷ (readiness_path, readiness) ∷ []

pub record Response : Type 0 where
  pub status : ℕ
  pub body : Text

abbrev pub fine : Response
fine = record { status = 200; body = codes "ok\n" }

-- `http.Error` ends the text with a line break.
abbrev pub not_ready : Response
not_ready = record { status = 503; body = codes "not ready\n" }

-- What `ready` answers; a nil `ready` is none.
abbrev pub ready_or : Option Bool → Bool
ready_or none = true
ready_or (some b) = b

-- The handlers; `exposition` is the answer of the Prometheus handler.
unfoldable pub respond : Response → Option Bool → Handler → Response
respond exposition ready metrics_handler = exposition
respond exposition ready liveness = fine
respond exposition ready readiness = if ready_or ready then fine else not_ready

-- How the server ends: its `Serve` fails, or the context is cancelled, and then `Shutdown` succeeds, or
-- fails and `Close` returns an error or none.
pub data Ended : Type 0 where
  serve_failed : Text → Ended
  drained : Ended
  forced : Option Text → Ended

-- The error of `Serve`
unfoldable pub serve_error : Ended → Option Text
serve_error (serve_failed e) = some e
serve_error drained = none
serve_error (forced e) = e
