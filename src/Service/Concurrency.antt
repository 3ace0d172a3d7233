-- ===== src/Service/Concurrency.antt =====
-- Requests and reloads at the same time: internal/callout/callout.go, whose `Authorize` runs in many
-- workers, with cmd/nats-oidc-callout/main.go, whose `watchReloads` swaps the ruleset under them. A
-- worker loads the ruleset in one step and does the rest of its request in another, the updates of the
-- metrics included: each counter changes by itself in the program, and the order of these changes is not
-- modelled. What the key sets answer is the request's own `Moment`: the key sets that requests share,
-- where one request's miss may start or throttle another's refresh, are in Verifier/KeySet/Requests.
pub mod Atomic
pub mod Safety
pub mod Origin
use nats_oidc_callout.Prelude.{ℕ, ◌≡◌, none, List, [], ◌∷◌, ◌++◌, Result, length}
use nats_oidc_callout.Prelude.Texts.{Text}
use nats_oidc_callout.Callout.{Authorizer, Ruleset, Services, Moment, Request, Denied, authorize}
use nats_oidc_callout.Service.{Environment, reload_config}

-- A request: not begun, with the number of rulesets so far at its arrival; with the ruleset that
-- `Authorize` loaded; or answered, with what it met and the answer.
pub data Task : Type 0 where
  queued : Request → ℕ → Task
  loaded : Request → ℕ → Ruleset → Task
  answered : Request → Ruleset → Moment → Result Denied Text → Task

-- The shared authorizer, the rulesets so far with the current one in front, and the requests.
pub record World : Type 0 where
  pub authorizer : Authorizer
  pub history : List Ruleset
  pub tasks : List Task

-- The rest of `Authorize` behind the load: the loaded ruleset, and the metrics as they are by then.
abbrev pub with_loaded : Authorizer → Ruleset → Authorizer
with_loaded a rs = record a { state = rs }

-- A request arrives, a worker loads the ruleset for one, a worker ends one, or a SIGHUP is handled.
pub data Step (s : Services) (path : Text) : World → World → Type 0 where
  arrives :
      {w : World} (req : Request)
      → Step s path w (record w { tasks = queued req (length w.history) ∷ w.tasks })
  loads :
      {w : World} (before : List Task) (req : Request) (n : ℕ) (after : List Task)
      → w.tasks ≡ before ++ (queued req n ∷ after)
      → Step s path w (record w { tasks = before ++ (loaded req n w.authorizer.state ∷ after) })
  ends :
      {w : World} (before : List Task) (req : Request) (n : ℕ) (rs : Ruleset) (after : List Task)
      (t : Moment)
      → w.tasks ≡ before ++ (loaded req n rs ∷ after)
      → Step s path w (record w {
        authorizer = record w.authorizer {
          metrics = (authorize s t (with_loaded w.authorizer rs) req).0.metrics;
        };
        tasks =
            before
            ++ (answered req rs t (authorize s t (with_loaded w.authorizer rs) req).1 ∷ after);
      })
  reloads :
      {w : World} (env : Environment)
      → Step s path w (record w {
        authorizer = (reload_config s.engine s.cel path env w.authorizer).0;
        history = (reload_config s.engine s.cel path env w.authorizer).0.state ∷ w.history;
      })

abbrev pub initial : Authorizer → World
initial start = record { authorizer = start; history = start.state ∷ []; tasks = [] }

pub data Reach (s : Services) (path : Text) (start : Authorizer) : World → Type 0 where
  here : Reach s path start (initial start)
  next : {w v : World} → Reach s path start w → Step s path w v → Reach s path start v
