-- ===== src/Service/Concurrency/Safety.antt =====
-- What the user JWTs of a running service say, from the configuration file to the answered request.
use nats_oidc_callout.Prelude.{◌≡◌, sym, some, List, ◌∷◌, ◌++◌, Result, ok, All, All-at, All-put}
use nats_oidc_callout.Prelude.Texts.{Text}
use nats_oidc_callout.Verifier.{OidcLaws}
use nats_oidc_callout.Callout.{Authorizer, Ruleset, Services, Moment, Request, Denied}
use nats_oidc_callout.Callout.Safety.{Safe, IsValidPolicy-Safe}
use nats_oidc_callout.Service.Rulesets.{
  IsConfigured, IsConfigured-IsValidPolicy, reload_config-IsConfigured,
}
use nats_oidc_callout.Service.Concurrency.Atomic.{alone, answer, authorize-alone}
use nats_oidc_callout.Service.Startup.{World, run}
use nats_oidc_callout.Service.Startup.Safety.{run-IsConfigured}
use nats_oidc_callout.Service.Concurrency
use nats_oidc_callout.Service.Concurrency.{
  Task, queued, loaded, answered, with_loaded, Step, arrives, loads, ends, reloads, initial, Reach,
  here, next,
}

-- What holds of a request at any time: its ruleset is one of a configuration, and its answer is the
-- one that this ruleset gives by itself.
abbrev Fine : Services → Text → Task → Type 0
Fine s path (queued req n) = Unit
Fine s path (loaded req n rs) = IsConfigured s.engine s.cel path rs
Fine s path (answered req rs t r) = IsConfigured s.engine s.cel path rs × (r ≡ answer s t rs req)

record Inv (s : Services) (path : Text) (w : Concurrency.World) : Type 0 where
  serving : IsConfigured s.engine s.cel path w.authorizer.state
  tasks : All (Fine s path) w.tasks

module _ (s : Services) (path : Text) where
  Step-Inv : {w v : Concurrency.World} → Step s path w v → Inv s path w → Inv s path v
  Step-Inv {w} (arrives req) h = record { serving = h.serving; tasks = (tt, h.tasks) }
  Step-Inv {w} (loads before req n after at) h = record {
    serving = h.serving;
    tasks =
        All-put (Fine s path) before (queued req n) (loaded req n w.authorizer.state) after
          h.serving (rw at at h.tasks);
  }
  Step-Inv {w} (ends before req n rs after t at) h =
      let tasks = rw at at h.tasks in
      let configured = All-at (Fine s path) before (loaded req n rs) after tasks in
      record {
        serving = h.serving;
        tasks =
            All-put (Fine s path) before (loaded req n rs) _ after
              (configured, authorize-alone s t w.authorizer rs req) tasks;
      }
  Step-Inv {w} (reloads env) h = record {
    serving = reload_config-IsConfigured s.engine s.cel path env w.authorizer h.serving;
    tasks = h.tasks;
  }

  Reach-Inv :
      {start : Authorizer} {w : Concurrency.World}
      → IsConfigured s.engine s.cel path start.state
      → Reach s path start w
      → Inv s path w
  Reach-Inv configured here = record { serving = configured; tasks = tt }
  Reach-Inv configured (next r step) = Step-Inv step (Reach-Inv configured r)

-- Where the answer to a request comes from.
pub record Answered (s : Services) (path : Text) (t : Moment) (rs : Ruleset) (req : Request)
    (r : Result Denied Text) : Type 0 where
  pub configured : IsConfigured s.engine s.cel path rs
  pub same : r ≡ answer s t rs req

pub answered-Answered :
    (s : Services) (world : World) (path : Text) (start : Authorizer) (w : Concurrency.World)
    (before after : List Task) (req : Request) (rs : Ruleset) (t : Moment) (r : Result Denied Text)
    → (run s.engine s.cel world path).authorizer ≡ some start
    → Reach s path start w
    → w.tasks ≡ before ++ (answered req rs t r ∷ after)
    → Answered s path t rs req r
answered-Answered s world path start w before after req rs t r started reached at =
    let inv = Reach-Inv s path (run-IsConfigured s.engine s.cel world path start started) reached in
    let (configured, same) =
      All-at (Fine s path) before (answered req rs t r) after (rw at at inv.tasks) in
    record { configured = configured; same = same }

-- From the configuration file to the user JWT: whatever file a service starts from, whatever its
-- reloads read and discover, and however they and the requests of its workers are interleaved, a user
-- JWT that answers a request belongs to the requesting user, rests on a payload that an issuer of the
-- ruleset loaded for that request signed and on an identity that has not expired, does not outlive it,
-- names the account of a rule of that ruleset that matches the identity and pins it or is
-- acknowledged as broad, and leaves no direction without a restriction, with go-oidc as documented.
pub answered-Safe :
    (s : Services) (world : World) (path : Text) (start : Authorizer) (w : Concurrency.World)
    (before after : List Task) (req : Request) (rs : Ruleset) (t : Moment) (user_jwt : Text)
    → OidcLaws s.oidc
    → (run s.engine s.cel world path).authorizer ≡ some start
    → Reach s path start w
    → w.tasks ≡ before ++ (answered req rs t (ok user_jwt) ∷ after)
    → Safe s t rs.verifier rs.policy req user_jwt
answered-Safe s world path start w before after req rs t user_jwt laws started r at =
    let a =
      answered-Answered s world path start w before after req rs t (ok user_jwt) started r at in
    IsValidPolicy-Safe s t (alone rs) req user_jwt laws
      (IsConfigured-IsValidPolicy s.engine s.cel path rs a.configured) (sym a.same)
