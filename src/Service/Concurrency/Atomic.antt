-- ===== src/Service/Concurrency/Atomic.antt =====
-- The specification of concurrent requests, in which a request is answered in one step, and how the
-- workers relate to it.
use nats_oidc_callout.Prelude.{
  ℕ, suc, ◌≤◌, ◌≡◌, refl, ap, ◌∙◌, arith, none, List, [], ◌∷◌, ◌++◌, map, Result, length, All,
  All-at, All-put, All-map, map-append, Bool-cases, Result-cases, Option-cases, inl, inr, is_empty,
}
use nats_oidc_callout.Prelude.Texts.{Text}
use nats_oidc_callout.Callout.{
  Authorizer, Ruleset, Services, Moment, Request, Denied, authorize, UserClaims, sign, user_claims,
  default_verify_timeout,
}
use nats_oidc_callout.Authz.Policy.{evaluate}
use nats_oidc_callout.Verifier.{verify}
use nats_oidc_callout.Service.{reload_config}
use nats_oidc_callout.Service.Concurrency.{
  Task, queued, loaded, answered, World, with_loaded, Step, arrives, loads, ends, reloads, Reach,
  here, next,
}

-- An authorizer that holds the ruleset and nothing else.
abbrev pub alone : Ruleset → Authorizer
alone rs = record { state = rs; metrics = none; verify_timeout = default_verify_timeout }

-- What a ruleset answers by itself.
abbrev pub answer : Services → Moment → Ruleset → Request → Result Denied Text
answer s t rs req = (authorize s t (alone rs) req).1

-- The ruleset was in force at a time when there were `n` rulesets at least.
pub record IsInForce (n : ℕ) (rs : Ruleset) (history : List Ruleset) : Type 0 where
  pub newer : List Ruleset
  pub older : List Ruleset
  pub order : history ≡ newer ++ (rs ∷ older)
  pub since : n ≤ suc (length older)

pub data Status : Type 0 where
  waiting : Request → ℕ → Status
  done : Request → Result Denied Text → Status

pub record Abstract : Type 0 where
  pub history : List Ruleset
  pub tasks : List Status

-- The specification: a request arrives, the ruleset is replaced, or a request is answered at once, by
-- one ruleset that was in force at some time since its arrival, on what it met outside its code.
pub data AtomicStep (s : Services) : Abstract → Abstract → Type 0 where
  enters :
      {a : Abstract} (req : Request)
      → AtomicStep s a (record a { tasks = waiting req (length a.history) ∷ a.tasks })
  replaces : {a : Abstract} (rs : Ruleset) → AtomicStep s a (record a { history = rs ∷ a.history })
  answers :
      {a : Abstract} (before : List Status) (req : Request) (n : ℕ) (after : List Status)
      (rs : Ruleset) (t : Moment)
      → a.tasks ≡ before ++ (waiting req n ∷ after)
      → IsInForce n rs a.history
      → AtomicStep s a (record a { tasks = before ++ (done req (answer s t rs req) ∷ after) })

pub data AtomicReach (s : Services) (rs : Ruleset) : Abstract → Type 0 where
  at_start : AtomicReach s rs (record { history = rs ∷ []; tasks = [] })
  onward : {a b : Abstract} → AtomicReach s rs a → AtomicStep s a b → AtomicReach s rs b

-- What the specification sees of a request: a load is not seen.
abbrev pub status : Task → Status
status (queued req n) = waiting req n
status (loaded req n rs) = waiting req n
status (answered req rs t r) = done req r

abbrev pub abstract : World → Abstract
abstract w = record { history = w.history; tasks = map status w.tasks }

sign-alone :
    (s : Services) (t : Moment) (a b : Authorizer) (uc : UserClaims)
    → (sign s t a uc).1 ≡ (sign s t b uc).1
unfolding sign
sign-alone s t a b uc = elim (Option-cases (s.encode uc)) [
  | inl e ↦ rw (e, sign) refl
  | inr (user_jwt, e) ↦ rw (e, sign) refl
]

pub authorize-alone :
    (s : Services) (t : Moment) (a : Authorizer) (rs : Ruleset) (req : Request)
    → (authorize s t (with_loaded a rs) req).1 ≡ answer s t rs req
unfolding authorize
authorize-alone s t a rs req = elim (Bool-cases (is_empty req.token)) [
  | inl e ↦ ground arith
  | inr e ↦
      elim (Result-cases (verify s.codec s.oidc t.signature rs.verifier t.verified req.token)) [
        | inl (_, e') ↦ ground arith
        | inr (id, e') ↦ elim (Result-cases (evaluate s.engine s.cel t.evaluated rs.policy id)) [
          | inl (_, e'') ↦ ground arith
          | inr (d, e'') ↦
              ground (
                arith,
                sign-alone s t (with_loaded a rs) (alone rs) (user_claims req t.capped id d),
              )
        ]
      ]
]

-- What a request keeps true until it is answered: its ruleset was in force since its arrival.
abbrev pub Held : List Ruleset → Task → Type 0
Held history (queued req n) = n ≤ length history
Held history (loaded req n rs) = IsInForce n rs history
Held history (answered req rs t r) = Unit

Held-later :
    (history : List Ruleset) (rs : Ruleset) (x : Task) → Held history x → Held (rs ∷ history) x
Held-later history rs (queued req n) h = omega (arith, h)
Held-later history rs (loaded req n old) h = record {
  newer = rs ∷ h.newer;
  older = h.older;
  order = ap (λ l. rs ∷ l) h.order;
  since = h.since;
}
Held-later history rs (answered req old t r) h = tt

pub record Inv (w : World) : Type 0 where
  pub past : List Ruleset
  pub current : w.history ≡ w.authorizer.state ∷ past
  pub held : All (Held w.history) w.tasks

current-Held :
    (w : World) (past : List Ruleset) (req : Request) (n : ℕ)
    → w.history ≡ w.authorizer.state ∷ past
    → n ≤ length w.history
    → IsInForce n w.authorizer.state w.history
current-Held w past req n current h = record {
  newer = [];
  older = past;
  order = current;
  since = rw current at h;
}

Step-Inv : {s : Services} {path : Text} {w v : World} → Step s path w v → Inv w → Inv v
Step-Inv {s} {path} {w} (arrives req) inv = record {
  past = inv.past;
  current = inv.current;
  held = (omega arith, inv.held);
}
Step-Inv {s} {path} {w} (loads before req n after at) inv =
    let held = rw at at inv.held in
    record {
      past = inv.past;
      current = inv.current;
      held =
          All-put (Held w.history) before (queued req n) (loaded req n w.authorizer.state) after
            (current-Held w inv.past req n inv.current
              (All-at (Held w.history) before (queued req n) after held))
            held;
    }
Step-Inv {s} {path} {w} (ends before req n rs after t at) inv = record {
  past = inv.past;
  current = inv.current;
  held = All-put (Held w.history) before (loaded req n rs) _ after tt (rw at at inv.held);
}
Step-Inv {s} {path} {w} (reloads env) inv = record {
  past = w.history;
  current = refl;
  held =
      let rs = (reload_config s.engine s.cel path env w.authorizer).0.state in
      All-map (Held w.history) (Held (rs ∷ w.history)) (Held-later w.history rs) w.tasks inv.held;
}

map-status-at :
    (tasks before : List Task) (x : Task) (after : List Task)
    → tasks ≡ before ++ (x ∷ after)
    → map status tasks ≡ map status before ++ (status x ∷ map status after)
map-status-at tasks before x after at = ap (map status) at ∙ map-append status before (x ∷ after)

-- One step of the workers is one step of the specification, or none.
module _ (s : Services) (path : Text) (start : Authorizer) where
  Step-atomic :
      {w v : World}
      → Step s path w v
      → Inv w
      → AtomicReach s start.state (abstract w)
      → AtomicReach s start.state (abstract v)
  Step-atomic {w} (arrives req) inv r = onward r (enters req)
  Step-atomic {w} (loads before req n after at) inv r =
      rw (map-append status before (loaded req n w.authorizer.state ∷ after))
        (rw (map-status-at w.tasks before (queued req n) after at) at r)
  Step-atomic {w} (ends before req n rs after t at) inv r =
      let served = All-at (Held w.history) before (loaded req n rs) after (rw at at inv.held) in
      rw
        (
          map-append status before
              (answered req rs t (authorize s t (with_loaded w.authorizer rs) req).1 ∷ after),
          authorize-alone s t w.authorizer rs req,
        )
        (onward r (
          answers (map status before) req n (map status after) rs t
            (map-status-at w.tasks before (loaded req n rs) after at) served))
  Step-atomic {w} (reloads env) inv r =
      onward r (replaces (reload_config s.engine s.cel path env w.authorizer).0.state)

pub Reach-Inv :
    {s : Services} {path : Text} {start : Authorizer} {w : World} → Reach s path start w → Inv w
Reach-Inv {start = start} here = record { past = []; current = refl; held = tt }
Reach-Inv (next r step) = Step-Inv step (Reach-Inv r)

-- Requests that are answered by any number of workers, while reloads swap the ruleset under them, are
-- answered as if each was answered at once, by one ruleset that was in force at some time between its
-- arrival and its answer, on the key sets' answers and the readings of the clock that the request met. No
-- answer mixes two rulesets, and none depends on the metrics.
pub Reach-atomic :
    {s : Services} {path : Text} {start : Authorizer} {w : World}
    → Reach s path start w
    → AtomicReach s start.state (abstract w)
Reach-atomic here = at_start
Reach-atomic {s} {path} {start} (next r step) =
    Step-atomic s path start step (Reach-Inv r) (Reach-atomic r)
