-- ===== src/Verifier/KeySet/Throttle.antt =====
-- How often the keys of an issuer are fetched, for any sequence of misses and ends of fetches.
use nats_oidc_callout.Prelude.{
  ℕ, suc, ◌+◌, ◌-◌, ◌≤◌, ◌<◌, ◌≡◌, ◌≢◌, refl, Bool, true, false, Option, none, some, List, [], ◌∷◌,
  arith, ◌⊎◌, is_empty, Bool-cases, inl, inr,
}
use nats_oidc_callout.Verifier.KeySet.{
  Jwk, Client, KeySet, Start, throttled, joined, started, start_refresh, finish_refresh, too_early,
  new_key_set,
}
use nats_oidc_callout.Prelude.Int.{ℤ}
use nats_oidc_callout.Prelude.Texts.{Text}

-- A key set with its clock, the number of fetching goroutines that run, and the times at which the
-- fetches were started, the latest one first.
pub record World : Type 0 where
  pub key_set : KeySet
  pub clock : ℕ
  pub running : ℕ
  pub starts : List ℕ

-- What a miss does to the world: a fetch that is started is one more goroutine.
unfoldable pub after_miss : ℕ → KeySet × Start → World → World
after_miss now (k, started) w = record {
  key_set = k;
  clock = now;
  running = suc w.running;
  starts = now ∷ w.starts;
}
after_miss now (k, _) w = record w { key_set = k; clock = now }

-- A request misses at a later time, or a goroutine that runs ends with keys or without.
pub data Step : World → World → Type 0 where
  miss :
      {w : World} (now : ℕ)
      → w.clock ≤ now
      → Step w (after_miss now (start_refresh now w.key_set) w)
  done :
      {w : World} (fetched : Option (List Jwk)) (later : ℕ)
      → w.clock ≤ later
      → 0 < w.running
      → Step w (record w {
        key_set = finish_refresh fetched w.key_set;
        clock = later;
        running = w.running - 1;
      })

-- A world in which nothing was fetched yet.
abbrev pub initial : KeySet → ℕ → World
initial k now = record { key_set = k; clock = now; running = 0; starts = [] }

pub data Reach (w : World) : World → Type 0 where
  here : Reach w w
  next : {u v : World} → Reach w u → Step u v → Reach w v

-- Consecutive starts lie at least the interval apart.
abbrev pub Spaced : ℕ → List ℕ → Type 0
Spaced interval [] = Unit
Spaced interval (t ∷ []) = Unit
Spaced interval (t ∷ u ∷ ts) = (u + interval ≤ t) × Spaced interval (u ∷ ts)

-- The latest start, the zero time if there is none.
abbrev pub latest : List ℕ → Option ℕ
latest [] = none
latest (t ∷ ts) = some t

abbrev pub in_flight : Bool → ℕ
in_flight true = 1
in_flight false = 0

-- No start is later than a time.
abbrev pub Before : ℕ → List ℕ → Type 0
Before now [] = Unit
Before now (t ∷ ts) = t ≤ now

pub record Inv (interval : ℕ) (w : World) : Type 0 where
  same_interval : w.key_set.interval ≡ interval
  pub one_fetch : w.running ≡ in_flight w.key_set.inflight
  last : w.key_set.last_fetch ≡ latest w.starts
  spaced : Spaced interval w.starts
  past : Before w.clock w.starts

Spaced-cons :
    (interval now : ℕ) (ts : List ℕ)
    → Spaced interval ts
    → too_early now interval (latest ts) ≡ false
    → Spaced interval (now ∷ ts)
Spaced-cons interval now [] s h = tt
Spaced-cons interval now (t ∷ ts) s h = (ground arith, s)

Before-later : (now later : ℕ) (ts : List ℕ) → now ≤ later → Before now ts → Before later ts
Before-later now later [] h b = tt
Before-later now later (t ∷ ts) h b = omega arith

-- A miss that starts nothing changes the clock alone.
wait-Inv :
    {interval : ℕ} {w : World} (now : ℕ)
    → w.clock ≤ now
    → Inv interval w
    → Inv interval (record w { clock = now })
wait-Inv {w} now h inv = record {
  same_interval = inv.same_interval;
  one_fetch = inv.one_fetch;
  last = inv.last;
  spaced = inv.spaced;
  past = Before-later w.clock now w.starts h inv.past;
}

start-Inv :
    {interval : ℕ} {w : World} (now : ℕ)
    → w.key_set.inflight ≡ false
    → too_early now w.key_set.interval w.key_set.last_fetch ≡ false
    → Inv interval w
    → Inv interval (record {
      key_set = record w.key_set { inflight = true; last_fetch = some now };
      clock = now;
      running = suc w.running;
      starts = now ∷ w.starts;
    })
start-Inv {interval} {w} now idle late inv = record {
  same_interval = inv.same_interval;
  one_fetch = ground (arith, inv.one_fetch);
  last = refl;
  spaced = Spaced-cons interval now w.starts inv.spaced (rw (inv.same_interval, inv.last) at late);
  past = omega arith;
}

pub start_cases :
    (now : ℕ) (k : KeySet)
    → ((s : Start) × (start_refresh now k ≡ (k, s)) × (s ≢ started))
      ⊎ ((k.inflight ≡ false)
          × (too_early now k.interval k.last_fetch ≡ false)
          × (start_refresh now k ≡ (record k { inflight = true; last_fetch = some now }, started)))
unfolding start_refresh
start_cases now k = elim (Bool-cases k.inflight) [
  | inl busy ↦ elim (Bool-cases (is_empty k.keys)) [
    | inl e ↦ inl (joined, ground arith, λ h. ground arith)
    | inr e ↦ inl (throttled, ground arith, λ h. ground arith)
  ]
  | inr idle ↦ elim (Bool-cases (too_early now k.interval k.last_fetch)) [
    | inl e ↦ inl (throttled, ground arith, λ h. ground arith)
    | inr e ↦ inr (idle, e, ground arith)
  ]
]

pub not_started :
    (now : ℕ) (k : KeySet) (s : Start) (w : World)
    → s ≢ started
    → after_miss now (k, s) w ≡ record w { key_set = k; clock = now }
unfolding after_miss
not_started now k throttled w h = refl
not_started now k joined w h = refl
not_started now k started w h = absurd (h refl)

miss-Inv :
    {interval : ℕ} {w : World} (now : ℕ)
    → w.clock ≤ now
    → Inv interval w
    → Inv interval (after_miss now (start_refresh now w.key_set) w)
miss-Inv {interval} {w} now h inv = elim (start_cases now w.key_set) [
  | inl (s, e, ne) ↦ rw e (rw (not_started now w.key_set s w ne) (wait-Inv now h inv))
  | inr (idle, late, e) ↦ rw e (unfold after_miss in start-Inv now idle late inv)
]

done-Inv :
    {interval : ℕ} {w : World} (fetched : Option (List Jwk)) (later : ℕ)
    → w.clock ≤ later
    → Inv interval w
    → Inv interval (record w {
      key_set = finish_refresh fetched w.key_set;
      clock = later;
      running = w.running - 1;
    })
unfolding finish_refresh
done-Inv {w} none later h inv = record {
  same_interval = inv.same_interval;
  one_fetch = ground (arith, inv.one_fetch);
  last = inv.last;
  spaced = inv.spaced;
  past = Before-later w.clock later w.starts h inv.past;
}
done-Inv {w} (some keys) later h inv = record {
  same_interval = inv.same_interval;
  one_fetch = ground (arith, inv.one_fetch);
  last = inv.last;
  spaced = inv.spaced;
  past = Before-later w.clock later w.starts h inv.past;
}

Step-Inv : {interval : ℕ} {w v : World} → Step w v → Inv interval w → Inv interval v
Step-Inv (miss now h) inv = miss-Inv now h inv
Step-Inv (done fetched later h _) inv = done-Inv fetched later h inv

pub Reach-Inv : {interval : ℕ} {w v : World} → Reach w v → Inv interval w → Inv interval v
Reach-Inv here inv = inv
Reach-Inv (next r s) inv = Step-Inv s (Reach-Inv r inv)

pub initial-Inv :
    (url : Text) (client : Client) (algs : List Text) (interval : ℤ) (now : ℕ)
    → Inv
        (new_key_set url client algs interval).interval
        (initial (new_key_set url client algs interval) now)
unfolding new_key_set
initial-Inv url client algs interval now = record {
  same_interval = refl;
  one_fetch = refl;
  last = refl;
  spaced = tt;
  past = tt;
}

one_running : (b : Bool) (n : ℕ) → n ≡ in_flight b → n ≤ 1
one_running true n h = omega arith
one_running false n h = omega arith

-- Whatever misses and ends of fetches a new key set goes through, at most one fetch runs at a time,
-- and the starts of two consecutive fetches lie at least the refresh interval apart.
pub Reach-Spaced :
    (url : Text) (client : Client) (algs : List Text) (interval : ℤ) (now : ℕ) (w : World)
    → Reach (initial (new_key_set url client algs interval) now) w
    → (w.running ≤ 1) × Spaced (new_key_set url client algs interval).interval w.starts
Reach-Spaced url client algs interval now w r =
    let inv = Reach-Inv r (initial-Inv url client algs interval now) in
    (one_running w.key_set.inflight w.running inv.one_fetch, inv.spaced)

not_early :
    (interval clock now : ℕ) (ts : List ℕ)
    → Before clock ts
    → clock + interval ≤ now
    → too_early now interval (latest ts) ≡ false
not_early interval clock now [] b h = refl
not_early interval clock now (t ∷ ts) b h = ground arith

idle_lem : (b : Bool) (n : ℕ) → n ≡ in_flight b → n ≡ 0 → b ≡ false
idle_lem true n h z = absurd (omega arith)
idle_lem false n h z = refl

-- The throttle never shuts a key set for good: in every state that a new key set can reach, once no
-- fetch runs and the refresh interval has passed, the next miss starts a fetch.
pub Reach-started :
    (url : Text) (client : Client) (algs : List Text) (interval : ℤ) (begin : ℕ) (w : World)
    (now : ℕ)
    → Reach (initial (new_key_set url client algs interval) begin) w
    → w.running ≡ 0
    → w.clock + (new_key_set url client algs interval).interval ≤ now
    → (start_refresh now w.key_set).1 ≡ started
unfolding start_refresh
Reach-started url client algs interval begin w now r idle h =
    let inv = Reach-Inv r (initial-Inv url client algs interval begin) in
    let free = idle_lem w.key_set.inflight w.running inv.one_fetch idle in
    let late =
      not_early (new_key_set url client algs interval).interval w.clock now w.starts inv.past h in
    rw (free, inv.same_interval, inv.last, late) refl
