-- ===== src/Verifier/KeySet/Requests/Awaited.antt =====
-- The fetches that concurrent calls start, and the calls that wait for them.
use nats_oidc_callout.Prelude.{
  ℕ, ◌+◌, ◌≤◌, ◌<◌, ◌≡◌, refl, arith, ◌⊎◌, inl, inr, Bool, true, false, Option, none, some, List,
  [], ◌∷◌, ◌++◌, length, length-append, get_elem?, get_elem?-exists, All, All-at, All-put, All-map,
  Bool-cases, Option-cases, is_empty,
}
use nats_oidc_callout.Prelude.Texts.{Text}
use nats_oidc_callout.Prelude.Int.{ℤ}
use nats_oidc_callout.Verifier.KeySet.{
  Client, Jose, Jwk, Jws, KeySet, Start, throttled, joined, started, start_refresh, finish_refresh,
  too_early, new_key_set, fetch, verify_with,
}
use nats_oidc_callout.Verifier.KeySet.Throttle
use nats_oidc_callout.Verifier.KeySet.Throttle.{
  after_miss, start_cases, miss, done, Spaced, Reach-Spaced, in_flight, initial-Inv,
}
use nats_oidc_callout.Verifier.KeySet.Requests.{
  Outside, Miss, Task, asked, missed, waiting, refreshed, answered, World, look, look_parsed,
  wait_for, wake, Step, asks, looks, refreshes, gives_up, lands, wakes, looks_again, Reach, here,
  next, initial,
}
use nats_oidc_callout.Verifier.KeySet.Requests.Calls.{after_miss-key_set}

-- Seen from the key set alone, concurrent calls are misses and ends of fetches.
pub Reach-throttled :
    {out : Outside} {k : KeySet} {now : ℕ} {w : World}
    → Reach out (initial k now) w
    → Throttle.Reach (Throttle.initial k now) w.throttle
Reach-throttled here = Throttle.here
Reach-throttled (next r (asks _)) = Reach-throttled r
Reach-throttled (next r (looks _ _ _ _)) = Reach-throttled r
Reach-throttled (next r (refreshes _ _ _ now _ later)) =
    Throttle.next (Reach-throttled r) (miss now later)
Reach-throttled (next r (gives_up _ _ _ _ _)) = Reach-throttled r
Reach-throttled {out} (next r (lands response later after running _)) =
    Throttle.next (Reach-throttled r) (done (fetch out.decode response) later after running)
Reach-throttled (next r (wakes _ _ _ _ _ _ _)) = Reach-throttled r
Reach-throttled (next r (looks_again _ _ _ _)) = Reach-throttled r

-- The fetch that a call waits for has ended, or it is the one in flight.
abbrev Waits : ℕ → Bool → Task → Type 0
Waits n busy (waiting m g) = (g < n) ⊎ ((g ≡ n) × (busy ≡ true))
Waits n busy _ = Unit

abbrev AllWait : World → Type 0
AllWait w = All (Waits (length w.landed) w.throttle.key_set.inflight) w.tasks

Waits-busy : (n : ℕ) (busy : Bool) (x : Task) → Waits n busy x → Waits n true x
Waits-busy n busy (waiting m g) h = elim h [ inl e ↦ inl e | inr (e, _) ↦ inr (e, refl) ]
Waits-busy n busy (asked _) h = tt
Waits-busy n busy (missed _) h = tt
Waits-busy n busy (refreshed _) h = tt
Waits-busy n busy (answered _ _) h = tt

Waits-landed : (n : ℕ) (busy : Bool) (x : Task) → Waits n busy x → Waits (n + 1) false x
Waits-landed n busy (waiting m g) h = elim h [
  | inl e ↦ inl (omega arith)
  | inr (e, _) ↦ inl (omega arith)
]
Waits-landed n busy (asked _) h = tt
Waits-landed n busy (missed _) h = tt
Waits-landed n busy (refreshed _) h = tt
Waits-landed n busy (answered _ _) h = tt

look_parsed-Waits :
    (jose : Jose) (raw : Text) (jws : Jws) (kids : List Text) (keys : List Jwk) (n : ℕ)
    (busy : Bool)
    → Waits n busy (look_parsed jose raw jws kids keys)
unfolding look_parsed
look_parsed-Waits jose raw jws [] keys n busy = tt
look_parsed-Waits jose raw jws (_ ∷ _ ∷ _) keys n busy = tt
look_parsed-Waits jose raw jws (kid ∷ []) keys n busy =
    elim (Option-cases (verify_with jose jws kid keys)) [
      | inl e ↦ rw (e, look_parsed) tt
      | inr (_, e) ↦ rw (e, look_parsed) tt
    ]

look-Waits :
    (jose : Jose) (algs : List Text) (raw : Text) (keys : List Jwk) (n : ℕ) (busy : Bool)
    → Waits n busy (look jose algs raw keys)
unfolding look
look-Waits jose algs raw keys n busy = elim (Option-cases (jose.parse_signed raw algs)) [
  | inl e ↦ rw (e, look) tt
  | inr (jws, e) ↦ rw (e, look) (look_parsed-Waits jose raw jws jws.key_ids keys n busy)
]

wake-Waits :
    (m : Miss) (fetched : Option (List Jwk)) (n : ℕ) (busy : Bool) → Waits n busy (wake m fetched)
unfolding wake
wake-Waits m none n busy = tt
wake-Waits m (some keys) n busy = tt

-- A call that is not throttled waits for a fetch that is in flight behind its refresh.
start_refresh-busy :
    (now : ℕ) (k : KeySet)
    → ((start_refresh now k).1 ≡ throttled) ⊎ ((start_refresh now k).0.inflight ≡ true)
unfolding start_refresh
start_refresh-busy now k = elim (Bool-cases k.inflight) [
  | inl e ↦ elim (Bool-cases (is_empty k.keys)) [
    | inl e' ↦ inr (ground arith)
    | inr e' ↦ inl (ground arith)
  ]
  | inr e ↦ elim (Bool-cases (too_early now k.interval k.last_fetch)) [
    | inl e' ↦ inl (ground arith)
    | inr e' ↦ inr (ground arith)
  ]
]

wait_for-Waits :
    (m : Miss) (n : ℕ) (s : Start) (busy : Bool)
    → (s ≡ throttled) ⊎ (busy ≡ true)
    → Waits n busy (wait_for m n s)
unfolding wait_for
wait_for-Waits m n throttled busy h = tt
wait_for-Waits m n joined busy h = elim h [ inl e ↦ absurd (ground arith) | inr e ↦ inr (refl, e) ]
wait_for-Waits m n started busy h = elim h [ inl e ↦ absurd (ground arith) | inr e ↦ inr (refl, e) ]

refreshes-Waits :
    (n now : ℕ) (k : KeySet) (tasks : List Task)
    → All (Waits n k.inflight) tasks
    → All (Waits n (start_refresh now k).0.inflight) tasks
refreshes-Waits n now k tasks h = elim (start_cases now k) [
  | inl (_, e, _) ↦ rw e h
  | inr (_, _, e) ↦
      rw e (All-map (Waits n k.inflight) (Waits n true) (Waits-busy n k.inflight) tasks h)
]

after_miss-Waits :
    (n now : ℕ) (p : KeySet × Start) (t : Throttle.World) (tasks : List Task)
    → All (Waits n p.0.inflight) tasks
    → All (Waits n (after_miss now p t).key_set.inflight) tasks
after_miss-Waits n now (k, s) t tasks h = rw (after_miss-key_set now k s t) h

finish_refresh-idle :
    (fetched : Option (List Jwk)) (k : KeySet) → (finish_refresh fetched k).inflight ≡ false
unfolding finish_refresh
finish_refresh-idle none k = refl
finish_refresh-idle (some keys) k = refl

Step-AllWait : {out : Outside} {w v : World} → Step out w v → AllWait w → AllWait v
Step-AllWait (asks raw) h = (tt, h)
Step-AllWait {out} {w} (looks before raw after at) h =
    let k = w.throttle.key_set in
    All-put (Waits (length w.landed) k.inflight) before (asked raw) _ after
      (look-Waits out.jose k.algs raw k.keys (length w.landed) k.inflight) (rw at at h)
Step-AllWait {w = w} (refreshes before m after now at later) h =
    let n = length w.landed in
    let k = w.throttle.key_set in
    let p = start_refresh now k in
    after_miss-Waits n now p w.throttle _ (
      All-put (Waits n p.0.inflight) before (missed m) (wait_for m n p.1) after
        (wait_for-Waits m n p.1 p.0.inflight (start_refresh-busy now k))
        (refreshes-Waits n now k (before ++ (missed m ∷ after)) (rw at at h)))
Step-AllWait {w = w} (gives_up before m g after at) h =
    All-put (Waits (length w.landed) w.throttle.key_set.inflight) before (waiting m g) _ after tt
      (rw at at h)
Step-AllWait {out} {w} (lands response later _ _ _) h =
    let n = length w.landed in
    let k = w.throttle.key_set in
    rw
      (
        length-append w.landed (fetch out.decode response ∷ []),
        finish_refresh-idle (fetch out.decode response) k,
      )
      (All-map (Waits n k.inflight) (Waits (n + 1) false) (Waits-landed n k.inflight) w.tasks h)
Step-AllWait {w = w} (wakes before m g after fetched at _) h =
    let n = length w.landed in
    let busy = w.throttle.key_set.inflight in
    All-put (Waits n busy) before (waiting m g) _ after (wake-Waits m fetched n busy) (rw at at h)
Step-AllWait {w = w} (looks_again before m after at) h =
    All-put (Waits (length w.landed) w.throttle.key_set.inflight) before (refreshed m) _ after tt
      (rw at at h)

Reach-AllWait :
    {out : Outside} {k : KeySet} {now : ℕ} {w : World} → Reach out (initial k now) w → AllWait w
Reach-AllWait here = tt
Reach-AllWait (next r s) = Step-AllWait s (Reach-AllWait r)

-- However many calls verify tokens on a new key set at the same time, with known keys or not, at most
-- one fetch runs, and the starts of two consecutive fetches lie at least the refresh interval apart.
pub calls-Spaced :
    (out : Outside) (url : Text) (client : Client) (algs : List Text) (interval : ℤ) (begin : ℕ)
    (w : World)
    → Reach out (initial (new_key_set url client algs interval) begin) w
    → (w.throttle.running ≤ 1)
      × Spaced (new_key_set url client algs interval).interval w.throttle.starts
calls-Spaced out url client algs interval begin w r =
    Reach-Spaced url client algs interval begin w.throttle (Reach-throttled r)

-- No call waits in vain: the fetch that a waiting call waits for has ended, with an outcome that wakes
-- it, or it is the only one that runs, and the next to end.
pub waiting-IsAwaited :
    (out : Outside) (url : Text) (client : Client) (algs : List Text) (interval : ℤ) (begin : ℕ)
    (w : World) (before after : List Task) (m : Miss) (g : ℕ)
    → Reach out (initial (new_key_set url client algs interval) begin) w
    → w.tasks ≡ before ++ (waiting m g ∷ after)
    → ((fetched : Option (List Jwk)) × (get_elem? w.landed g ≡ some fetched))
      ⊎ ((w.throttle.running ≡ 1) × (g ≡ length w.landed))
waiting-IsAwaited out url client algs interval begin w before after m g r at =
    let all : AllWait w = Reach-AllWait r in
    let inv = Throttle.Reach-Inv (Reach-throttled r) (initial-Inv url client algs interval begin) in
    elim (All-at (Waits (length w.landed) w.throttle.key_set.inflight) before (waiting m g) after
      (rw at at all)) [
        | inl e ↦ inl (get_elem?-exists w.landed g e)
        | inr (e, busy) ↦ inr (rw busy at inv.one_fetch, e)
      ]
