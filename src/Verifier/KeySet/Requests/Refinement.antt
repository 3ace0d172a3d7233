-- ===== src/Verifier/KeySet/Requests/Refinement.antt =====
-- What a concurrent call answers, against the sequential `verify_signature`.
use nats_oidc_callout.Prelude.{
  ℕ, ◌≡◌, refl, inl, inr, Option, none, some, List, [], ◌∷◌, ◌++◌, Result, ok, All, All-at, All-put,
  All-map, length, get_elem?, get_elem?-last, get_elem?-append, get_elem?-snoc, get_elem?-bound,
  ◌≤◌, ◌⊎◌, arith,
}
use nats_oidc_callout.Prelude.Texts.{Text}
use nats_oidc_callout.Verifier.KeySet.{
  Jwk, KeySet, SignatureError, Start, start_refresh, finish_refresh, timed_out, fetch,
}
use nats_oidc_callout.Verifier.KeySet.Throttle.{after_miss}
use nats_oidc_callout.Verifier.KeySet.Requests.{
  Outside, Task, asked, missed, waiting, refreshed, answered, World, look, wait_for, wake, Step,
  asks, looks, refreshes, gives_up, lands, wakes, looks_again, Reach, here, next, initial,
}
use nats_oidc_callout.Verifier.KeySet.Requests.Calls.{
  Kept, Seen, Held, Succeeded, Refreshed, IsSequential, start_refresh-fields, after_miss-key_set,
  finish_refresh-Kept, Seen-append, Held-append,
}
use nats_oidc_callout.Verifier.KeySet.Requests.Stages.{
  look-Held, wait_for-Held, wake-Held, retried, failed,
}

-- The keys are those of the latest fetch that succeeded, or the first ones if none has.
abbrev Latest : KeySet → List (Option (List Jwk)) → List Jwk → Type 0
Latest k landed keys =
    (((g : ℕ) → ¬ Succeeded landed g) × (keys ≡ k.keys))
    ⊎ ((h : ℕ) × (get_elem? landed h ≡ some (some keys)) × ((g : ℕ) → Succeeded landed g → g ≤ h))

-- A fetch that failed is none that succeeded.
failed_fetch :
    (landed : List (Option (List Jwk))) (g : ℕ)
    → Succeeded (landed ++ (none ∷ [])) g
    → Succeeded landed g
failed_fetch landed g (keys, at) = elim (get_elem?-snoc landed none g at) [
  | inl e ↦ (keys, e)
  | inr (_, e) ↦ absurd (ground arith)
]

newest :
    (k : KeySet) (landed : List (Option (List Jwk))) (keys : List Jwk) (g : ℕ)
    → Succeeded landed g
    → Latest k landed keys
    → Refreshed landed (ok tt) keys
newest k landed keys g found (inl (nothing, _)) = absurd (nothing g found)
newest k landed keys g found (inr (h, at, last)) = (g, h, found, last g found, at)

pub record Inv (out : Outside) (k : KeySet) (w : World) : Type 0 where
  pub kept : Kept k w.throttle.key_set
  pub seen : Seen k w.landed w.throttle.key_set.keys
  pub latest : Latest k w.landed w.throttle.key_set.keys
  pub held : All (Held out.jose k w.landed) w.tasks

-- A call that goes on replaces its task.
put :
    {out : Outside} {k : KeySet} {w : World} (before : List Task) (x y : Task) (after : List Task)
    → w.tasks ≡ before ++ (x ∷ after)
    → (Held out.jose k w.landed x → Held out.jose k w.landed y)
    → Inv out k w
    → Inv out k (record w { tasks = before ++ (y ∷ after) })
put {out} {k} {w} before x y after at f inv =
    let held = rw at at inv.held in
    record {
      kept = inv.kept;
      seen = inv.seen;
      latest = inv.latest;
      held =
          All-put (Held out.jose k w.landed) before x y after
            (f (All-at (Held out.jose k w.landed) before x after held)) held;
    }

refreshes-Inv :
    {out : Outside} {k : KeySet} {w : World} (now : ℕ) (k' : KeySet) (s : Start)
    → Kept k k' × (k'.keys ≡ w.throttle.key_set.keys)
    → Inv out k w
    → Inv out k (record w { throttle = after_miss now (k', s) w.throttle })
refreshes-Inv {out} {k} {w} now k' s (kept, same) inv = record {
  kept = rw (after_miss-key_set now k' s w.throttle) kept;
  seen = rw (after_miss-key_set now k' s w.throttle, same) inv.seen;
  latest = rw (after_miss-key_set now k' s w.throttle, same) inv.latest;
  held = inv.held;
}

finished-Latest :
    (k k' : KeySet) (landed : List (Option (List Jwk))) (fetched : Option (List Jwk))
    → Latest k landed k'.keys
    → Latest k (landed ++ (fetched ∷ [])) (finish_refresh fetched k').keys
unfolding finish_refresh
finished-Latest k k' landed none (inl (empty, same)) =
    inl (λ g h. empty g (failed_fetch landed g h), same)
finished-Latest k k' landed none (inr (h, at, last)) =
    inr
      (h, get_elem?-append landed (none ∷ []) h at, λ g found. last g (failed_fetch landed g found))
finished-Latest k k' landed (some keys) h = inr (
  length landed,
  get_elem?-last landed (some keys),
  λ g found. elim (get_elem?-snoc landed (some keys) g found.1) [
    | inl e ↦ let before = get_elem?-bound landed g e in omega arith
    | inr (e, _) ↦ omega (arith, e)
  ],
)

finished-Seen :
    (k k' : KeySet) (landed : List (Option (List Jwk))) (fetched : Option (List Jwk))
    → Seen k landed k'.keys
    → Seen k (landed ++ (fetched ∷ [])) (finish_refresh fetched k').keys
unfolding finish_refresh
finished-Seen k k' landed none h = Seen-append k landed (none ∷ []) k'.keys h
finished-Seen k k' landed (some keys) h = inr (length landed, get_elem?-last landed (some keys))

Step-Inv : {out : Outside} {k : KeySet} {w v : World} → Step out w v → Inv out k w → Inv out k v
Step-Inv (asks raw) inv = record {
  kept = inv.kept;
  seen = inv.seen;
  latest = inv.latest;
  held = (tt, inv.held);
}
Step-Inv {out} {k} {w} (looks before raw after at) inv =
    let k' = w.throttle.key_set in
    put before (asked raw) (look out.jose k'.algs raw k'.keys) after at
      (λ _. look-Held out.jose k w.landed k'.algs raw k'.keys inv.kept.algs inv.seen) inv
Step-Inv {out} {k} {w} (refreshes before m after now at later) inv =
    let (k', s) = start_refresh now w.throttle.key_set in
    refreshes-Inv now k' s (start_refresh-fields now k w.throttle.key_set inv.kept) (
      put before (missed m) (wait_for m (length w.landed) s) after at
        (wait_for-Held out.jose k w.landed m (length w.landed) s) inv)
Step-Inv {out} {k} {w} (gives_up before m g after at) inv =
    put before (waiting m g) _ after at
      (λ h. failed out.jose k w.landed m timed_out h (inr (inl refl))) inv
Step-Inv {out} {k} {w} (lands response later _ _ _) inv =
    let fetched = fetch out.decode response in
    record {
      kept = finish_refresh-Kept fetched k w.throttle.key_set inv.kept;
      seen = finished-Seen k w.throttle.key_set w.landed fetched inv.seen;
      latest = finished-Latest k w.throttle.key_set w.landed fetched inv.latest;
      held =
          All-map (Held out.jose k w.landed) (Held out.jose k (w.landed ++ (fetched ∷ [])))
            (Held-append out.jose k w.landed (fetched ∷ [])) w.tasks inv.held;
    }
Step-Inv {out} {k} {w} (wakes before m g after fetched at done) inv =
    put before (waiting m g) (wake m fetched) after at
      (wake-Held out.jose k w.landed m g fetched done) inv
Step-Inv {out} {k} {w} (looks_again before m after at) inv =
    put before (refreshed m) _ after at
      (λ h.
        retried out.jose k w.landed m (ok tt) w.throttle.key_set.keys h.0 inv.seen
          (newest k w.landed w.throttle.key_set.keys h.1 h.2 inv.latest))
      inv

pub Reach-Inv :
    {out : Outside} {k : KeySet} {now : ℕ} {w : World} → Reach out (initial k now) w → Inv out k w
Reach-Inv {k = k} here = record {
  kept = record { algs = refl; client = refl; jwks_url = refl };
  seen = inl refl;
  latest = inl (λ g h. let at = h.1 in cc, refl);
  held = tt;
}
Reach-Inv (next r s) = Step-Inv s (Reach-Inv r)

-- However the calls on a key set, the fetches that they start and their ends are interleaved, an
-- answer is that of the sequential signature check of the same token with the same algorithms, on keys
-- that the key set held at its start or a fetch brought. Either the check ends with it whatever a refresh
-- would bring; or it follows a refresh that was throttled, timed out, or failed with a fetch that failed; or
-- it follows a fetch that succeeded, and its second attempt has the keys of that fetch or of a later one.
pub answered-IsSequential :
    (out : Outside) (k : KeySet) (now : ℕ) (w : World) (before after : List Task) (raw : Text)
    (result : Result SignatureError Text)
    → Reach out (initial k now) w
    → w.tasks ≡ before ++ (answered raw result ∷ after)
    → IsSequential out.jose k w.landed raw result
answered-IsSequential out k now w before after raw result r at =
    All-at (Held out.jose k w.landed) before (answered raw result) after
      (rw at at (Reach-Inv r).held)
