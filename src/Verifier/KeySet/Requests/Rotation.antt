-- ===== src/Verifier/KeySet/Requests/Rotation.antt =====
-- How a call follows a rotation of its issuer's keys.
use nats_oidc_callout.Prelude.{
  ℕ, ◌-◌, ◌<◌, ◌≡◌, refl, ap, ◌∙◌, arith, true, Option, some, List, [], ◌∷◌, ◌++◌, ok, length,
  get_elem?-last,
}
use nats_oidc_callout.Prelude.Texts.{Text}
use nats_oidc_callout.Verifier.KeySet.{Jwk, KeySet, finish_refresh, fetch, retry}
use nats_oidc_callout.Verifier.KeySet.Signatures.{Verified, retry-Accepts}
use nats_oidc_callout.Verifier.KeySet.Requests.{
  Outside, Miss, Task, waiting, refreshed, answered, World, may_answer, wake, look_again, lands,
  wakes, looks_again, Reach, next,
}

-- The world when a fetch ends.
abbrev pub landed : Outside → World → Option (ℕ × Text) → World
landed out w response = record w {
  throttle = record w.throttle {
    key_set = finish_refresh (fetch out.decode response) w.throttle.key_set;
    running = w.throttle.running - 1;
  };
  landed = w.landed ++ (fetch out.decode response ∷ []);
}

finish_refresh-keys : (keys : List Jwk) (k : KeySet) → (finish_refresh (some keys) k).keys ≡ keys
unfolding finish_refresh
finish_refresh-keys keys k = refl

woken : (m : Miss) (keys : List Jwk) → wake m (some keys) ≡ refreshed m
unfolding wake
woken m keys = refl

-- A call that waits for the fetch in flight gets through: if the issuer's response holds a candidate key
-- that verifies the token, the call goes on, with nothing else in between, to answer with a payload.
pub waiting-accepts :
    (out : Outside) (start w : World) (before after : List Task) (m : Miss)
    (response : Option (ℕ × Text)) (keys : List Jwk) (payload : Text)
    → Reach out start w
    → w.tasks ≡ before ++ (waiting m (length w.landed) ∷ after)
    → 0 < w.throttle.running
    → may_answer out w.throttle.key_set response ≡ true
    → fetch out.decode response ≡ some keys
    → Verified out.jose m.jws m.kid payload keys
    → (v : World) × (found : Text) × Reach out start v
      × (v.tasks ≡ before ++ (answered m.raw (ok found) ∷ after))
waiting-accepts out start w before after m response keys payload r at runs given got verified =
    let fetched = fetch out.decode response in
    let u = landed out w response in
    let v = record u { tasks = before ++ (wake m fetched ∷ after) } in
    let one : Reach out start u =
      next r (lands response w.throttle.clock (omega arith) runs given) in
    let two : Reach out start v =
      next one
        (wakes before m (length w.landed) after fetched at (get_elem?-last w.landed fetched)) in
    let is_refreshed : wake m fetched ≡ refreshed m = rw got (woken m keys) in
    let at_refreshed : v.tasks ≡ before ++ (refreshed m ∷ after) =
      ap (λ x. before ++ (x ∷ after)) is_refreshed in
    let same : v.throttle.key_set.keys ≡ keys =
      rw got (finish_refresh-keys keys w.throttle.key_set) in
    let (found, accepts) = retry-Accepts out.jose m.jws m.kid keys payload verified in
    let result = ap (λ ks. retry out.jose m.jws m.kid (ok tt) ks) same ∙ accepts in
    (
      record v { tasks = before ++ (look_again out.jose m v.throttle.key_set.keys ∷ after) },
      found,
      next two (looks_again before m after at_refreshed),
      ap (λ x. before ++ (answered m.raw x ∷ after)) result,
    )
