-- ===== src/Examples/Calls.antt =====
-- Calls on a running key set.
use nats_oidc_callout.Prelude.{
  ℕ, ◌-◌, ◌≤◌, ◌<◌, ◌≡◌, ◌⊎◌, refl, true, Option, some, List, [], ◌∷◌, ok, arith, get_elem?, length,
}
use nats_oidc_callout.Prelude.Texts.{Text, codes}
use nats_oidc_callout.Prelude.Int.{pos}
use nats_oidc_callout.Verifier.KeySet.{
  Jwk, KeySet, new_key_set, start_refresh, finish_refresh, fetch, verify_with, retry,
}
use nats_oidc_callout.Verifier.KeySet.Throttle.{Spaced, after_miss}
use nats_oidc_callout.Verifier.KeySet.Requests.{
  Outside, Miss, waiting, missed, answered, refreshed, asked, World, look, look_parsed, look_again,
  wait_for, wake, asks, looks, refreshes, lands, wakes, looks_again, Reach, here, next, initial,
}
use nats_oidc_callout.Verifier.KeySet.Requests.Calls.{IsSequential}
use nats_oidc_callout.Verifier.KeySet.Requests.Refinement.{answered-IsSequential}
use nats_oidc_callout.Verifier.KeySet.Signatures.{Verified, by_first}
use nats_oidc_callout.Verifier.KeySet.Requests.Rotation.{waiting-accepts}
use nats_oidc_callout.Verifier.KeySet.Requests.Awaited.{calls-Spaced, waiting-IsAwaited}
use nats_oidc_callout.Examples.Fixtures.{client, key_set, raw_token}

-- Every token names no key, and every key verifies it, with an empty object.
abbrev pub out : Outside
out = record {
  jose = record {
    parse_signed = λ raw _. some (record { token = raw; key_ids = [] ∷ [] });
    verify = λ jws _. some (codes "{}");
  };
  decode = λ body. some (record { key_id = codes "k"; material = body } ∷ []);
  serves = λ http url response. true;
}

abbrev algs : List Text
algs = codes "RS256" ∷ []

abbrev pub new_keys : KeySet
new_keys = new_key_set (codes "keys") client algs (pos 0)

pub new_keys_lem : new_keys ≡ key_set
unfolding new_key_set
new_keys_lem = refl

abbrev response : Option (ℕ × Text)
response = some (200, codes "body")

abbrev call_miss : Text → Miss
call_miss raw = record {
  raw = raw;
  jws = record { token = raw; key_ids = [] ∷ [] };
  kid = [];
  keys = new_keys.keys;
}

abbrev arrived : Text → World
arrived raw = record (initial new_keys 100) { tasks = asked raw ∷ [] }

abbrev tried : Text → World
tried raw = record (arrived raw) { tasks = look out.jose new_keys.algs raw new_keys.keys ∷ [] }

is_missed : (raw : Text) → (tried raw).tasks ≡ missed (call_miss raw) ∷ []
unfolding look look_parsed verify_with new_key_set
is_missed raw = refl

abbrev fetching : Text → World
fetching raw = record (tried raw) {
  throttle = after_miss 105 (start_refresh 105 new_keys) (initial new_keys 100).throttle;
  tasks = wait_for (call_miss raw) 0 (start_refresh 105 new_keys).1 ∷ [];
}

pub is_waiting : (raw : Text) → (fetching raw).tasks ≡ waiting (call_miss raw) 0 ∷ []
unfolding wait_for start_refresh new_key_set
is_waiting raw = refl

on_time : 100 ≤ 105
on_time = omega arith

pub fetching_reached : (raw : Text) → Reach out (initial new_keys 100) (fetching raw)
fetching_reached raw =
    let one : Reach out (initial new_keys 100) (arrived raw) = next here (asks raw) in
    let two : Reach out (initial new_keys 100) (tried raw) = next one (looks [] raw [] refl) in
    next two (refreshes [] (call_miss raw) [] 105 (is_missed raw) on_time)

abbrev fetched : Text → World
fetched raw = record {
  throttle = record (fetching raw).throttle {
    key_set = finish_refresh (fetch out.decode response) (fetching raw).throttle.key_set;
    clock = 107;
    running = (fetching raw).throttle.running - 1;
  };
  landed = fetch out.decode response ∷ [];
  tasks = (fetching raw).tasks;
}

later : (raw : Text) → (fetching raw).throttle.clock ≤ 107
unfolding start_refresh new_key_set after_miss
later raw = omega arith

one_runs : (raw : Text) → 0 < (fetching raw).throttle.running
unfolding start_refresh new_key_set after_miss
one_runs raw = omega arith

abbrev woken : Text → World
woken raw = record (fetched raw) { tasks = wake (call_miss raw) (fetch out.decode response) ∷ [] }

is_refreshed : (raw : Text) → (woken raw).tasks ≡ refreshed (call_miss raw) ∷ []
unfolding wake fetch
is_refreshed raw = refl

abbrev pub verified : Text → World
verified raw = record (woken raw) {
  tasks = look_again out.jose (call_miss raw) (fetched raw).throttle.key_set.keys ∷ [];
}

pub is_answered : (raw : Text) → (verified raw).tasks ≡ answered raw (ok (codes "{}")) ∷ []
unfolding retry finish_refresh fetch verify_with start_refresh new_key_set after_miss
is_answered raw = refl

pub verified_reached : (raw : Text) → Reach out (initial new_keys 100) (verified raw)
verified_reached raw =
    let one : Reach out (initial new_keys 100) (fetched raw) =
      next (fetching_reached raw) (lands response 107 (later raw) (one_runs raw) refl) in
    let two : Reach out (initial new_keys 100) (woken raw) =
      next one (wakes [] (call_miss raw) 0 [] (fetch out.decode response) (is_waiting raw) refl) in
    next two (looks_again [] (call_miss raw) [] (is_refreshed raw))

answered-IsSequential_example :
    IsSequential out.jose new_keys (verified raw_token).landed raw_token (ok (codes "{}"))
answered-IsSequential_example =
    answered-IsSequential out new_keys 100 (verified raw_token) [] [] raw_token (ok (codes "{}"))
      (verified_reached raw_token) (is_answered raw_token)

no_keys : new_keys.keys ≡ []
unfolding new_key_set
no_keys = refl

calls-Spaced_example :
    ((verified raw_token).throttle.running ≤ 1)
    × Spaced new_keys.interval (verified raw_token).throttle.starts
calls-Spaced_example =
    calls-Spaced out (codes "keys") client algs (pos 0) 100 (verified raw_token)
      (verified_reached raw_token)

waiting-IsAwaited_example :
    ((end : Option (List Jwk)) × (get_elem? (fetching raw_token).landed 0 ≡ some end))
    ⊎ (((fetching raw_token).throttle.running ≡ 1) × (0 ≡ length (fetching raw_token).landed))
waiting-IsAwaited_example =
    waiting-IsAwaited out (codes "keys") client algs (pos 0) 100 (fetching raw_token) [] []
      (call_miss raw_token) 0 (fetching_reached raw_token) (is_waiting raw_token)

abbrev published : List Jwk
published = record { key_id = codes "k"; material = codes "body" } ∷ []

fetch_brings : fetch out.decode response ≡ some published
unfolding fetch
fetch_brings = refl

verifies :
    Verified out.jose (call_miss raw_token).jws (call_miss raw_token).kid (codes "{}") published
verifies = by_first refl refl

waiting-accepts_example :
    (v : World) × (found : Text) × Reach out (initial new_keys 100) v
    × (v.tasks ≡ answered raw_token (ok found) ∷ [])
waiting-accepts_example =
    waiting-accepts out (initial new_keys 100) (fetching raw_token) [] [] (call_miss raw_token)
      response published (codes "{}") (fetching_reached raw_token) (is_waiting raw_token)
      (one_runs raw_token) refl fetch_brings verifies
