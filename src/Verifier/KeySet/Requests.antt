-- ===== src/Verifier/KeySet/Requests.antt =====
-- Concurrent calls of `VerifySignature` in internal/verifier/keyset.go: each call takes the lock
-- several times and waits for a fetch that another call may have started. A step is one locked block,
-- one wake-up or one end of a fetch.
pub mod Calls
pub mod Stages
pub mod Refinement
pub mod Published
pub mod Awaited
pub mod Rotation
use nats_oidc_callout.Prelude.{
  ℕ, ◌+◌, ◌-◌, ◌≤◌, ◌<◌, ◌≡◌, Bool, true, Option, none, some, List, [], ◌∷◌, ◌++◌, Result, ok, err,
  length, get_elem?,
}
use nats_oidc_callout.Prelude.Texts.{Text}
use nats_oidc_callout.Verifier.KeySet.{
  Client, Jwk, Jws, Jose, KeySet, Start, throttled, joined, started, SignatureError, malformed_jwt,
  several_signatures, refresh_throttled, fetch_failed, timed_out, verify_with, start_refresh,
  finish_refresh, fetch, retry,
}
use nats_oidc_callout.Verifier.KeySet.Throttle
use nats_oidc_callout.Verifier.KeySet.Throttle.{after_miss}

-- go-jose, the JSON decoder of key sets, and the responses that a client may get from an address.
pub record Outside : Type 0 where
  pub jose : Jose
  pub decode : Text → Option (List Jwk)
  pub serves : Client → Text → ℕ × Text → Bool

-- The token of a call whose key is not cached, as parsed, with the keys that it was tried on.
pub record Miss : Type 0 where
  pub raw : Text
  pub jws : Jws
  pub kid : Text
  pub keys : List Jwk

-- A call: not begun; at `refresh`; waiting for the fetch with a number, counted from 0; behind a
-- fetch that succeeded; or answered.
pub data Task : Type 0 where
  asked : Text → Task
  missed : Miss → Task
  waiting : Miss → ℕ → Task
  refreshed : Miss → Task
  answered : Text → Result SignatureError Text → Task

-- The key set with its goroutines, the fetches that ended, the oldest first, and the calls.
pub record World : Type 0 where
  pub throttle : Throttle.World
  pub landed : List (Option (List Jwk))
  pub tasks : List Task

unfoldable pub look_parsed : Jose → Text → Jws → List Text → List Jwk → Task
look_parsed jose raw jws (kid ∷ []) keys = elim (verify_with jose jws kid keys) [
  | some payload ↦ answered raw (ok payload)
  | none ↦ missed (record { raw = raw; jws = jws; kid = kid; keys = keys })
]
look_parsed jose raw jws _ keys = answered raw (err several_signatures)

-- The first attempt of `VerifySignature`.
unfoldable pub look : Jose → List Text → Text → List Jwk → Task
look jose algs raw keys = elim (jose.parse_signed raw algs) [
  | none ↦ answered raw (err malformed_jwt)
  | some jws ↦ look_parsed jose raw jws jws.key_ids keys
]

-- `refresh` behind its locked part: a call waits for the fetch in flight.
unfoldable pub wait_for : Miss → ℕ → Start → Task
wait_for m g throttled = answered m.raw (err refresh_throttled)
wait_for m g joined = waiting m g
wait_for m g started = waiting m g

-- The end of `refresh` when the fetch is done.
unfoldable pub wake : Miss → Option (List Jwk) → Task
wake m none = answered m.raw (err fetch_failed)
wake m (some _) = refreshed m

-- The second attempt of `VerifySignature`.
abbrev pub look_again : Jose → Miss → List Jwk → Task
look_again jose m keys = answered m.raw (retry jose m.jws m.kid (ok tt) keys)

-- A request fails, or it gets a response from the key set's address with the key set's client.
abbrev pub may_answer : Outside → KeySet → Option (ℕ × Text) → Bool
may_answer out k none = true
may_answer out k (some response) = out.serves k.client k.jwks_url response

pub data Step (out : Outside) : World → World → Type 0 where
  asks : {w : World} (raw : Text) → Step out w (record w { tasks = asked raw ∷ w.tasks })
  looks :
      {w : World} (before : List Task) (raw : Text) (after : List Task)
      → w.tasks ≡ before ++ (asked raw ∷ after)
      → Step out w (record w {
        tasks =
            before ++ (look out.jose w.throttle.key_set.algs raw w.throttle.key_set.keys ∷ after);
      })
  refreshes :
      {w : World} (before : List Task) (m : Miss) (after : List Task) (now : ℕ)
      → w.tasks ≡ before ++ (missed m ∷ after)
      → w.throttle.clock ≤ now
      → Step out w (record w {
        throttle = after_miss now (start_refresh now w.throttle.key_set) w.throttle;
        tasks =
            before
            ++ (wait_for m (length w.landed) (start_refresh now w.throttle.key_set).1 ∷ after);
      })
  gives_up :
      {w : World} (before : List Task) (m : Miss) (g : ℕ) (after : List Task)
      → w.tasks ≡ before ++ (waiting m g ∷ after)
      → Step out w (record w { tasks = before ++ (answered m.raw (err timed_out) ∷ after) })
  lands :
      {w : World} (response : Option (ℕ × Text)) (later : ℕ)
      → w.throttle.clock ≤ later
      → 0 < w.throttle.running
      → may_answer out w.throttle.key_set response ≡ true
      → Step out w (record w {
        throttle = record w.throttle {
          key_set = finish_refresh (fetch out.decode response) w.throttle.key_set;
          clock = later;
          running = w.throttle.running - 1;
        };
        landed = w.landed ++ (fetch out.decode response ∷ []);
      })
  wakes :
      {w : World} (before : List Task) (m : Miss) (g : ℕ) (after : List Task)
      (fetched : Option (List Jwk))
      → w.tasks ≡ before ++ (waiting m g ∷ after)
      → get_elem? w.landed g ≡ some fetched
      → Step out w (record w { tasks = before ++ (wake m fetched ∷ after) })
  looks_again :
      {w : World} (before : List Task) (m : Miss) (after : List Task)
      → w.tasks ≡ before ++ (refreshed m ∷ after)
      → Step out w
          (record w { tasks = before ++ (look_again out.jose m w.throttle.key_set.keys ∷ after) })

abbrev pub initial : KeySet → ℕ → World
initial k now = record { throttle = Throttle.initial k now; landed = []; tasks = [] }

pub data Reach (out : Outside) (start : World) : World → Type 0 where
  here : Reach out start start
  next : {u v : World} → Reach out start u → Step out u v → Reach out start v
