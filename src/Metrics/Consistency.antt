-- ===== src/Metrics/Consistency.antt =====
-- The counters agree with one another.
use nats_oidc_callout.Prelude.{
  ℕ, ◌+◌, ◌≡◌, refl, false, Option, none, some, List, [], ◌∷◌, arith, length, if◌then◌else◌,
}
use nats_oidc_callout.Prelude.Texts.{Text, text_eq, text_eq_refl}
use nats_oidc_callout.Prelude.Maps.{lookup, insert, lookup-insert}
use nats_oidc_callout.Metrics.{
  Metrics, Reason, label, allowed, denied, count_at, inc, new, record_allowed, record_denied,
}

-- The sum over all labels.
abbrev pub total : List (Text × ℕ) → ℕ
total [] = 0
total ((l, n) ∷ counters) = n + total counters

pub total-inc :
    (l : Text) (counters : List (Text × ℕ)) → total (inc l counters) ≡ total counters + 1
unfolding inc insert lookup
total-inc l [] = omega arith
total-inc l ((k, n) ∷ counters) = ground (arith, total-inc l counters)

pub count_at-inc :
    (l k : Text) (counters : List (Text × ℕ))
    → count_at k (inc l counters)
      ≡ (if text_eq l k then count_at l counters + 1 else count_at k counters)
unfolding inc
count_at-inc l k counters = ground (arith, lookup-insert l k (count_at l counters + 1) counters)

-- As many durations as requests, and as many denials by reason as denied requests.
pub record IsConsistent (m : Metrics) : Type 0 where
  pub observed : length m.durations ≡ total m.requests
  pub by_result : total m.requests ≡ count_at allowed m.requests + count_at denied m.requests
  pub by_reason : total m.denials ≡ count_at denied m.requests

-- Metrics that are off are consistent.
abbrev pub AreConsistent : Option Metrics → Type 0
AreConsistent none = Unit
AreConsistent (some m) = IsConsistent m

pub new-IsConsistent : IsConsistent new
unfolding lookup text_eq
new-IsConsistent = record { observed = refl; by_result = refl; by_reason = refl }

allowed-ne-denied : text_eq allowed denied ≡ false
unfolding text_eq
allowed-ne-denied = refl

denied-ne-allowed : text_eq denied allowed ≡ false
unfolding text_eq
denied-ne-allowed = refl

pub record_allowed-IsConsistent :
    (m : Option Metrics) (elapsed : ℕ) → AreConsistent m → AreConsistent (record_allowed m elapsed)
unfolding record_allowed
record_allowed-IsConsistent none elapsed h = tt
record_allowed-IsConsistent (some m) elapsed h = record {
  observed = omega (arith, h.observed, total-inc allowed m.requests);
  by_result = ground (
    arith,
    h.by_result,
    total-inc allowed m.requests,
    count_at-inc allowed allowed m.requests,
    count_at-inc allowed denied m.requests,
    text_eq_refl allowed,
    allowed-ne-denied,
  );
  by_reason =
      ground (arith, h.by_reason, count_at-inc allowed denied m.requests, allowed-ne-denied);
}

pub record_denied-IsConsistent :
    (m : Option Metrics) (reason : Reason) (elapsed : ℕ)
    → AreConsistent m
    → AreConsistent (record_denied m reason elapsed)
unfolding record_denied
record_denied-IsConsistent none reason elapsed h = tt
record_denied-IsConsistent (some m) reason elapsed h = record {
  observed = omega (arith, h.observed, total-inc denied m.requests);
  by_result = ground (
    arith,
    h.by_result,
    total-inc denied m.requests,
    count_at-inc denied denied m.requests,
    count_at-inc denied allowed m.requests,
    text_eq_refl denied,
    denied-ne-allowed,
  );
  by_reason = ground (
    arith,
    h.by_reason,
    total-inc (label reason) m.denials,
    count_at-inc denied denied m.requests,
    text_eq_refl denied,
  );
}
