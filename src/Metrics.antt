-- ===== src/Metrics.antt =====
-- internal/metrics/metrics.go: the counters and the gauge. Prometheus is a parameter only in name: a counter
-- vector is a map from label to count, and the histogram is the list of its observations.
pub mod Consistency
pub mod Server
use nats_oidc_callout.Prelude.{
  ℕ, ◌+◌, Bool, true, false, ◌&&◌, if◌then◌else◌, Option, none, some, List, [], ◌∷◌,
}
use nats_oidc_callout.Prelude.Texts.{Text, codes}
use nats_oidc_callout.Prelude.Maps.{lookup, insert}

-- The denial reasons, values of the label `reason`.
pub data Reason : Type 0 where
  no_token verification_failed policy_no_match signing_failed : Reason

abbrev pub label : Reason → Text
label no_token = codes "no_token"
label verification_failed = codes "verification_failed"
label policy_no_match = codes "policy_no_match"
label signing_failed = codes "signing_failed"

abbrev pub allowed : Text
allowed = codes "allowed"

abbrev pub denied : Text
denied = codes "denied"

-- `Metrics`; `tracked` holds when the gauge has a function to ask for the state of the connection.
pub record Metrics : Type 0 where
  pub requests : List (Text × ℕ)
  pub denials : List (Text × ℕ)
  pub durations : List ℕ
  pub tracked : Bool

-- The count at a label.
abbrev pub count_at : Text → List (Text × ℕ) → ℕ
count_at l counters = elim (lookup l counters) [ none ↦ 0 | some n ↦ n ]

-- `WithLabelValues(l).Inc()`
unfoldable pub inc : Text → List (Text × ℕ) → List (Text × ℕ)
inc l counters = insert l (count_at l counters + 1) counters

-- `New`: both result series start at 0.
abbrev pub new : Metrics
new = record {
  requests = (allowed, 0) ∷ (denied, 0) ∷ [];
  denials = [];
  durations = [];
  tracked = false;
}

-- `RecordAllowed`; a nil receiver is `none`.
unfoldable pub record_allowed : Option Metrics → ℕ → Option Metrics
record_allowed none elapsed = none
record_allowed (some m) elapsed =
    some (record m { requests = inc allowed m.requests; durations = elapsed ∷ m.durations })

-- `RecordDenied`
unfoldable pub record_denied : Option Metrics → Reason → ℕ → Option Metrics
record_denied none reason elapsed = none
record_denied (some m) reason elapsed = some (record m {
  requests = inc denied m.requests;
  denials = inc (label reason) m.denials;
  durations = elapsed ∷ m.durations;
})

-- `TrackNATSConnection`
unfoldable pub track_nats_connection : Option Metrics → Option Metrics
track_nats_connection none = none
track_nats_connection (some m) = some (record m { tracked = true })

-- The gauge `nats_connected` at a scrape, with the state of the connection.
unfoldable pub nats_connected : Metrics → Bool → ℕ
nats_connected m is_connected = if m.tracked && is_connected then 1 else 0
