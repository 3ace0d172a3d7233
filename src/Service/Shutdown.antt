-- ===== src/Service/Shutdown.antt =====
-- cmd/nats-oidc-callout/main.go: `stopService`. The NATS connection and the clock are parameters.
pub mod Deadline
use nats_oidc_callout.Prelude.{
  ℕ, zero, suc, ◌+◌, Bool, true, false, not, ◌&&◌, Option, none, some, List, [], ◌∷◌, ◌++◌,
  if◌then◌else◌, ltb,
}

-- 10 s and 10 ms, in nanoseconds
abbrev pub shutdown_drain_timeout : ℕ
shutdown_drain_timeout = 10_000_000_000

abbrev pub poll_interval : ℕ
poll_interval = 10_000_000

-- What a shutdown meets: does `Drain` start, the time behind it, and at each round of the loop what
-- `IsClosed` and the clock say.
pub record Draining : Type 0 where
  pub drain_starts : Bool
  pub begin : ℕ
  pub is_closed : ℕ → Bool
  pub clock : ℕ → ℕ

-- The loop from a round on, on fuel: the number of the round that ends it. An ended test stops it
-- before the clock is read.
unfoldable pub poll : ℕ → Draining → ℕ → Option ℕ
poll zero d i = none
poll (suc fuel) d i =
    let later = poll fuel d (suc i) in
    if not (d.is_closed i) && ltb (d.clock i) (d.begin + shutdown_drain_timeout)
    then later
    else some i

pub data Effect : Type 0 where
  drain sleep close : Effect

abbrev pub sleeps : ℕ → List Effect
sleeps zero = []
sleeps (suc n) = sleep ∷ sleeps n

abbrev pub waited : Option ℕ → Option (List Effect)
waited none = none
waited (some n) = some (drain ∷ (sleeps n ++ (close ∷ [])))

-- `stopService`; none is no run of the code, but a loop that the fuel does not suffice for.
unfoldable pub stop_service : ℕ → Draining → Option (List Effect)
stop_service fuel d = if d.drain_starts then waited (poll fuel d 0) else some (drain ∷ close ∷ [])
