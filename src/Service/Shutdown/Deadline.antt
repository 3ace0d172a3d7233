-- ===== src/Service/Shutdown/Deadline.antt =====
-- How a shutdown ends.
use nats_oidc_callout.Prelude.{
  ℕ, zero, suc, ◌+◌, ◌*◌, ◌≤◌, ◌<◌, ◌≡◌, refl, true, false, not, ◌&&◌, some, List, [], ◌∷◌, ◌++◌,
  arith, ◌⊎◌, inl, inr, Bool-cases, ltb,
}
use nats_oidc_callout.Service.Shutdown.{
  Draining, Effect, drain, close, sleeps, poll, stop_service, poll_interval, shutdown_drain_timeout,
}

-- `time.Sleep` sleeps for its duration at least, and the clock does not run back.
abbrev pub ClockLaw : Draining → Type 0
ClockLaw d = (d.begin ≤ d.clock 0) × ((i : ℕ) → d.clock i + poll_interval ≤ d.clock (suc i))

clock_after : (d : Draining) → ClockLaw d → (i : ℕ) → d.begin + i * poll_interval ≤ d.clock i
clock_after d law zero = omega (arith, law.0)
clock_after d law (suc i) = omega (arith, law.1 i, clock_after d law i)

poll_ends :
    (d : Draining)
    → ClockLaw d
    → (fuel i : ℕ) → i + fuel ≡ 1001
    → i ≤ 1000
    → (n : ℕ) × (n ≤ 1000)
      × (poll fuel d i ≡ some n)
      × ((d.is_closed n ≡ true) ⊎ (d.begin + shutdown_drain_timeout ≤ d.clock n))
unfolding poll
poll_ends d law zero i e h = absurd (omega arith)
poll_ends d law (suc fuel) i e h =
    elim (Bool-cases (not (d.is_closed i) && ltb (d.clock i) (d.begin + shutdown_drain_timeout))) [
      | inl more ↦
          let soon : d.clock i < d.begin + shutdown_drain_timeout = ground arith in
          let rest =
            poll_ends d law fuel (suc i) (omega arith) (omega (arith, clock_after d law i)) in
          rw (more, poll) rest
      | inr over ↦ (i, h, rw (over, poll) refl, ground arith)
    ]

-- How a shutdown ends: after a number of rounds, with the closing of the connection.
pub record Ends (d : Draining) (effects : List Effect) : Type 0 where
  pub rounds : ℕ
  pub few : rounds ≤ 1000
  pub all : effects ≡ drain ∷ (sleeps rounds ++ (close ∷ []))
  pub reason :
      (d.drain_starts ≡ false)
      ⊎ ((d.is_closed rounds ≡ true) ⊎ (d.begin + shutdown_drain_timeout ≤ d.clock rounds))

-- A shutdown always ends, and with the closing of the connection as its last effect: the loop makes
-- 1000 rounds at most, after which the connection is closed or its ten seconds are over, or the drain
-- did not start at all.
pub stop_service_terminates :
    (d : Draining)
    → ClockLaw d
    → (effects : List Effect) × (stop_service 1001 d ≡ some effects) × Ends d effects
unfolding stop_service
stop_service_terminates d law =
    let (n, few, ends, reason) = poll_ends d law 1001 0 refl (omega arith) in
    elim (Bool-cases d.drain_starts) [
      | inl e ↦ (
        drain ∷ (sleeps n ++ (close ∷ [])),
        rw (ends, e) refl,
        record { rounds = n; few = few; all = refl; reason = inr reason },
      )
      | inr e ↦ (
        drain ∷ close ∷ [],
        rw (e, stop_service) refl,
        record { rounds = 0; few = omega arith; all = refl; reason = inl e },
      )
    ]
