-- ===== src/AwsAuth/Tokens/Refreshing.antt =====
-- The background refreshes of one source, among the calls that ask for them.
use nats_oidc_callout.Prelude.{
  ℕ, ◌+◌, ◌-◌, ◌≤◌, ◌<◌, ◌≡◌, refl, ap, ◌∙◌, Bool, true, false, Option, arith, Bool-cases, inl, inr,
  if◌then◌else◌, ◌↔◌,
}
use nats_oidc_callout.AwsAuth.{TokenSource, TokenError}
use nats_oidc_callout.AwsAuth.Tokens.{begin_refresh, end_refresh, set_last_error}

-- The source, and the number of goroutines that refresh its cache.
pub record World : Type 0 where
  pub source : TokenSource
  pub running : ℕ

abbrev pub started : Bool → ℕ
started true = 1
started false = 0

-- A call asks for a refresh, a connect handler or a running goroutine sets the last error, or a
-- running goroutine ends.
pub data Step : World → World → Type 0 where
  asks :
      {w : World}
      → Step w (record {
        source = (begin_refresh w.source).0;
        running = started (begin_refresh w.source).1 + w.running;
      })
  sets :
      {w : World} (e : Option TokenError) → Step w (record w { source = set_last_error e w.source })
  ends :
      {w : World}
      → 0 < w.running
      → Step w (record { source = end_refresh w.source; running = w.running - 1 })

abbrev pub initial : TokenSource → World
initial ts = record { source = ts; running = 0 }

pub data Reach (ts : TokenSource) : World → Type 0 where
  here : Reach ts (initial ts)
  next : {w v : World} → Reach ts w → Step w v → Reach ts v

begin_refresh_idle :
    (ts : TokenSource)
    → ts.refreshing ≡ false
    → begin_refresh ts ≡ (record ts { refreshing = true }, true)
unfolding begin_refresh
begin_refresh_idle ts e =
    ap (λ b. if b then (ts, false) else (record ts { refreshing = true }, true)) e

begin_refresh_busy : (ts : TokenSource) → ts.refreshing ≡ true → begin_refresh ts ≡ (ts, false)
unfolding begin_refresh
begin_refresh_busy ts e =
    ap (λ b. if b then (ts, false) else (record ts { refreshing = true }, true)) e

-- The flag counts the goroutines.
abbrev pub IsCounted : World → Type 0
IsCounted w = w.running ≡ started w.source.refreshing

Step-IsCounted : {w v : World} → Step w v → IsCounted w → IsCounted v
Step-IsCounted {w} asks h = elim (Bool-cases w.source.refreshing) [
  | inl e ↦ rw (begin_refresh_busy w.source e) (omega (arith, h))
  | inr e ↦
      rw (begin_refresh_idle w.source e)
        (let none_runs : w.running ≡ 0 = h ∙ ap started e in omega arith)
]
Step-IsCounted {w} (sets e) h = h
Step-IsCounted {w} (ends some_runs) h = elim (Bool-cases w.source.refreshing) [
  | inl e ↦ let one_runs : w.running ≡ 1 = h ∙ ap started e in omega arith
  | inr e ↦ let none_runs : w.running ≡ 0 = h ∙ ap started e in absurd (omega arith)
]

-- However the calls that ask for refreshes, the errors that are recorded and the ends of the refreshes
-- are interleaved: a source never refreshes its cache twice at a time, and it takes a further request
-- for a refresh exactly when none is running.
pub Reach-single :
    (ts : TokenSource) (w : World)
    → ts.refreshing ≡ false
    → Reach ts w
    → (w.running ≤ 1) × (((begin_refresh w.source).1 ≡ true) ↔ (w.running ≡ 0))
Reach-single ts w idle r =
    let counted = Reach-IsCounted r in
    elim (Bool-cases w.source.refreshing) [
      | inl e ↦
          let one_runs : w.running ≡ 1 = counted ∙ ap started e in
          (
            omega arith,
            rw (begin_refresh_busy w.source e) (λ h. absurd (cc), λ h. absurd (omega arith)),
          )
      | inr e ↦
          let none_runs : w.running ≡ 0 = counted ∙ ap started e in
          (omega arith, rw (begin_refresh_idle w.source e) (λ h. none_runs, λ h. refl))
    ]
  where
    Reach-IsCounted : {v : World} → Reach ts v → IsCounted v
    Reach-IsCounted here = rw idle refl
    Reach-IsCounted (next q step) = Step-IsCounted step (Reach-IsCounted q)
