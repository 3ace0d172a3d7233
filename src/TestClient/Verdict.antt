-- ===== src/TestClient/Verdict.antt =====
-- When the test client passes.
use nats_oidc_callout.Prelude.{
  ◌≡◌, ◌≢◌, refl, ap, ◌&&◌, not, Bool, if◌then◌else◌, ◌↔◌, ◌⊎◌, inl, inr, Option, none, some, [],
  true, false, ok, err, arith, Result-cases, Bool-cases, is_empty, is_empty-ne-nil, Result,
}
use nats_oidc_callout.Prelude.Texts.{Text, codes, text_eq, text_eq_iff}
use nats_oidc_callout.K8sAuth
use nats_oidc_callout.K8sAuth.{TokenSource, TokenError, token, handler}
use nats_oidc_callout.K8sAuth.Refresh.{fresh}
use nats_oidc_callout.TestClient.{
  World, Flags, ConnectError, authorization, not_connected, Printed, denied_as_expected, publish_ok,
  RunError, exit_of, connected, run, main, is_deny,
}

-- The connect of the test, with the token of that moment.
abbrev pub attempt : World → Flags → Option ConnectError
attempt world flags = world.connect flags.url (handler world.second_read (fresh flags.token_path)).1

-- The pass of a job that expects to be allowed, and of one that expects a denial.
pub record Allowed (world : World) (flags : Flags) : Type 0 where
  pub expected : flags.expect ≡ codes "allow"
  pub accepted : attempt world flags ≡ none
  pub published : world.publishes flags.subject ≡ true
  pub flushed : world.flushes ≡ true

pub record Denied (world : World) (flags : Flags) : Type 0 where
  pub expected : flags.expect ≡ codes "deny"
  pub refused : attempt world flags ≡ some authorization

-- A token was there to be read.
abbrev pub Readable : World → Flags → Type 0
Readable world flags =
    (flags.token_path ≢ [])
    × (tok : Text) × (token false world.first_read (fresh flags.token_path) ≡ ok tok)

run_inv :
    (world : World) (flags : Flags) (p : Printed)
    → run world flags ≡ ok p
    → Readable world flags × (connected world flags (attempt world flags) ≡ ok p)
unfolding run K8sAuth.new
run_inv world flags p h = elim (Bool-cases (is_empty flags.token_path)) [
  | inl e ↦ absurd (ground arith)
  | inr e ↦ elim (Result-cases (token false world.first_read (fresh flags.token_path))) [
    | inl (_, e') ↦ absurd (ground arith)
    | inr (tok, e') ↦ ((λ none_given. ground arith, tok, e'), ground arith)
  ]
]

run-eq :
    (world : World) (flags : Flags)
    → Readable world flags
    → run world flags ≡ connected world flags (attempt world flags)
unfolding run K8sAuth.new
run-eq world flags (given, tok, e) =
    let nonempty = is_empty-ne-nil flags.token_path given in ground (arith, nonempty, e)

connected-publish_ok_iff :
    (world : World) (flags : Flags) (o : Option ConnectError)
    → (connected world flags o ≡ ok publish_ok) ↔ (
        (is_deny flags ≡ false)
        × (o ≡ none)
        × (world.publishes flags.subject ≡ true)
        × (world.flushes ≡ true))
unfolding connected
connected-publish_ok_iff world flags none = (λ h. ground arith, λ h. ground arith)
connected-publish_ok_iff world flags (some authorization) = (λ h. ground arith, λ h. ground arith)
connected-publish_ok_iff world flags (some not_connected) = (λ h. ground arith, λ h. ground arith)

connected-denied_as_expected_iff :
    (world : World) (flags : Flags) (o : Option ConnectError)
    → (connected world flags o ≡ ok denied_as_expected)
      ↔ ((is_deny flags ≡ true) × (o ≡ some authorization))
unfolding connected
connected-denied_as_expected_iff world flags none = (λ h. ground arith, λ h. ground arith)
connected-denied_as_expected_iff world flags (some authorization) =
    (λ h. ground arith, λ h. ground arith)
connected-denied_as_expected_iff world flags (some not_connected) =
    (λ h. ground arith, λ h. ground arith)

run_iff :
    (world : World) (flags : Flags) (p : Printed)
    → (run world flags ≡ ok p)
      ↔ (Readable world flags × (connected world flags (attempt world flags) ≡ ok p))
run_iff world flags p = (run_inv world flags p, λ h. rw (run-eq world flags h.0) h.1)

exit_of_iff : (r : Result RunError Printed) (p : Printed) → (exit_of r ≡ (0, some p)) ↔ (r ≡ ok p)
exit_of_iff (ok q) p = (λ h. cc, λ h. cc)
exit_of_iff (err e) p = (λ h. absurd (let e : 1 ≡ 0 = ap (λ x. x.0) h in omega arith), λ h. cc)

guarded_iff :
    (a d : Bool) (r : Result RunError Printed) (p : Printed)
    → ((if not a && not d then (1, none) else exit_of r) ≡ (0, some p))
      ↔ (((a ≡ true) ⊎ (d ≡ true)) × (r ≡ ok p))
guarded_iff true d r p = (λ h. (inl refl, (exit_of_iff r p).0 h), λ h. (exit_of_iff r p).1 h.1)
guarded_iff false true r p = (λ h. (inr refl, (exit_of_iff r p).0 h), λ h. (exit_of_iff r p).1 h.1)
guarded_iff false false r p = (
  λ h. absurd (let e : 1 ≡ 0 = ap (λ x. x.0) h in omega arith),
  λ h. absurd (elim h.0 [ inl e ↦ ground arith | inr e ↦ ground arith ]),
)

main_iff :
    (world : World) (flags : Flags) (p : Printed)
    → (main world flags ≡ (0, some p)) ↔ (
        ((text_eq flags.expect (codes "allow") ≡ true)
          ⊎ (text_eq flags.expect (codes "deny") ≡ true))
        × (run world flags ≡ ok p))
unfolding main
main_iff world flags p =
    guarded_iff (text_eq flags.expect (codes "allow")) (text_eq flags.expect (codes "deny"))
      (run world flags) p

not_both : (t : Text) → t ≡ codes "allow" → text_eq t (codes "deny") ≡ false
unfolding text_eq
not_both t h = rw h refl

allows_iff :
    (world : World) (flags : Flags)
    → (main world flags ≡ (0, some publish_ok)) ↔ (Readable world flags × Allowed world flags)
allows_iff world flags =
    let allow = text_eq_iff flags.expect (codes "allow") in
    let connects = connected-publish_ok_iff world flags (attempt world flags) in
    (
      λ h.
          let (expects, ran) = (main_iff world flags publish_ok).0 h in
          let (readable, passed) = (run_iff world flags publish_ok).0 ran in
          let (not_deny, accepted, published, flushed) = connects.0 passed in
          let expected : flags.expect ≡ codes "allow" = elim expects [
            | inl e ↦ allow.0 e
            | inr e ↦ absurd (ground arith)
          ] in
          (
            readable,
            record {
              expected = expected;
              accepted = accepted;
              published = published;
              flushed = flushed;
            },
          ),
      λ h.
          let (readable, a) = h in
          let passed =
            connects.1 (not_both flags.expect a.expected, a.accepted, a.published, a.flushed) in
          (main_iff world flags publish_ok).1
            (inl (allow.1 a.expected), (run_iff world flags publish_ok).1 (readable, passed)),
    )

denies_iff :
    (world : World) (flags : Flags)
    → (main world flags ≡ (0, some denied_as_expected))
      ↔ (Readable world flags × Denied world flags)
denies_iff world flags =
    let deny = text_eq_iff flags.expect (codes "deny") in
    let refuses = connected-denied_as_expected_iff world flags (attempt world flags) in
    (
      λ h.
          let (expects, ran) = (main_iff world flags denied_as_expected).0 h in
          let (readable, passed) = (run_iff world flags denied_as_expected).0 ran in
          let (is_denied, refused) = refuses.0 passed in
          (readable, record { expected = deny.0 is_denied; refused = refused }),
      λ h.
          let (readable, d) = h in
          let passed = refuses.1 (deny.1 d.expected, d.refused) in
          (main_iff world flags denied_as_expected).1 (
            inr (deny.1 d.expected),
            (run_iff world flags denied_as_expected).1 (readable, passed),
          ),
    )

-- The test client exits with success and prints PUBLISH_OK exactly if an allowance was expected, a
-- token was there to be read, the connect with the token of its own moment succeeded, and the message
-- was published and flushed; it exits with success and prints DENIED_AS_EXPECTED exactly if a denial
-- was expected, a token was there to be read, and the connect failed with an authorization violation:
-- no other failure passes for a denial.
pub main_verdict :
    (world : World) (flags : Flags)
    → ((main world flags ≡ (0, some publish_ok)) ↔ (Readable world flags × Allowed world flags))
      × ((main world flags ≡ (0, some denied_as_expected))
          ↔ (Readable world flags × Denied world flags))
main_verdict world flags = (allows_iff world flags, denies_iff world flags)
