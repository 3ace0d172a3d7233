-- ===== src/Examples/Origins.antt =====
-- A verifier that is built, with its key sets running.
use nats_oidc_callout.Prelude.{
  ◌≤◌, ◌≡◌, refl, sym, subst, some, [], ◌∷◌, ok, inl, inr, Bool-cases, arith,
}
use nats_oidc_callout.Prelude.Texts.{Text, codes, text_eq}
use nats_oidc_callout.Prelude.Maps.{lookup, insert}
use nats_oidc_callout.Strings.{split}
use nats_oidc_callout.Identity.{claim, parse, parse_members, is_reserved, flatten, root_prefix}
use nats_oidc_callout.Verifier.{
  IssuerEntry, Verifier, verify, unverified_issuer, issuer_of_parts, verify_token, audience_allowed,
  check_claims,
}
use nats_oidc_callout.Verifier.KeySet.Requests.{Reach, initial, answered}
use nats_oidc_callout.Verifier.Origin.{IsRunning, IsIssued, verify-IsIssued}
use nats_oidc_callout.Examples.Fixtures.{codec, oidc, signature, raw_token, now, bot, key_set}
use nats_oidc_callout.Examples.Tokens.{oidc-laws}
use nats_oidc_callout.Examples.Services.{found, options, entry, built, verifier_built}
use nats_oidc_callout.Examples.Calls.{out, new_keys_lem, verified, verified_reached, is_answered}

-- A verifier of one issuer.
abbrev pub single : IssuerEntry → Verifier
single entry = record { issuers = (codes "iss", entry) ∷ []; audiences = codes "nats" ∷ [] }

only_entry :
    (entry : IssuerEntry) (named : Text) (e : IssuerEntry)
    → lookup named (single entry).issuers ≡ some e
    → e ≡ entry
unfolding lookup
only_entry entry named e h = elim (Bool-cases (text_eq (codes "iss") named)) [
  | inl y ↦ ground arith
  | inr y ↦ absurd (ground arith)
]

payload_of : (url payload raw : Text) → signature url raw ≡ some payload → codes "{}" ≡ payload
payload_of url payload raw h = cc

pub running :
    (entry : IssuerEntry) → entry.key_set ≡ key_set → IsRunning out (single entry) signature
running entry empty named e raw payload at signed =
    let same = only_entry entry named e at in
    let whole = payload_of e.url payload raw signed in
    let by_new : Reach out (initial key_set 100) (verified raw) =
      subst (λ k. Reach out (initial k 100) (verified raw)) new_keys_lem (verified_reached raw) in
    let by_own : Reach out (initial entry.key_set 100) (verified raw) =
      subst (λ k. Reach out (initial k 100) (verified raw)) (sym empty) by_new in
    (
      100,
      verified raw,
      [],
      [],
      subst (λ x. Reach out (initial x.key_set 100) (verified raw)) (sym same) by_own,
      subst (λ p. (verified raw).tasks ≡ answered raw (ok p) ∷ []) whole (is_answered raw),
    )

accepted : verify codec oidc signature built now raw_token ≡ ok bot
unfolding verify unverified_issuer issuer_of_parts split lookup text_eq verify_token
    audience_allowed parse check_claims claim parse_members is_reserved flatten insert root_prefix
accepted = refl

verify-IsIssued_example : (now ≤ bot.expiry) × IsIssued codec out found options raw_token bot
verify-IsIssued_example =
    verify-IsIssued codec oidc out found options signature built now raw_token bot oidc-laws
      verifier_built (running entry refl) accepted
