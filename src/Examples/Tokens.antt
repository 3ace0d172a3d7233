-- ===== src/Examples/Tokens.antt =====
-- Tokens, issuers and authorizations.
use nats_oidc_callout.Prelude.{
  ◌≡◌, ◌≢◌, refl, true, none, some, [], ok, arith, ◌↔◌, Option-cases, inl, inr,
}
use nats_oidc_callout.Prelude.Texts.{codes, text_eq}
use nats_oidc_callout.Prelude.Maps.{lookup, insert}
use nats_oidc_callout.Strings.{split}
use nats_oidc_callout.Identity.{
  Identity, Members, claim, parse, parse_members, flatten, root_prefix, is_reserved,
}
use nats_oidc_callout.Identity.Claims.{leaves, leaves_of, last_leaf, payload_leaves, claim-parse}
use nats_oidc_callout.Identity.Order.{Leaf, Distinct, claim_iff_Leaf}
use nats_oidc_callout.Verifier.{
  OidcLaws, verify, unverified_issuer, issuer_of_parts, verify_token, audience_allowed,
  check_claims,
}
use nats_oidc_callout.Verifier.Trust.{IsTrusted, verify-eq-ok_iff}
use nats_oidc_callout.Examples.Fixtures.{
  codec, oidc, signature, verifier, raw_token, now, bot, members,
}

payload_parsed :
    parse codec.members []
    ≡ ok (record bot { issuer = []; subject = []; audience = []; expiry = 0 })
unfolding parse parse_members is_reserved text_eq flatten insert root_prefix
payload_parsed = refl

abbrev flat : Identity
flat = record bot { issuer = []; subject = []; audience = []; expiry = 0 }

claim-parse_example :
    (raw : Members) × (codec.members [] ≡ some raw)
    × (claim flat (codes "env") ≡ last_leaf (codes "env") (payload_leaves raw))
claim-parse_example = claim-parse codec.members [] (codes "env") flat payload_parsed

distinct : Distinct (payload_leaves members)
unfolding payload_leaves is_reserved text_eq leaves leaves_of root_prefix
distinct = ((λ h. cc, tt), (tt, tt))

claim_iff_Leaf_example :
    (claim flat (codes "nested.a") ≡ some (codes "b"))
    ↔ Leaf (codes "nested.a") (codes "b") (payload_leaves members)
claim_iff_Leaf_example =
    claim_iff_Leaf codec.members [] (codes "nested.a") (codes "b") flat members payload_parsed refl
      distinct

iat_reserved : is_reserved (codes "iat") ≡ true
unfolding is_reserved text_eq
iat_reserved = refl

verify-eq-ok_iff_example :
    (verify codec oidc signature verifier now raw_token ≡ ok bot)
    ↔ IsTrusted codec oidc signature verifier now raw_token bot
verify-eq-ok_iff_example = verify-eq-ok_iff codec oidc signature verifier now raw_token bot

pub token_given : raw_token ≢ []
token_given h = cc

issuer_named : unverified_issuer codec raw_token ≡ ok (codes "iss")
unfolding unverified_issuer issuer_of_parts split
issuer_named = refl

issuer_unknown : lookup (codes "iss") (record verifier { issuers = [] }).issuers ≡ none
unfolding lookup
issuer_unknown = refl

pub oidc-laws : OidcLaws oidc
oidc-laws sig url algs now raw token h = elim (Option-cases (sig raw)) [
  | inl e ↦ absurd (ground arith)
  | inr (payload, e) ↦ ground arith
]

pub verified : verify codec oidc signature verifier now raw_token ≡ ok bot
unfolding verify unverified_issuer issuer_of_parts split lookup text_eq verify_token
    audience_allowed parse check_claims claim parse_members is_reserved flatten insert root_prefix
verified = refl
