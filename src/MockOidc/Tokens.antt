-- ===== src/MockOidc/Tokens.antt =====
-- `Mint` of internal/mockoidc/mockoidc.go: the claims of a token, its header and its signature.
pub mod Claims
pub mod Published
use nats_oidc_callout.Prelude.{
  ℕ, ◌+◌, ◌/◌, Bool, true, false, Option, none, some, List, [], ◌∷◌, ◌++◌, if◌then◌else◌, is_empty,
}
use nats_oidc_callout.Prelude.Texts.{Text, codes}
use nats_oidc_callout.Prelude.Int.{ℤ, pos, negsuc}
use nats_oidc_callout.Prelude.Maps.{insert}
use nats_oidc_callout.Authz.Rules.{decimal}
use nats_oidc_callout.Identity.{
  Json, null, str, number, array, object, Items, nil, cons, Members, end, member, namespace,
}
use nats_oidc_callout.MockOidc.{Key, Server, Crypto, find_key}

-- `TokenOptions`; a time is in nanoseconds since the epoch, and none is the zero time.
pub record TokenOptions : Type 0 where
  pub subject : Text
  pub audience : Option (List Text)  -- none is the nil slice
  pub aws_account : Text
  pub org_id : Text
  pub principal_tags : List (Text × Text)
  pub issued_at : Option ℤ
  pub not_before : Option ℤ
  pub expiry : Option ℤ
  pub extra_claims : List (Text × Json)
  pub issuer_override : Text
  pub kid_override : Text
  pub sign_with_kid : Text

-- 5 min in nanoseconds
abbrev pub lifetime : ℕ
lifetime = 300_000_000_000

abbrev pub time_or : ℕ → Option ℤ → ℤ
time_or default none = pos default
time_or default (some t) = t

-- `time.Time.Unix`, which rounds down
abbrev pub unix : ℤ → ℤ
unix (pos n) = pos (n / 1_000_000_000)
unix (negsuc n) = negsuc (n / 1_000_000_000)

-- `strconvI`, and an int64 in JSON; 20 digits are enough for 64 bits.
unfoldable pub format_int : ℤ → Text
format_int (pos n) = decimal 20 n
format_int (negsuc n) = b'-' ∷ decimal 20 (n + 1)

abbrev pub items_of : List Text → Items
items_of [] = nil
items_of (t ∷ ts) = cons (str t) (items_of ts)

-- The audience in JSON, null for the nil slice.
abbrev pub audience_of : Option (List Text) → Json
audience_of none = null
audience_of (some auds) = array (items_of auds)

abbrev pub members_of : List (Text × Json) → Members
members_of [] = end
members_of ((k, v) ∷ claims) = member k v (members_of claims)

abbrev pub tags_of : List (Text × Text) → Members
tags_of [] = end
tags_of ((k, v) ∷ tags) = member k (str v) (tags_of tags)

abbrev pub put_if : Bool → Text → Json → List (Text × Json) → List (Text × Json)
put_if true k v claims = insert k v claims
put_if false k v claims = claims

abbrev pub given {ℓ} : {A : Type ℓ} → List A → Bool
given [] = false
given (x ∷ xs) = true

-- The claims in AWS's namespace.
unfoldable pub namespaced : TokenOptions → List (Text × Json)
namespaced opts =
    put_if (given opts.principal_tags) (codes "principal_tags")
      (object (tags_of opts.principal_tags))
      (put_if (given opts.org_id) (codes "org_id") (str opts.org_id)
        (put_if (given opts.aws_account) (codes "aws_account") (str opts.aws_account) []))

abbrev pub put_time : Text → Option ℤ → List (Text × Json) → List (Text × Json)
put_time k none claims = claims
put_time k (some t) claims = insert k (number (format_int (unix t))) claims

abbrev pub issuer_of : Server → TokenOptions → Text
issuer_of s opts = if is_empty opts.issuer_override then s.url else opts.issuer_override

abbrev pub jti_of : ℕ → TokenOptions → Text
jti_of now opts = opts.subject ++ (b'-' ∷ format_int (time_or now opts.issued_at))

-- The claims in the order in which they are put in: the extra ones first.
unfoldable pub claims_of : Server → ℕ → TokenOptions → List (Text × Json)
claims_of s now opts =
    put_if (given (namespaced opts)) namespace (object (members_of (namespaced opts))) (
      put_time (codes "nbf") opts.not_before (
        insert (codes "jti") (str (jti_of now opts)) (
          insert (codes "exp") (number (format_int (unix (time_or (now + lifetime) opts.expiry)))) (
            insert (codes "iat") (number (format_int (unix (time_or now opts.issued_at)))) (
              insert (codes "aud") (audience_of opts.audience) (
                insert (codes "sub") (str opts.subject)
                  (insert (codes "iss") (str (issuer_of s opts)) opts.extra_claims)))))))

abbrev pub header_of : Text → Members
header_of kid =
    member (codes "alg") (str (codes "RS256"))
      (member (codes "typ") (str (codes "JWT")) (member (codes "kid") (str kid) end))

abbrev pub kid_of : Key → TokenOptions → Text
kid_of k opts = if is_empty opts.kid_override then k.kid else opts.kid_override

-- The key that signs; none is a failed test, or the panic on no key.
unfoldable pub signer : List Key → Text → Option Key
signer keys (c ∷ kid) = find_key (c ∷ kid) keys
signer (k ∷ keys) [] = some k
signer [] [] = none

abbrev pub signed : Crypto → Key → Text → Option Text
signed crypto k input = elim (crypto.sign k.priv input) [
  | none ↦ none
  | some signature ↦ some (input ++ (b'.' ∷ signature))
]

-- `Mint` with the signer
unfoldable pub mint_with : Crypto → Server → ℕ → TokenOptions → Key → Option Text
mint_with crypto s now opts k = elim (crypto.segment (header_of (kid_of k opts))) [
  | none ↦ none
  | some header ↦ elim (crypto.segment (members_of (claims_of s now opts))) [
    | none ↦ none
    | some claims ↦ signed crypto k (header ++ (b'.' ∷ claims))
  ]
]

-- `Mint` at the time `now`; none fails the test.
unfoldable pub mint : Crypto → Server → ℕ → TokenOptions → Option Text
mint crypto s now opts = elim (signer s.keys opts.sign_with_kid) [
  | none ↦ none
  | some k ↦ mint_with crypto s now opts k
]
