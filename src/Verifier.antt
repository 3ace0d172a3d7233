-- ===== src/Verifier.antt =====
-- internal/verifier/verifier.go: trusted issuers, the audience allowlist and required claims. The
-- token formats (base64, JSON) and go-oidc are parameters. The key set is in the child `KeySet`.
pub mod KeySet
pub mod Trust
pub mod Entries
pub mod Issuers
pub mod Origin
use nats_oidc_callout.Prelude.{
  ℕ, ◌≤◌, ◌≡◌, ◌≢◌, ◌⊎◌, Bool, true, false, not, ◌&&◌, ◌||◌, Option, none, some, List, [], ◌∷◌,
  Result, ok, err, ◌>>=◌, ◌>>◌, fail_if, if◌then◌else◌, is_empty, any, length,
}
use nats_oidc_callout.Prelude.Texts.{Text, codes, text_eq}
use nats_oidc_callout.Prelude.Maps.{lookup, has_key, insert}
use nats_oidc_callout.Prelude.Int.{ℤ, pos, is_zero}
use nats_oidc_callout.Strings.{split}
use nats_oidc_callout.Verifier.KeySet.{Client, KeySet as Keys, new_key_set}
use nats_oidc_callout.Identity.{Identity, Claims, claim, DecodeObject, parse}

-- `oidc.IDToken`; `claims` is the payload that `Claims` decodes, none if that fails.
pub record IdToken : Type 0 where
  pub issuer : Text
  pub subject : Text
  pub audience : List Text
  pub expiry : ℕ
  pub claims : Option Text

-- The decoders of a token: `base64.RawURLEncoding`, the "iss" of a JSON object ("" if it is not
-- there), and a JSON object.
pub record Codec : Type 0 where
  pub base64 : Text → Option Text
  pub issuer : Text → Option Text
  pub members : DecodeObject

-- `IDTokenVerifier.Verify` of an issuer with its signing algorithms, on a key set's
-- `VerifySignature`, at a time; none is its error.
abbrev pub Oidc : Type 0
Oidc = (Text → Option Text) → Text → List Text → ℕ → Text → Option IdToken

-- go-oidc accepts Google's tokens with an issuer that lacks the scheme.
abbrev pub google : Text
google = codes "https://accounts.google.com"

-- What go-oidc documents of a token that it accepts: it names the issuer, has not expired, and its
-- claims are the payload whose signature the key set verified.
abbrev pub OidcLaws : Oidc → Type 0
OidcLaws oidc =
    (signature : Text → Option Text) (url : Text) (algs : List Text) (now : ℕ) (raw : Text)
    (token : IdToken)
    → oidc signature url algs now raw ≡ some token
    → ((token.issuer ≡ url) ⊎ (url ≡ google))
      × (now ≤ token.expiry)
      × (signature raw ≡ token.claims)
      × (token.claims ≢ none)

-- `issuerEntry`: the URL, the algorithms and the key set are those that its `oidc.IDTokenVerifier` was
-- made with; the key set is taken as it was then.
pub record IssuerEntry : Type 0 where
  pub url : Text
  pub algs : List Text
  pub require_claims : Claims
  pub key_set : Keys

-- `Verifier`; the map of audiences is the list of its keys.
pub record Verifier : Type 0 where
  pub issuers : List (Text × IssuerEntry)
  pub audiences : List Text

pub data VerifyError : Type 0 where
  empty_token malformed_token malformed_payload no_issuer untrusted_issuer : VerifyError
  rejected audience_not_allowed unreadable_claims unflattened : VerifyError
  claim_mismatch : Text → VerifyError

-- `unverifiedIssuer` on the parts of the token
unfoldable pub issuer_of_parts : Codec → List Text → Result VerifyError Text
issuer_of_parts codec (header ∷ payload ∷ signature ∷ []) = elim (codec.base64 payload) [
  | none ↦ err malformed_payload
  | some decoded ↦ elim (codec.issuer decoded) [
    | none ↦ err malformed_payload
    | some iss ↦ if is_empty iss then err no_issuer else ok iss
  ]
]
issuer_of_parts codec _ = err malformed_token

unfoldable pub unverified_issuer : Codec → Text → Result VerifyError Text
unverified_issuer codec raw = issuer_of_parts codec (split b'.' raw)

-- `audienceAllowed`
unfoldable pub audience_allowed : Verifier → List Text → Bool
audience_allowed v [] = false
audience_allowed v (aud ∷ auds) =
    let later = audience_allowed v auds in
    if any (λ a. text_eq a aud) v.audiences then true else later

-- The loop of `Verify` over the issuer's required claims.
unfoldable pub check_claims : Claims → Identity → Result VerifyError (Unit {0})
check_claims [] id = ok tt
check_claims ((k, want) ∷ wanted) id =
    let later = check_claims wanted id in
    elim (claim id k) [
      | none ↦ err (claim_mismatch k)
      | some got ↦ if text_eq got want then later else err (claim_mismatch k)
    ]

-- The identity that `Verify` fills in from the token.
abbrev pub fill_in : IdToken → Identity → Identity
fill_in token id = record id {
  issuer = token.issuer;
  subject = token.subject;
  audience = token.audience;
  expiry = token.expiry;
}

abbrev pub from_option : {A : Type 0} → VerifyError → Option A → Result VerifyError A
from_option e none = err e
from_option e (some a) = ok a

abbrev pub parsed : DecodeObject → Text → Result VerifyError Identity
parsed decode payload = elim (parse decode payload) [ err _ ↦ err unflattened | ok id ↦ ok id ]

-- `Verify` behind the selection of the issuer.
unfoldable pub verify_token : Codec → IdToken → Verifier → IssuerEntry → Result VerifyError Identity
verify_token codec token v entry = do
  fail_if (not (audience_allowed v token.audience)) audience_not_allowed
  payload ← from_option unreadable_claims token.claims
  id ← parsed codec.members payload
  check_claims entry.require_claims (fill_in token id)
  ok (fill_in token id)

-- `(*Verifier).Verify` at the time `now`. `signature` answers for the key set of an issuer's URL.
unfoldable pub verify :
    Codec → Oidc → (Text → Text → Option Text) → Verifier → ℕ → Text → Result VerifyError Identity
verify codec oidc signature v now raw = do
  fail_if (is_empty raw) empty_token
  iss ← unverified_issuer codec raw
  entry ← from_option untrusted_issuer (lookup iss v.issuers)
  token ← from_option rejected (oidc (signature entry.url) entry.url entry.algs now raw)
  verify_token codec token v entry

-- `IssuerOption`
pub record IssuerOption : Type 0 where
  pub url : Text
  pub require_claims : Claims

-- `Options`; the pool of root certificates is the PEM text that it was filled from.
pub record Options : Type 0 where
  pub issuers : List IssuerOption
  pub audiences : List Text
  pub signing_algs : List Text
  pub http_timeout : ℤ
  pub root_cas : Option Text
  pub jwks_refresh_interval : ℤ

-- The client of discovery and of the key sets; the timeout is 10 s by default.
unfoldable pub http_client : Options → Client
http_client opts = record {
  timeout = if is_zero opts.http_timeout then pos 10_000_000_000 else opts.http_timeout;
  root_cas = opts.root_cas;
}

pub data NewError : Type 0 where
  no_issuers no_audiences no_algs : NewError
  duplicate_issuer discovery_failed no_jwks_uri : Text → NewError

-- What `oidc.NewProvider` finds at an issuer's URL: nothing, metadata that cannot be read, or the
-- "jwks_uri" of its metadata, empty if it is not there.
pub data Discovery : Type 0 where
  no_provider unreadable : Discovery
  metadata : Text → Discovery

abbrev pub uri_of : Text → Discovery → Result NewError Text
uri_of url no_provider = err (discovery_failed url)
uri_of url unreadable = err (no_jwks_uri url)
uri_of url (metadata []) = err (no_jwks_uri url)
uri_of url (metadata (c ∷ uri)) = ok (c ∷ uri)

-- The entry that `New` makes of an option and the address of the issuer's keys.
unfoldable pub made_entry : Options → IssuerOption → Text → IssuerEntry
made_entry opts iss uri = record {
  url = iss.url;
  algs = opts.signing_algs;
  require_claims = iss.require_claims;
  key_set = new_key_set uri (http_client opts) opts.signing_algs opts.jwks_refresh_interval;
}

-- The loop of `New` over the issuers, with OIDC discovery as a parameter.
unfoldable pub add_issuers :
    (Text → Discovery)
    → Options
    → List IssuerOption
    → List (Text × IssuerEntry)
    → Result NewError (List (Text × IssuerEntry))
add_issuers discover opts [] issuers = ok issuers
add_issuers discover opts (iss ∷ rest) issuers = elim (has_key iss.url issuers) [
  | true ↦ err (duplicate_issuer iss.url)
  | false ↦ elim (uri_of iss.url (discover iss.url)) [
    | err e ↦ err e
    | ok uri ↦ add_issuers discover opts rest (insert iss.url (made_entry opts iss uri) issuers)
  ]
]

-- `New`
unfoldable pub new : (Client → Text → Discovery) → Options → Result NewError Verifier
new discover opts = do
  fail_if (is_empty opts.issuers) no_issuers
  fail_if (is_empty opts.audiences) no_audiences
  fail_if (is_empty opts.signing_algs) no_algs
  issuers ← add_issuers (discover (http_client opts)) opts opts.issuers []
  ok (record { issuers = issuers; audiences = opts.audiences })
