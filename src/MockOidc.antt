-- ===== src/MockOidc.antt =====
-- internal/mockoidc/mockoidc.go: the issuer that the tests run the service against, its keys and its
-- endpoints; `Tokens` holds the tokens that it mints. RSA, base64 and JSON's text are parameters.
pub mod Exponent
pub mod Tokens
use nats_oidc_callout.Prelude.{
  ℕ, zero, suc, ◌+◌, ◌/◌, ◌%◌, Bool, true, false, not, ◌&&◌, Option, none, some, List, [], ◌∷◌,
  ◌++◌, map, if◌then◌else◌,
}
use nats_oidc_callout.Prelude.Texts.{Text, codes, text_eq}
use nats_oidc_callout.Identity.{Members}

-- `key`; the private key stands for the key pair.
pub record Key : Type 0 where
  pub kid : Text
  pub priv : Text

-- `Server`; `held` holds while `HoldJWKS` is in force.
pub record Server : Type 0 where
  pub url : Text
  pub keys : List Key
  pub jwks_requests : ℕ
  pub held : Bool

-- `New`, with the URL of the HTTP server and the key that is generated.
abbrev pub new : Text → Text → Server
new url priv = record {
  url = url;
  keys = (record { kid = codes "key-1"; priv = priv }) ∷ [];
  jwks_requests = 0;
  held = false;
}

-- `AddKey`, with the key that is generated.
unfoldable pub add_key : Text → Text → Server → Server
add_key kid priv s = record s { keys = s.keys ++ ((record { kid = kid; priv = priv }) ∷ []) }

abbrev onto : Key → Option (Key × List Key) → Option (Key × List Key)
onto k none = none
onto k (some (found, keys)) = some (found, k ∷ keys)

-- The first key with the kid, and the keys with another one in its place.
unfoldable pub exchange : Text → Key → List Key → Option (Key × List Key)
exchange kid front [] = none
exchange kid front (k ∷ keys) =
    let later = exchange kid front keys in
    if text_eq k.kid kid then some (k, front ∷ keys) else onto k later

-- `SetDefaultKey` on the keys.
unfoldable pub to_front : Text → List Key → List Key
to_front kid [] = []
to_front kid (front ∷ keys) =
    if text_eq front.kid kid then front ∷ keys else elim (exchange kid front keys) [
      | none ↦ front ∷ keys
      | some (found, others) ↦ found ∷ others
    ]

unfoldable pub set_default_key : Text → Server → Server
set_default_key kid s = record s { keys = to_front kid s.keys }

-- `findKey`; none fails the test.
unfoldable pub find_key : Text → List Key → Option Key
find_key kid [] = none
find_key kid (k ∷ keys) = if text_eq k.kid kid then some k else find_key kid keys

-- The public half of a key: the bytes of the modulus, and the exponent.
pub record PublicKey : Type 0 where
  pub n : List ℕ
  pub e : ℕ

-- What the issuer uses and does not implement; signing and encoding fail with none.
pub record Crypto : Type 0 where
  pub public : Text → PublicKey
  pub base64 : List ℕ → Text
  pub sign : Text → Text → Option Text  -- `SignPKCS1v15` of the SHA-256, encoded
  pub segment : Members → Option Text  -- `encodeSegment`

-- `PutUint64`, for as many bytes: the most significant byte first.
unfoldable pub big_endian : ℕ → ℕ → List ℕ
big_endian zero e = []
big_endian (suc n) e = big_endian n (e / 256) ++ ((e % 256) ∷ [])

-- The loop of `encodeExponent`: leading zero bytes are dropped, but for a last one.
unfoldable pub strip : List ℕ → List ℕ
strip [] = []
strip (b ∷ []) = b ∷ []
strip (zero ∷ c ∷ bytes) = strip (c ∷ bytes)
strip (suc b ∷ c ∷ bytes) = suc b ∷ c ∷ bytes

-- `encodeExponent`
unfoldable pub encode_exponent : ℕ → List ℕ
encode_exponent e = strip (big_endian 8 e)

-- An entry of the key set.
pub record Jwk : Type 0 where
  pub kty : Text
  pub use_ : Text
  pub alg : Text
  pub kid : Text
  pub n : Text
  pub e : Text

abbrev pub jwk_of : Crypto → Key → Jwk
jwk_of crypto k = record {
  kty = codes "RSA";
  use_ = codes "sig";
  alg = codes "RS256";
  kid = k.kid;
  n = crypto.base64 (crypto.public k.priv).n;
  e = crypto.base64 (encode_exponent (crypto.public k.priv).e);
}

-- The first part of `handleJWKS`: the request is counted, and waits while the key set is held.
unfoldable pub enter_jwks : Server → Server × Bool
enter_jwks s = (record s { jwks_requests = s.jwks_requests + 1 }, s.held)

-- The keys that `handleJWKS` answers with.
unfoldable pub jwks : Crypto → Server → List Jwk
jwks crypto s = map (jwk_of crypto) s.keys

-- `HoldJWKS`, and the `release` that it returns.
abbrev pub hold_jwks : Server → Server
hold_jwks s = record s { held = true }

abbrev pub release : Server → Server
release s = record s { held = false }

-- The document of `handleDiscovery`.
pub record Discovery : Type 0 where
  pub issuer : Text
  pub jwks_uri : Text
  pub authorization_endpoint : Text
  pub token_endpoint : Text
  pub response_types : List Text
  pub subject_types : List Text
  pub signing_algs : List Text

unfoldable pub discovery : Server → Discovery
discovery s = record {
  issuer = s.url;
  jwks_uri = s.url ++ codes "/.well-known/jwks.json";
  authorization_endpoint = s.url ++ codes "/authorize";
  token_endpoint = s.url ++ codes "/token";
  response_types = codes "id_token" ∷ [];
  subject_types = codes "public" ∷ [];
  signing_algs = codes "RS256" ∷ codes "ES384" ∷ [];
}
