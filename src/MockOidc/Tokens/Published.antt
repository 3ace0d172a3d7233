-- ===== src/MockOidc/Tokens/Published.antt =====
-- Which key of the published key set a minted token names.
use nats_oidc_callout.Prelude.{
  ℕ, ◌≡◌, refl, ap, sym, ◌∙◌, some, List, [], ◌∷◌, ◌++◌, ◌⊎◌, inl, inr, arith, map, Option-cases,
  Bool-cases,
}
use nats_oidc_callout.Prelude.Texts.{Text, codes, text_eq, text_eq_iff}
use nats_oidc_callout.MockOidc.{Key, Server, Crypto, Jwk, jwk_of, jwks, find_key, encode_exponent}
use nats_oidc_callout.MockOidc.Tokens.{
  TokenOptions, header_of, members_of, claims_of, kid_of, signer, mint_with, mint,
}

abbrev pub Listed : {A : Type 0} → A → List A → Type 0
Listed x [] = ⊥
Listed x (y ∷ ys) = (y ≡ x) ⊎ Listed x ys

Listed-map :
    {A B : Type 0} (f : A → B) (x : A) (xs : List A) → Listed x xs → Listed (f x) (map f xs)
Listed-map f x (y ∷ ys) (inl same) = inl (ap f same)
Listed-map f x (y ∷ ys) (inr h) = inr (Listed-map f x ys h)
Listed-map f x [] h = h

find_key-Listed :
    (kid : Text) (keys : List Key) (k : Key)
    → find_key kid keys ≡ some k
    → Listed k keys × (k.kid ≡ kid)
unfolding find_key
find_key-Listed kid [] k h = cc
find_key-Listed kid (j ∷ keys) k h = elim (Bool-cases (text_eq j.kid kid)) [
  | inl e ↦
      let same : j ≡ k = ground arith in
      (inl same, ap (λ q. q.kid) (sym same) ∙ (text_eq_iff j.kid kid).0 e)
  | inr e ↦ let (found, named) = find_key-Listed kid keys k (ground arith) in (inr found, named)
]

-- A key of the server; the one that was asked for, if one was.
IsSigner : List Key → Text → Key → Type 0
IsSigner keys asked k = Listed k keys × ((asked ≡ []) ⊎ (k.kid ≡ asked))

signer-IsSigner :
    (keys : List Key) (asked : Text) (k : Key) → signer keys asked ≡ some k → IsSigner keys asked k
unfolding signer IsSigner
signer-IsSigner keys (c ∷ kid) k h =
    let (found, named) = find_key-Listed (c ∷ kid) keys k h in (found, inr named)
signer-IsSigner (j ∷ keys) [] k h = let same : j ≡ k = cc in (inl same, inl refl)
signer-IsSigner [] [] k h = cc

-- The key set verifies the token: it has a key of the token's kid, whose private half signed the
-- token's header and claims.
pub record IsPublished (crypto : Crypto) (s : Server) (now : ℕ) (opts : TokenOptions) (token : Text)
    : Type 0 where
  pub key : Key
  pub header : Text
  pub claims : Text
  pub signature : Text
  pub jwk : Jwk
  pub published : Listed jwk (jwks crypto s)
  pub same_kid : jwk.kid ≡ key.kid
  pub rsa_key : (jwk.kty ≡ codes "RSA") × (jwk.alg ≡ codes "RS256") × (jwk.use_ ≡ codes "sig")
  pub modulus : jwk.n ≡ crypto.base64 (crypto.public key.priv).n
  pub exponent : jwk.e ≡ crypto.base64 (encode_exponent (crypto.public key.priv).e)
  pub asked : (opts.sign_with_kid ≡ []) ⊎ (key.kid ≡ opts.sign_with_kid)
  pub names_key : crypto.segment (header_of key.kid) ≡ some header
  pub holds_claims : crypto.segment (members_of (claims_of s now opts)) ≡ some claims
  pub signed_by : crypto.sign key.priv (header ++ (b'.' ∷ claims)) ≡ some signature
  pub parts : token ≡ (header ++ (b'.' ∷ claims)) ++ (b'.' ∷ signature)

mint_with-IsPublished :
    (crypto : Crypto) (s : Server) (now : ℕ) (opts : TokenOptions) (k : Key) (token : Text)
    → opts.kid_override ≡ []
    → IsSigner s.keys opts.sign_with_kid k
    → mint_with crypto s now opts k ≡ some token
    → IsPublished crypto s now opts token
unfolding mint_with jwks IsSigner
mint_with-IsPublished crypto s now opts k token plain (listed, asked) h =
    let own : kid_of k opts ≡ k.kid = rw plain refl in
    elim (Option-cases (crypto.segment (header_of (kid_of k opts)))) [
      | inl e ↦ absurd (ground arith)
      | inr (header, e) ↦ elim (Option-cases (crypto.segment (members_of (claims_of s now opts)))) [
        | inl e' ↦ absurd (ground arith)
        | inr (claims, e') ↦ elim (Option-cases (crypto.sign k.priv (header ++ (b'.' ∷ claims)))) [
          | inl e'' ↦ absurd (ground arith)
          | inr (signature, e'') ↦ record {
            key = k;
            header = header;
            claims = claims;
            signature = signature;
            jwk = jwk_of crypto k;
            same_kid = refl;
            rsa_key = (refl, refl, refl);
            modulus = refl;
            exponent = refl;
            published = Listed-map (jwk_of crypto) k s.keys listed;
            asked = asked;
            names_key = rw own at e;
            holds_claims = e';
            signed_by = e'';
            parts = ground arith;
          }
        ]
      ]
    ]

-- A token that is minted without a forged kid has three parts and is signed over the first two with a
-- key of the server, the one that was asked for if any was; its header names that key, and the key set
-- publishes the public half of it under that name.
pub mint-IsPublished :
    (crypto : Crypto) (s : Server) (now : ℕ) (opts : TokenOptions) (token : Text)
    → opts.kid_override ≡ []
    → mint crypto s now opts ≡ some token
    → IsPublished crypto s now opts token
unfolding mint
mint-IsPublished crypto s now opts token plain h =
    elim (Option-cases (signer s.keys opts.sign_with_kid)) [
      | inl e ↦ absurd (ground arith)
      | inr (k, e) ↦
          mint_with-IsPublished crypto s now opts k token plain
            (signer-IsSigner s.keys opts.sign_with_kid k e) (ground arith)
    ]
