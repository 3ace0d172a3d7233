-- ===== src/MockOidc/Tokens/Claims.antt =====
-- The claims of a minted token, by name.
use nats_oidc_callout.Prelude.{
  ℕ, ◌+◌, ◌≡◌, refl, ◌∙◌, Bool, true, false, ◌||◌, Option, none, some, List, [], ◌∷◌, arith, any,
}
use nats_oidc_callout.Prelude.Texts.{Text, codes, text_eq, text_eq_refl}
use nats_oidc_callout.Prelude.Int.{ℤ}
use nats_oidc_callout.Prelude.Maps.{lookup, insert, lookup-insert}
use nats_oidc_callout.Identity.{Json, str, number, namespace}
use nats_oidc_callout.MockOidc.{Server}
use nats_oidc_callout.MockOidc.Tokens.{
  TokenOptions, lifetime, time_or, unix, format_int, audience_of, put_if, given, namespaced,
  put_time, issuer_of, jti_of, claims_of,
}

insert-hit : (k : Text) (v : Json) (m : List (Text × Json)) → lookup k (insert k v m) ≡ some v
insert-hit k v m = rw (lookup-insert k k v m, text_eq_refl k) refl

insert-miss :
    (k j : Text) (v : Json) (m : List (Text × Json))
    → text_eq k j ≡ false
    → lookup j (insert k v m) ≡ lookup j m
insert-miss k j v m e = rw (lookup-insert k j v m, e) refl

or_split : (a b : Bool) → (a || b) ≡ false → (a ≡ false) × (b ≡ false)
or_split a b h = ground arith

put_if-miss :
    (b : Bool) (k j : Text) (v : Json) (m : List (Text × Json))
    → text_eq k j ≡ false
    → lookup j (put_if b k v m) ≡ lookup j m
put_if-miss true k j v m e = insert-miss k j v m e
put_if-miss false k j v m e = refl

put_time-miss :
    (k j : Text) (t : Option ℤ) (m : List (Text × Json))
    → text_eq k j ≡ false
    → lookup j (put_time k t m) ≡ lookup j m
put_time-miss k j none m e = refl
put_time-miss k j (some t) m e = insert-miss k j _ m e

-- The names that `Mint` writes.
abbrev pub standard : List Text
standard =
    namespace
    ∷ codes "nbf"
    ∷ codes "jti"
    ∷ codes "exp"
    ∷ codes "iat"
    ∷ codes "aud"
    ∷ codes "sub"
    ∷ codes "iss"
    ∷ []

-- The registered claims are those of the options, and every other extra claim is kept.
pub record AreStandard (s : Server) (now : ℕ) (opts : TokenOptions) : Type 0 where
  pub iss : lookup (codes "iss") (claims_of s now opts) ≡ some (str (issuer_of s opts))
  pub sub : lookup (codes "sub") (claims_of s now opts) ≡ some (str opts.subject)
  pub aud : lookup (codes "aud") (claims_of s now opts) ≡ some (audience_of opts.audience)
  pub exp :
      lookup (codes "exp") (claims_of s now opts)
      ≡ some (number (format_int (unix (time_or (now + lifetime) opts.expiry))))
  pub iat :
      lookup (codes "iat") (claims_of s now opts)
      ≡ some (number (format_int (unix (time_or now opts.issued_at))))
  pub kept :
      (k : Text)
      → any (λ n. text_eq n k) standard ≡ false
      → lookup k (claims_of s now opts) ≡ lookup k opts.extra_claims

module _ (s : Server) (now : ℕ) (opts : TokenOptions) where
  abbrev with_iss : List (Text × Json)
  with_iss = insert (codes "iss") (str (issuer_of s opts)) opts.extra_claims

  abbrev with_sub : List (Text × Json)
  with_sub = insert (codes "sub") (str opts.subject) with_iss

  abbrev with_aud : List (Text × Json)
  with_aud = insert (codes "aud") (audience_of opts.audience) with_sub

  abbrev with_iat : List (Text × Json)
  with_iat = insert (codes "iat") (number (format_int (unix (time_or now opts.issued_at)))) with_aud

  abbrev with_exp : List (Text × Json)
  with_exp =
      insert (codes "exp") (number (format_int (unix (time_or (now + lifetime) opts.expiry))))
        with_iat

  -- The claims put in behind "exp" leave the others alone.
  behind_exp :
      (k : Text)
      → text_eq namespace k ≡ false
      → text_eq (codes "nbf") k ≡ false
      → text_eq (codes "jti") k ≡ false
      → lookup k (claims_of s now opts) ≡ lookup k with_exp
  unfolding claims_of
  behind_exp k a b c =
      put_if-miss (given (namespaced opts)) namespace k _ _ a
      ∙ (put_time-miss (codes "nbf") k opts.not_before _ b
          ∙ insert-miss (codes "jti") k (str (jti_of now opts)) with_exp c)

  behind_iat : (k : Text) → text_eq (codes "exp") k ≡ false → lookup k with_exp ≡ lookup k with_iat
  behind_iat k e = insert-miss (codes "exp") k _ with_iat e

  behind_aud :
      (k : Text)
      → text_eq (codes "exp") k ≡ false
      → text_eq (codes "iat") k ≡ false
      → lookup k with_exp ≡ lookup k with_aud
  behind_aud k e f = behind_iat k e ∙ insert-miss (codes "iat") k _ with_aud f

  kept :
      (k : Text)
      → any (λ n. text_eq n k) standard ≡ false
      → lookup k (claims_of s now opts) ≡ lookup k opts.extra_claims
  kept k other =
      let (a, h1) = or_split (text_eq namespace k) _ other in
      let (b, h2) = or_split (text_eq (codes "nbf") k) _ h1 in
      let (c, h3) = or_split (text_eq (codes "jti") k) _ h2 in
      let (d, h4) = or_split (text_eq (codes "exp") k) _ h3 in
      let (e, h5) = or_split (text_eq (codes "iat") k) _ h4 in
      let (f, h6) = or_split (text_eq (codes "aud") k) _ h5 in
      let (g, h7) = or_split (text_eq (codes "sub") k) _ h6 in
      let (h, _) = or_split (text_eq (codes "iss") k) false h7 in
      behind_exp k a b c
      ∙ (behind_aud k d e
          ∙ (insert-miss (codes "aud") k _ with_sub f
              ∙ (insert-miss (codes "sub") k _ with_iss g
                  ∙ insert-miss (codes "iss") k _ opts.extra_claims h)))

  standard_claims : AreStandard s now opts
  unfolding text_eq
  standard_claims = record {
    iss =
        behind_exp (codes "iss") refl refl refl
        ∙ (behind_aud (codes "iss") refl refl
            ∙ (insert-miss (codes "aud") (codes "iss") _ with_sub refl
                ∙ (insert-miss (codes "sub") (codes "iss") _ with_iss refl
                    ∙ insert-hit (codes "iss") _ opts.extra_claims)));
    sub =
        behind_exp (codes "sub") refl refl refl
        ∙ (behind_aud (codes "sub") refl refl
            ∙ (insert-miss (codes "aud") (codes "sub") _ with_sub refl
                ∙ insert-hit (codes "sub") _ with_iss));
    aud =
        behind_exp (codes "aud") refl refl refl
        ∙ (behind_aud (codes "aud") refl refl ∙ insert-hit (codes "aud") _ with_sub);
    exp = behind_exp (codes "exp") refl refl refl ∙ insert-hit (codes "exp") _ with_iat;
    iat =
        behind_exp (codes "iat") refl refl refl
        ∙ (behind_iat (codes "iat") refl ∙ insert-hit (codes "iat") _ with_aud);
    kept = kept;
  }

-- A registered claim of a token is what the options say, not what an extra claim of its name holds;
-- any other extra claim is in the token as it is.
pub claims_of-AreStandard : (s : Server) (now : ℕ) (opts : TokenOptions) → AreStandard s now opts
claims_of-AreStandard s now opts = standard_claims s now opts
