-- ===== src/Verifier/Issuers.antt =====
-- Which issuers a verifier that `New` returns trusts.
use nats_oidc_callout.Verifier.Entries.{
  Honours, IsClient-unique, uri_of_iff, made_entry-Honours, Honours-made_entry,
}
use nats_oidc_callout.Prelude.{
  In, sym, subst, ◌≡◌, ◌≢◌, refl, ◌∙◌, false, none, some, List, [], ◌∷◌, arith, ◌⊎◌, ◌↔◌, inl, inr,
  ok, Bool-cases, Result-cases, fail_if-ok, ok-injective, >>=-eq-ok, is_empty,
}
use nats_oidc_callout.Prelude.Texts.{Text, text_eq, text_eq_iff}
use nats_oidc_callout.Prelude.Maps.{lookup, insert, has_key, lookup-insert}
use nats_oidc_callout.Verifier.KeySet.{Client}
use nats_oidc_callout.Verifier.{
  IssuerEntry, IssuerOption, Options, Verifier, Discovery, metadata, uri_of, made_entry,
  http_client, add_issuers, new,
}

-- One of the options configures the issuer with this entry, whose keys are at the address that
-- discovery finds for it.
abbrev Configured : (Text → Discovery) → Options → Text → IssuerEntry → List IssuerOption → Type 0
Configured discover opts url entry [] = ⊥
Configured discover opts url entry (iss ∷ rest) =
    ((iss.url ≡ url)
      × (uri : Text) × (uri_of iss.url (discover iss.url) ≡ ok uri)
      × (made_entry opts iss uri ≡ entry))
    ⊎ Configured discover opts url entry rest

absent : {V : Type 0} (k : Text) (m : List (Text × V)) → has_key k m ≡ false → lookup k m ≡ none
absent k m h = ground arith

added :
    {V : Type 0} (k url : Text) (v w : V) (m : List (Text × V))
    → lookup k m ≡ none
    → (lookup url (insert k v m) ≡ some w) ↔ ((lookup url m ≡ some w) ⊎ ((k ≡ url) × (v ≡ w)))
added k url v w m fresh = elim (Bool-cases (text_eq k url)) [
  | inl e ↦
      let same = (text_eq_iff k url).0 e in
      let found : lookup url (insert k v m) ≡ some v = lookup-insert k url v m ∙ rw e refl in
      let none_yet : lookup url m ≡ none = rw same at fresh in ground (arith, same, found, none_yet)
  | inr e ↦
      let found : lookup url (insert k v m) ≡ lookup url m = lookup-insert k url v m ∙ rw e refl in
      ground (arith, found, text_eq_iff k url)
]

add_issuers-step :
    (discover : Text → Discovery) (opts : Options) (iss : IssuerOption) (rest : List IssuerOption)
    (m out : List (Text × IssuerEntry))
    → add_issuers discover opts (iss ∷ rest) m ≡ ok out
    → (has_key iss.url m ≡ false)
      × (uri : Text) × (uri_of iss.url (discover iss.url) ≡ ok uri)
      × (add_issuers discover opts rest (insert iss.url (made_entry opts iss uri) m) ≡ ok out)
unfolding add_issuers
add_issuers-step discover opts iss rest m out h = elim (Bool-cases (has_key iss.url m)) [
  | inl e ↦ absurd (ground arith)
  | inr e ↦ elim (Result-cases (uri_of iss.url (discover iss.url))) [
    | inl (_, e') ↦ absurd (ground arith)
    | inr (uri, e') ↦ (e, uri, e', ground arith)
  ]
]

-- The entry of an option is the one that its discovery makes.
entry_iff :
    (discover : Text → Discovery) (opts : Options) (iss : IssuerOption) (uri url : Text)
    (entry : IssuerEntry)
    → uri_of iss.url (discover iss.url) ≡ ok uri
    → ((iss.url ≡ url) × (made_entry opts iss uri ≡ entry)) ↔ (
        (iss.url ≡ url)
        × (u : Text) × (uri_of iss.url (discover iss.url) ≡ ok u)
        × (made_entry opts iss u ≡ entry))
entry_iff discover opts iss uri url entry found = (
  λ h. (h.0, uri, found, h.1),
  λ h.
      let (same, u, also, made) = h in
      let equal : uri ≡ u = ok-injective uri u _ found also in (same, rw equal made),
)

assoc {ℓ κ μ ν ξ} :
    {P : Type ℓ} {Q : Type κ} {R : Type μ} {S : Type ν} {T : Type ξ}
    → P ↔ (Q ⊎ T)
    → Q ↔ (R ⊎ S)
    → P ↔ (R ⊎ (S ⊎ T))
assoc f g = (
  λ p. elim (f.0 p) [
    | inl q ↦ elim (g.0 q) [ inl r ↦ inl r | inr s ↦ inr (inl s) ]
    | inr t ↦ inr (inr t)
  ],
  λ h. elim h [
    | inl r ↦ f.1 (inl (g.1 (inl r)))
    | inr more ↦ elim more [ inl s ↦ f.1 (inl (g.1 (inr s))) | inr t ↦ f.1 (inr t) ]
  ],
)

nothing_else {ℓ} : {P : Type ℓ} → P ↔ (P ⊎ ⊥)
nothing_else = (inl, λ h. elim h [ inl p ↦ p | inr n ↦ absurd n ])

second_iff {ℓ κ μ} : {R : Type ℓ} {S : Type κ} {S' : Type μ} → S ↔ S' → (R ⊎ S) ↔ (R ⊎ S')
second_iff f = (
  λ h. elim h [ inl r ↦ inl r | inr s ↦ inr (f.0 s) ],
  λ h. elim h [ inl r ↦ inl r | inr s ↦ inr (f.1 s) ],
)

iff_trans {ℓ κ μ} : {P : Type ℓ} {Q : Type κ} {R : Type μ} → P ↔ Q → Q ↔ R → P ↔ R
iff_trans f g = (λ p. g.0 (f.0 p), λ r. f.1 (g.1 r))

add_issuers_iff :
    (discover : Text → Discovery) (opts : Options) (options : List IssuerOption)
    (m out : List (Text × IssuerEntry)) (url : Text) (entry : IssuerEntry)
    → add_issuers discover opts options m ≡ ok out
    → (lookup url out ≡ some entry)
      ↔ ((lookup url m ≡ some entry) ⊎ Configured discover opts url entry options)
add_issuers_iff discover opts [] m out url entry h =
    let same : m ≡ out = unfold add_issuers in ground arith in rw same nothing_else
add_issuers_iff discover opts (iss ∷ rest) m out url entry h =
    let (free, uri, found, later) = add_issuers-step discover opts iss rest m out h in
    let outer =
      add_issuers_iff discover opts rest (insert iss.url (made_entry opts iss uri) m) out url entry
        later in
    let inner = added iss.url url (made_entry opts iss uri) entry m (absent iss.url m free) in
    assoc outer (iff_trans inner (second_iff (entry_iff discover opts iss uri url entry found)))

ne_of_is_empty : {A : Type 0} (xs : List A) → is_empty xs ≡ false → xs ≢ []
ne_of_is_empty [] h e = cc
ne_of_is_empty (x ∷ xs) h e = cc

none_first {ℓ} : {P : Type 0} {Q : Type ℓ} → ¬ P → (P ⊎ Q) ↔ Q
none_first n = (λ h. elim h [ inl p ↦ absurd (n p) | inr q ↦ q ], inr)

built_iff :
    (discover : Text → Discovery) (opts : Options) (options : List IssuerOption)
    (out : List (Text × IssuerEntry)) (url : Text) (entry : IssuerEntry)
    → add_issuers discover opts options [] ≡ ok out
    → (lookup url out ≡ some entry) ↔ Configured discover opts url entry options
unfolding lookup
built_iff discover opts options out url entry h =
    let all = add_issuers_iff discover opts options [] out url entry h in
    let only = none_first (λ (found : lookup {V = IssuerEntry} url [] ≡ some entry). cc) in
    (λ found. only.0 (all.0 found), λ c. all.1 (inr c))

module _ (discover : Client → Text → Discovery) (opts : Options) (url : Text)
    (entry : IssuerEntry) where
  origin_of :
      (issuers : List IssuerOption)
      → Configured (discover (http_client opts)) opts url entry issuers
      → (iss : IssuerOption) × In iss issuers × (iss.url ≡ url) × Honours discover opts iss entry
  origin_of [] c = absurd c
  origin_of (iss ∷ rest) (inl (same, uri, found, made)) = (
    iss,
    inl refl,
    same,
    subst (λ e. Honours discover opts iss e) made (made_entry-Honours discover opts iss uri found),
  )
  origin_of (iss ∷ rest) (inr later) =
      let (other, listed, same, honours) = origin_of rest later in
      (other, inr listed, same, honours)

  configures :
      (iss : IssuerOption) (issuers : List IssuerOption)
      → In iss issuers
      → iss.url ≡ url
      → Honours discover opts iss entry
      → Configured (discover (http_client opts)) opts url entry issuers
  configures iss (x ∷ rest) (inr later) same h = inr (configures iss rest later same h)
  configures iss (x ∷ rest) (inl e) same h =
      let client = IsClient-unique opts entry.key_set.client h.client in
      let found =
        subst (λ c. discover c iss.url ≡ metadata entry.key_set.jwks_url) client h.discovered in
      let uri = (uri_of_iff iss.url entry.key_set.jwks_url _).1 (found, h.address) in
      subst (λ x. Configured (discover (http_client opts)) opts url entry (x ∷ rest)) (sym e)
        (inl (same, entry.key_set.jwks_url, uri, Honours-made_entry discover opts iss entry h))
  configures iss [] c same h = absurd c

new-Configured :
    (discover : Client → Text → Discovery) (opts : Options) (v : Verifier) (url : Text)
    (entry : IssuerEntry)
    → new discover opts ≡ ok v
    → (v.audiences ≡ opts.audiences)
      × (v.audiences ≢ [])
      × ((lookup url v.issuers ≡ some entry)
          ↔ Configured (discover (http_client opts)) opts url entry opts.issuers)
unfolding new
new-Configured discover opts v url entry h =
    let (_, h1) = fail_if-ok (is_empty opts.issuers) _ _ h in
    let (given, h2) = fail_if-ok (is_empty opts.audiences) _ _ h1 in
    let (_, h3) = fail_if-ok (is_empty opts.signing_algs) _ _ h2 in
    let (out, made, h4) =
      >>=-eq-ok (add_issuers (discover (http_client opts)) opts opts.issuers []) _ h3 in
    let built : (record { issuers = out; audiences = opts.audiences }) ≡ v =
      ok-injective _ v (ok _) refl h4 in
    rw (← built) (
      refl,
      ne_of_is_empty opts.audiences given,
      built_iff (discover (http_client opts)) opts opts.issuers out url entry made,
    )

-- A verifier that is built allows the configured audiences, one at least, and trusts an issuer, under an
-- entry, exactly if an option names it and the entry is the one that this option asks for: with the
-- configured algorithms and the issuer's own required claims, and with a key set that fetches, no more
-- often than configured, from the address that discovery found for the issuer, over a client with the
-- configured timeout and root certificates. The trust set is neither wider nor narrower.
pub new_iff :
    (discover : Client → Text → Discovery) (opts : Options) (v : Verifier) (url : Text)
    (entry : IssuerEntry)
    → new discover opts ≡ ok v
    → (v.audiences ≡ opts.audiences)
      × (v.audiences ≢ [])
      × ((lookup url v.issuers ≡ some entry) ↔ (
          (iss : IssuerOption) × In iss opts.issuers
          × (iss.url ≡ url)
          × Honours discover opts iss entry))
new_iff discover opts v url entry h =
    let (audiences, given, trusted) = new-Configured discover opts v url entry h in
    (
      audiences,
      given,
      (
        λ found. origin_of discover opts url entry opts.issuers (trusted.0 found),
        λ c.
            let (iss, listed, same, honours) = c in
            trusted.1 (configures discover opts url entry iss opts.issuers listed same honours),
      ),
    )
