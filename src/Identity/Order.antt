-- ===== src/Identity/Order.antt =====
-- Map iteration order and the registered claims: when the order of a payload's members matters.
use nats_oidc_callout.Prelude.{
  ◌≡◌, refl, ap, ◌∙◌, true, false, none, some, List, [], ◌∷◌, arith, ◌≢◌, ◌⊎◌, ◌↔◌, inl, inr,
  Bool-cases, Option-cases, ok, All, All-append, any,
}
use nats_oidc_callout.Prelude.Texts.{Text, text_eq, text_eq_iff}
use mathlib.Core.Path.{subst}
use nats_oidc_callout.Strings.{contains_byte}
use nats_oidc_callout.Identity.{
  Json, null, boolean, number, str, array, object, Members, end, member, Claims, dotted,
  is_reserved, root_prefix, reserved, aws_prefix, namespace, Identity, parse, claim, DecodeObject,
}
use nats_oidc_callout.Identity.Claims.{leaves, leaves_of, payload_leaves, last_leaf, claim-parse}

-- One of the leaves has this name and value.
abbrev pub Leaf : Text → Text → Claims → Type 0
Leaf key v [] = ⊥
Leaf key v ((k, w) ∷ rest) = ((k ≡ key) × (w ≡ v)) ⊎ Leaf key v rest

-- No two leaves share a name.
abbrev pub Distinct : Claims → Type 0
Distinct [] = Unit
Distinct ((k, w) ∷ rest) = All (λ c. c.0 ≢ k) rest × Distinct rest

last_leaf-Leaf : (key v : Text) (ls : Claims) → last_leaf key ls ≡ some v → Leaf key v ls
unfolding last_leaf
last_leaf-Leaf key v [] h = cc
last_leaf-Leaf key v ((k, w) ∷ ls) h = elim (Option-cases (last_leaf key ls)) [
  | inl e ↦ inl (ground (arith, text_eq_iff k key))
  | inr (u, e) ↦ inr (last_leaf-Leaf key v ls (ground arith))
]

last_leaf_absent : (key : Text) (ls : Claims) → All (λ c. c.0 ≢ key) ls → last_leaf key ls ≡ none
unfolding last_leaf
last_leaf_absent key [] h = refl
last_leaf_absent key ((k, w) ∷ ls) (p, h) =
    ground (arith, text_eq_iff k key, last_leaf_absent key ls h)

Leaf-last_leaf :
    (key v : Text) (ls : Claims) → Distinct ls → Leaf key v ls → last_leaf key ls ≡ some v
unfolding last_leaf
Leaf-last_leaf key v [] d h = absurd h
Leaf-last_leaf key v ((k, w) ∷ ls) (fresh, d) (inl (e, e')) =
    ground (arith, text_eq_iff k key, last_leaf_absent key ls (rw e at fresh))
Leaf-last_leaf key v ((k, w) ∷ ls) (fresh, d) (inr h) = rw (Leaf-last_leaf key v ls d h)

-- Where no two leaves of the payload share a flattened name, an identity has a claim exactly if it
-- is one of them: the order in which Go visits the members plays no part.
pub claim_iff_Leaf :
    (decode : DecodeObject) (payload key v : Text) (id : Identity) (raw : Members)
    → parse decode payload ≡ ok id
    → decode payload ≡ some raw
    → Distinct (payload_leaves raw)
    → (claim id key ≡ some v) ↔ Leaf key v (payload_leaves raw)
claim_iff_Leaf decode payload key v id raw h e d =
    let (raw', e', same) = claim-parse decode payload key id h in
    let equal : raw' ≡ raw = cc in
    let same' : claim id key ≡ last_leaf key (payload_leaves raw) = rw equal at same in
    rw same'
      (last_leaf-Leaf key v (payload_leaves raw), Leaf-last_leaf key v (payload_leaves raw) d)

-- A test that some text of the list passes by being `r` carries a property of the list over to `r`.
any_text_eq :
    (P : Text → Type 0) (r : Text) (xs : List Text)
    → All P xs
    → any (λ x. text_eq x r) xs ≡ true
    → P r
any_text_eq P r [] h e = cc
any_text_eq P r (x ∷ xs) (p, h) e = elim (Bool-cases (text_eq x r)) [
  | inl same ↦ subst P ((text_eq_iff x r).0 same) p
  | inr other ↦ any_text_eq P r xs h (ground arith)
]

reserved_no_dot : (r : Text) → is_reserved r ≡ true → contains_byte b'.' r ≡ false
unfolding is_reserved contains_byte
reserved_no_dot r h =
    any_text_eq (λ s. contains_byte b'.' s ≡ false) r reserved
      (refl, (refl, (refl, (refl, (refl, (refl, tt)))))) h

contains_byte-dotted : (prefix k : Text) → contains_byte b'.' (dotted prefix k) ≡ true
unfolding contains_byte
contains_byte-dotted [] k = refl
contains_byte-dotted (c ∷ prefix) k = ground (arith, contains_byte-dotted prefix k)

-- A name without a dot is no leaf below another prefix.
module _ (r : Text) (no_dot : contains_byte b'.' r ≡ false) where
  dotted-ne : (prefix k : Text) → dotted prefix k ≢ r
  dotted-ne prefix k e = cc (ap (contains_byte b'.') e, contains_byte-dotted prefix k)

  mutual
    unfolding leaves

    leaves-ne : (prefix : Text) (v : Json) → prefix ≢ r → All (λ c. c.0 ≢ r) (leaves prefix v)
    leaves-ne prefix null h = tt
    leaves-ne prefix (array xs) h = tt
    leaves-ne prefix (boolean b) h = (h, tt)
    leaves-ne prefix (number s) h = (h, tt)
    leaves-ne prefix (str s) h = (h, tt)
    leaves-ne prefix (object ms) h = leaves_of-ne prefix ms

    leaves_of-ne : (prefix : Text) (ms : Members) → All (λ c. c.0 ≢ r) (leaves_of prefix ms)
    leaves_of-ne prefix end = tt
    leaves_of-ne prefix (member k v ms) =
        All-append (λ c. c.0 ≢ r) (leaves (dotted prefix k) v) (leaves_of prefix ms)
          (leaves-ne (dotted prefix k) v (dotted-ne prefix k)) (leaves_of-ne prefix ms)

root_prefix-ne : (r k : Text) → is_reserved r ≡ true → is_reserved k ≡ false → root_prefix k ≢ r
unfolding root_prefix
root_prefix-ne r k h e same = elim (Bool-cases (text_eq k namespace)) [
  | inl aws ↦
      let unreserved : is_reserved aws_prefix ≡ false = unfold is_reserved text_eq in refl in
      let r_is_aws : aws_prefix ≡ r = ground arith in cc (ap is_reserved r_is_aws)
  | inr other ↦ let r_is_k : k ≡ r = ground arith in cc (ap is_reserved r_is_k)
]

payload_leaves-ne :
    (r : Text) (ms : Members) → is_reserved r ≡ true → All (λ c. c.0 ≢ r) (payload_leaves ms)
unfolding payload_leaves
payload_leaves-ne r end h = tt
payload_leaves-ne r (member k v ms) h = elim (Bool-cases (is_reserved k)) [
  | inl e ↦ rw e (payload_leaves-ne r ms h)
  | inr e ↦ rw e (
      All-append (λ c. c.0 ≢ r) (leaves (root_prefix k) v) (payload_leaves ms)
        (leaves-ne r (reserved_no_dot r h) (root_prefix k) v (root_prefix-ne r k h e))
        (payload_leaves-ne r ms h))
]

-- A registered claim (iss, sub, aud, exp, nbf, iat) is never among the matchable claims, whatever
-- the payload holds.
pub claim-reserved :
    (decode : DecodeObject) (payload key : Text) (id : Identity)
    → parse decode payload ≡ ok id
    → is_reserved key ≡ true
    → claim id key ≡ none
claim-reserved decode payload key id h e =
    let (raw, _, same) = claim-parse decode payload key id h in
    same ∙ last_leaf_absent key (payload_leaves raw) (payload_leaves-ne key raw e)
