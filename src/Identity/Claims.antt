-- ===== src/Identity/Claims.antt =====
-- What the flattened claims hold: the leaves of the payload, in the order in which they are written.
use nats_oidc_callout.Prelude.{
  ◌≡◌, refl, ap, ◌∙◌, Option, none, some, [], ◌∷◌, ◌++◌, arith, inl, inr, Bool-cases, if◌then◌else◌,
  All, Option-cases, ok,
}
use nats_oidc_callout.Prelude.Texts.{Text, text_eq}
use nats_oidc_callout.Prelude.Maps.{lookup, insert, lookup-insert}
use nats_oidc_callout.Identity.{
  Json, null, boolean, number, str, array, object, Members, end, member, Claims, flatten,
  flatten_members, dotted, format_bool, is_reserved, root_prefix, parse_members, Identity, parse,
  claim, DecodeObject,
}

-- Every wanted claim has its value in the identity.
abbrev pub HasClaims : Claims → Identity → Type 0
HasClaims wanted id = All (λ c. claim id c.0 ≡ some c.1) wanted

-- The scalar leaves below a prefix, in iteration order: what the flattening means.
unfoldable mutual
  pub leaves : Text → Json → Claims
  leaves prefix null = []
  leaves prefix (boolean b) = (prefix, format_bool b) ∷ []
  leaves prefix (number s) = (prefix, s) ∷ []
  leaves prefix (str s) = (prefix, s) ∷ []
  leaves prefix (array xs) = []
  leaves prefix (object ms) = leaves_of prefix ms

  pub leaves_of : Text → Members → Claims
  leaves_of prefix end = []
  leaves_of prefix (member k v ms) = leaves (dotted prefix k) v ++ leaves_of prefix ms

-- The leaves of a payload, its registered claims left out.
unfoldable pub payload_leaves : Members → Claims
payload_leaves end = []
payload_leaves (member k v ms) =
    (if is_reserved k then [] else leaves (root_prefix k) v) ++ payload_leaves ms

-- The last leaf with a key, which is the one that a map keeps.
unfoldable pub last_leaf : Text → Claims → Option Text
last_leaf key [] = none
last_leaf key ((k, v) ∷ rest) = elim (last_leaf key rest) [
  | some w ↦ some w
  | none ↦ if text_eq k key then some v else none
]

abbrev or_else : Option Text → Option Text → Option Text
or_else (some v) old = some v
or_else none old = old

last_leaf-append :
    (key : Text) (xs ys : Claims)
    → last_leaf key (xs ++ ys) ≡ or_else (last_leaf key ys) (last_leaf key xs)
unfolding last_leaf
last_leaf-append key [] ys = ground arith
last_leaf-append key ((k, v) ∷ xs) ys = ground (arith, last_leaf-append key xs ys)

lookup-insert_leaf :
    (key prefix v : Text) (out : Claims)
    → lookup key (insert prefix v out) ≡ or_else (last_leaf key ((prefix, v) ∷ [])) (lookup key out)
unfolding last_leaf
lookup-insert_leaf key prefix v out = ground (arith, lookup-insert prefix key v out)

mutual
  unfolding flatten leaves last_leaf

  lookup-flatten :
      (key prefix : Text) (v : Json) (out : Claims)
      → lookup key (flatten prefix v out)
        ≡ or_else (last_leaf key (leaves prefix v)) (lookup key out)
  lookup-flatten key prefix null out = refl
  lookup-flatten key prefix (array xs) out = refl
  lookup-flatten key prefix (boolean b) out = lookup-insert_leaf key prefix (format_bool b) out
  lookup-flatten key prefix (number s) out = lookup-insert_leaf key prefix s out
  lookup-flatten key prefix (str s) out = lookup-insert_leaf key prefix s out
  lookup-flatten key prefix (object ms) out = lookup-flatten_members key prefix ms out

  lookup-flatten_members :
      (key prefix : Text) (ms : Members) (out : Claims)
      → lookup key (flatten_members prefix ms out)
        ≡ or_else (last_leaf key (leaves_of prefix ms)) (lookup key out)
  lookup-flatten_members key prefix end out = refl
  lookup-flatten_members key prefix (member k v ms) out = ground (
    arith,
    lookup-flatten_members key prefix ms (flatten (dotted prefix k) v out),
    lookup-flatten key (dotted prefix k) v out,
    last_leaf-append key (leaves (dotted prefix k) v) (leaves_of prefix ms),
  )

lookup-parse_members :
    (key : Text) (ms : Members) (out : Claims)
    → lookup key (parse_members ms out)
      ≡ or_else (last_leaf key (payload_leaves ms)) (lookup key out)
unfolding parse_members payload_leaves last_leaf
lookup-parse_members key end out = refl
lookup-parse_members key (member k v ms) out = elim (Bool-cases (is_reserved k)) [
  | inl e ↦ ground (arith, lookup-parse_members key ms out)
  | inr e ↦ ground (
    arith,
    lookup-parse_members key ms (flatten (root_prefix k) v out),
    lookup-flatten key (root_prefix k) v out,
    last_leaf-append key (leaves (root_prefix k) v) (payload_leaves ms),
  )
]

or_else-none : (o : Option Text) → or_else o none ≡ o
or_else-none none = refl
or_else-none (some v) = refl

parse-claims :
    (decode : DecodeObject) (payload : Text) (id : Identity) (raw : Members)
    → decode payload ≡ some raw
    → parse decode payload ≡ ok id
    → id.claims ≡ parse_members raw []
unfolding parse
parse-claims decode payload id raw e h = ground arith

-- The claim of a parsed payload is the last leaf with that flattened name, the registered claims
-- left out.
pub claim-parse :
    (decode : DecodeObject) (payload key : Text) (id : Identity)
    → parse decode payload ≡ ok id
    → (raw : Members) × (decode payload ≡ some raw)
      × (claim id key ≡ last_leaf key (payload_leaves raw))
unfolding claim lookup
claim-parse decode payload key id h = elim (Option-cases (decode payload)) [
  | inl e ↦ absurd (unfold parse in ground arith)
  | inr (raw, e) ↦
      let same = parse-claims decode payload id raw e h in
      let found = lookup-parse_members key raw [] in
      (raw, e, ap (lookup key) same ∙ found ∙ or_else-none (last_leaf key (payload_leaves raw)))
]
