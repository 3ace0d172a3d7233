-- ===== src/Identity.antt =====
-- internal/identity/identity.go: a verified identity and the flattening of a token's claims. The
-- JSON decoder (`encoding/json`) is a parameter; a decoded object lists its members in the order in
-- which Go's map iteration visits them.
pub mod Claims
pub mod Order
use nats_oidc_callout.Prelude.{
  ℕ, Bool, true, false, Option, none, some, List, [], ◌∷◌, ◌++◌, Result, ok, err, if◌then◌else◌,
  any,
}
use nats_oidc_callout.Prelude.Texts.{Text, codes, text_eq}
use nats_oidc_callout.Prelude.Maps.{lookup, insert}

-- A decoded JSON value; a number keeps its text (`UseNumber`).
mutual
  pub data Json : Type 0 where
    null : Json
    boolean : Bool → Json
    number : Text → Json
    str : Text → Json
    array : Items → Json
    object : Members → Json

  pub data Items : Type 0 where
    nil : Items
    cons : Json → Items → Items

  pub data Members : Type 0 where
    end : Members
    member : Text → Json → Members → Members

abbrev pub Claims : Type 0
Claims = List (Text × Text)

pub record Identity : Type 0 where
  pub issuer : Text
  pub subject : Text
  pub audience : List Text
  pub expiry : ℕ  -- nanoseconds since the epoch
  pub claims : Claims

-- `Namespace`
abbrev pub namespace : Text
namespace = codes "https://sts.amazonaws.com/"

abbrev pub aws_prefix : Text
aws_prefix = codes "aws"

abbrev pub reserved : List Text
reserved = codes "iss" ∷ codes "sub" ∷ codes "aud" ∷ codes "exp" ∷ codes "nbf" ∷ codes "iat" ∷ []

unfoldable pub is_reserved : Text → Bool
is_reserved k = any (λ r. text_eq r k) reserved

-- `New`; a nil map is the empty one.
unfoldable pub new : Text → Claims → Identity
new subject claims = record {
  issuer = [];
  subject = subject;
  audience = [];
  expiry = 0;
  claims = claims;
}

-- `(*Identity).Claim`
unfoldable pub claim : Identity → Text → Option Text
claim id name = lookup name id.claims

-- `strconv.FormatBool`
abbrev pub format_bool : Bool → Text
format_bool true = codes "true"
format_bool false = codes "false"

-- `prefix + "." + k`
abbrev pub dotted : Text → Text → Text
dotted prefix k = prefix ++ (codes "." ++ k)

-- `flatten`; the map `out` is returned.
unfoldable mutual
  pub flatten : Text → Json → Claims → Claims
  flatten prefix (object ms) out = flatten_members prefix ms out
  flatten prefix (str s) out = insert prefix s out
  flatten prefix (number s) out = insert prefix s out
  flatten prefix (boolean b) out = insert prefix (format_bool b) out
  flatten prefix null out = out
  flatten prefix (array xs) out = out

  pub flatten_members : Text → Members → Claims → Claims
  flatten_members prefix end out = out
  flatten_members prefix (member k child ms) out =
      flatten_members prefix ms (flatten (dotted prefix k) child out)

-- The prefix under which a top-level claim is flattened.
unfoldable pub root_prefix : Text → Text
root_prefix k = if text_eq k namespace then aws_prefix else k

-- The loop of `Parse` over the top-level claims.
unfoldable pub parse_members : Members → Claims → Claims
parse_members end out = out
parse_members (member k v ms) out =
    parse_members ms (if is_reserved k then out else flatten (root_prefix k) v out)

pub data ParseError : Type 0 where
  bad_json : ParseError

-- `json.Decoder` into a `map[string]any`: the members of one object, or none if the payload is not
-- JSON or not an object. A JSON null gives the empty map.
abbrev pub DecodeObject : Type 0
DecodeObject = Text → Option Members

-- `Parse`
unfoldable pub parse : DecodeObject → Text → Result ParseError Identity
parse decode payload = elim (decode payload) [
  | none ↦ err bad_json
  | some raw ↦ ok (record {
    issuer = [];
    subject = [];
    audience = [];
    expiry = 0;
    claims = parse_members raw [];
  })
]
