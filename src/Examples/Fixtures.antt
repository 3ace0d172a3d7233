-- ===== src/Examples/Fixtures.antt =====
-- Test data: a service account's rule, its identity, and an issuer that signs every token.
use nats_oidc_callout.Prelude.{ℕ, ◌+◌, true, false, Option, none, some, [], ◌∷◌}
use nats_oidc_callout.Prelude.Texts.{Text, codes}
use nats_oidc_callout.Prelude.Int.{pos}
use nats_oidc_callout.Regexp.{Engine}
use nats_oidc_callout.Identity.{Identity, Members, end, member, str, object, number}
use nats_oidc_callout.Authz.Cel.{Cel, failed}
use nats_oidc_callout.Authz.Rules.{Rule}
use nats_oidc_callout.Authz.Policy.{Policy}
use nats_oidc_callout.Verifier.{Codec, Oidc, IdToken, IssuerEntry, Verifier}
use nats_oidc_callout.Verifier.KeySet.{Client, KeySet}
use nats_oidc_callout.Callout.{Request, Services, Moment, UserClaims}

-- No pattern outside the modelled syntax compiles.
abbrev pub engine : Engine
engine = record { compiles = λ _. false; find = λ _ _. none }

-- No expression compiles.
abbrev pub cel : Cel
cel = record {
  new_env = λ _. true;
  compiles = λ _ _. false;
  is_bool = λ _ _. false;
  makes_program = λ _ _. false;
  eval = λ _ _. failed;
}

abbrev pub bot_rule : Rule
bot_rule = record {
  name = codes "bot";
  match = record {
    issuer = [];
    sub = codes "bot";
    claims = (codes "env", codes "prod") ∷ [];
    expr = [];
    allow_broad = false;
  };
  grant = record {
    account = codes "APP";
    publish = some (record { allow = codes "a.>" ∷ []; deny = [] });
    subscribe = none;
    response = none;
    max_expiry = pos 60_000_000_000;
  };
  matcher = none;
  cel_program = none;
}

-- A rule for another subject, in front.
abbrev pub other_rule : Rule
other_rule = record bot_rule { name = []; match = record bot_rule.match { sub = codes "cat" } }

abbrev pub policy : Policy
policy = record { rules = other_rule ∷ bot_rule ∷ []; validated = false }

-- {"env": "prod", "iat": 5, "nested": {"a": "b"}}
abbrev pub members : Members
members = member (codes "env") (str (codes "prod")) (
    member (codes "iat") (number (codes "5"))
      (member (codes "nested") (object (member (codes "a") (str (codes "b")) end)) end))

abbrev pub bot : Identity
bot = record {
  issuer = codes "iss";
  subject = codes "bot";
  audience = codes "nats" ∷ [];
  expiry = 2_000_000_001_000;
  claims = (codes "env", codes "prod") ∷ (codes "nested.a", codes "b") ∷ [];
}

-- Every payload is that of the bot.
abbrev pub codec : Codec
codec = record {
  base64 = λ s. some s;
  issuer = λ _. some (codes "iss");
  members = λ _. some members;
}

abbrev pub id_token : Text → ℕ → Text → IdToken
id_token url now payload = record {
  issuer = url;
  subject = codes "bot";
  audience = codes "nats" ∷ [];
  expiry = now + 1_000_000_001_000;
  claims = some payload;
}

-- A token is accepted if its signature is.
abbrev pub accept : Text → ℕ → Option Text → Option IdToken
accept url now none = none
accept url now (some payload) = some (id_token url now payload)

abbrev pub oidc : Oidc
oidc signature url algs now raw = accept url now (signature raw)

-- Every issuer signs every token.
abbrev pub signature : Text → Text → Option Text
signature url raw = some (codes "{}")

abbrev pub client : Client
client = record { timeout = pos 10_000_000_000; root_cas = none }

-- A key set that is still empty.
abbrev pub key_set : KeySet
key_set = record {
  jwks_url = codes "keys";
  client = client;
  algs = codes "RS256" ∷ [];
  interval = 30_000_000_000;
  keys = [];
  last_fetch = none;
  inflight = false;
}

abbrev pub issuer_entry : IssuerEntry
issuer_entry = record {
  url = codes "iss";
  algs = codes "RS256" ∷ [];
  require_claims = (codes "env", codes "prod") ∷ [];
  key_set = key_set;
}

abbrev pub verifier : Verifier
verifier = record { issuers = (codes "iss", issuer_entry) ∷ []; audiences = codes "nats" ∷ [] }

abbrev pub raw_token : Text
raw_token = codes "h.p.s"

abbrev pub now : ℕ
now = 1_000_000_000_000

abbrev pub clock : Moment
clock = record { signature = signature; verified = now; evaluated = now; capped = now; elapsed = 5 }

abbrev pub request : Request
request = record { user_nkey = codes "U1"; token = raw_token }

-- The JWT is the user's key.
abbrev pub encode_subject : UserClaims → Option Text
encode_subject uc = some uc.subject

abbrev pub services : Services
services = record {
  codec = codec;
  oidc = oidc;
  engine = engine;
  cel = cel;
  encode = encode_subject;
}
