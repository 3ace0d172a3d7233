-- ===== src/Examples/Issuers.antt =====
-- Tokens of the test issuer.
use nats_oidc_callout.Prelude.Texts.{text_eq}
use nats_oidc_callout.MockOidc.{find_key}
use nats_oidc_callout.MockOidc.Tokens.{mint_with, signer}
use nats_oidc_callout.Prelude.{◌≡◌, refl, false, none, some, [], ◌∷◌}
use nats_oidc_callout.Prelude.Texts.{codes}
use nats_oidc_callout.MockOidc.{Server, Crypto}
use nats_oidc_callout.MockOidc.Tokens.{TokenOptions, mint}
use nats_oidc_callout.MockOidc.Tokens.Published.{IsPublished, mint-IsPublished}

abbrev server : Server
server = record {
  url = codes "http://idp";
  keys =
      (record { kid = codes "key-1"; priv = codes "P1" })
      ∷ (record { kid = codes "key-2"; priv = codes "P2" })
      ∷ [];
  jwks_requests = 0;
  held = false;
}

-- A signature names the key and ignores the input, and every segment is the same.
abbrev crypto : Crypto
crypto = record {
  public = λ priv. record { n = 1 ∷ []; e = 65_537 };
  base64 = λ bytes. [];
  sign = λ priv input. some priv;
  segment = λ members. some (codes "s");
}

abbrev options : TokenOptions
options = record {
  subject = codes "bot";
  audience = some (codes "nats" ∷ []);
  aws_account = [];
  org_id = [];
  principal_tags = [];
  issued_at = none;
  not_before = none;
  expiry = none;
  extra_claims = [];
  issuer_override = [];
  kid_override = [];
  sign_with_kid = codes "key-2";
}

token_minted : mint crypto server 5 options ≡ some (codes "s.s.P2")
unfolding mint signer find_key text_eq mint_with
token_minted = refl

mint-IsPublished_example : IsPublished crypto server 5 options (codes "s.s.P2")
mint-IsPublished_example =
    mint-IsPublished crypto server 5 options (codes "s.s.P2") refl token_minted
