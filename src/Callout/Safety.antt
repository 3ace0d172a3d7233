-- ===== src/Callout/Safety.antt =====
-- What an issued user JWT says under an accepted policy, through all parts of the authorization.
use nats_oidc_callout.Prelude.{
  ℕ, ◌*◌, ◌≤◌, ◌≡◌, refl, true, none, some, ◌⊎◌, ok, arith, get_elem?, zero, suc, ◌+◌, Option, [],
  ◌∷◌, if◌then◌else◌,
}
use nats_oidc_callout.Prelude.Texts.{Text, codes}
use nats_oidc_callout.Prelude.Int.{ℤ, pos, negsuc, is_positive, pos_part}
use nats_oidc_callout.Prelude.Maps.{lookup}
use nats_oidc_callout.Identity.{Identity}
use nats_oidc_callout.Authz.Rules.{Permission, Rule, Decision, jwt_permission, permission_limits}
use nats_oidc_callout.Authz.Rules.Matching.{IsMatched, IsPinned}
use nats_oidc_callout.Authz.Policy.{Policy, evaluate, decide_by}
use nats_oidc_callout.Authz.Policy.Guardrail.{
  IsExplicit, IsValidPolicy-IsPinned, IsValidPolicy-IsExplicit,
}
use nats_oidc_callout.Authz.Policy.Validation.{IsValidPolicy}
use nats_oidc_callout.Verifier.{Verifier, OidcLaws, IssuerEntry, google, verify}
use nats_oidc_callout.Verifier.Trust.{verify_authentic}
use nats_oidc_callout.Callout.{
  Request, UserClaims, Authorizer, Services, Moment, user_claims, authorize,
}
use nats_oidc_callout.Callout.Issuing.{authorize-eq-ok_iff, user_claims-expires_le}

-- The permission is the one that a direction of the grant gives: its own lists, or a denial of every
-- subject if the direction is left out.
abbrev pub Gives : Option Permission → Permission → Type 0
Gives none p = (p.allow ≡ []) × (p.deny ≡ codes ">" ∷ [])
Gives (some given) p = (p.allow ≡ given.allow) × (p.deny ≡ given.deny)

-- The cap of a grant, if it has one, counted from a time.
abbrev pub IsCapped : ℕ → ℤ → ℕ → Type 0
IsCapped now (pos (suc cap)) expires = expires * 1_000_000_000 ≤ now + suc cap
IsCapped now _ expires = Unit

-- The whole case for a user JWT: the claims that it encodes, the issuer's signature behind the
-- identity, and the rule behind the permissions.
pub record Safe (s : Services) (t : Moment) (v : Verifier) (p : Policy) (req : Request)
    (user_jwt : Text) : Type 0 where
  pub uc : UserClaims
  pub id : Identity
  pub named : Text
  pub entry : IssuerEntry
  pub payload : Text
  pub rule : Rule
  pub index : ℕ
  pub encoded : s.encode uc ≡ some user_jwt
  pub user : uc.subject ≡ req.user_nkey
  pub name : uc.name ≡ id.subject
  pub configured : lookup named v.issuers ≡ some entry
  pub from_issuer : (id.issuer ≡ entry.url) ⊎ (entry.url ≡ google)
  pub signed : t.signature entry.url req.token ≡ some payload
  pub verified : verify s.codec s.oidc t.signature v t.verified req.token ≡ ok id
  pub alive : t.verified ≤ id.expiry
  pub bounded : uc.expires * 1_000_000_000 ≤ id.expiry
  pub listed : get_elem? p.rules index ≡ some rule
  pub matched : IsMatched s.engine s.cel t.evaluated rule id
  pub pinned : (rule.match.allow_broad ≡ true) ⊎ IsPinned rule.match id
  pub capped : IsCapped t.capped rule.grant.max_expiry uc.expires
  pub account : uc.audience ≡ rule.grant.account
  pub publishes : Gives rule.grant.publish uc.permissions.publish
  pub subscribes : Gives rule.grant.subscribe uc.permissions.subscribe
  pub responds : uc.permissions.resp ≡ rule.grant.response
  pub publish : IsExplicit uc.permissions.publish
  pub subscribe : IsExplicit uc.permissions.subscribe

user_claims-audience :
    (req : Request) (now : ℕ) (id : Identity) (rule : Rule) (index : ℕ)
    → (user_claims req now id (decide_by rule index)).audience ≡ rule.grant.account
unfolding user_claims
user_claims-audience req now id rule index = refl

user_claims-subject :
    (req : Request) (now : ℕ) (id : Identity) (rule : Rule) (index : ℕ)
    → (user_claims req now id (decide_by rule index)).subject ≡ req.user_nkey
unfolding user_claims
user_claims-subject req now id rule index = refl

user_claims-name :
    (req : Request) (now : ℕ) (id : Identity) (d : Decision)
    → (user_claims req now id d).name ≡ id.subject
unfolding user_claims
user_claims-name req now id d = refl

jwt_permission-Gives : (p : Option Permission) → Gives p (jwt_permission p)
unfolding jwt_permission
jwt_permission-Gives none = (refl, refl)
jwt_permission-Gives (some p) = (refl, refl)

-- The permissions of a decision are those of the rule's grant, each direction its own.
user_claims-Gives :
    (req : Request) (now : ℕ) (id : Identity) (rule : Rule) (index : ℕ)
    → Gives rule.grant.publish (user_claims req now id (decide_by rule index)).permissions.publish
      × Gives rule.grant.subscribe
          (user_claims req now id (decide_by rule index)).permissions.subscribe
      × ((user_claims req now id (decide_by rule index)).permissions.resp ≡ rule.grant.response)
unfolding user_claims permission_limits
user_claims-Gives req now id rule index =
    (jwt_permission-Gives rule.grant.publish, jwt_permission-Gives rule.grant.subscribe, refl)

le-IsCapped :
    (now expiry expires : ℕ) (cap : ℤ)
    → expires * 1_000_000_000 ≤ (if is_positive cap then now + pos_part cap else expiry)
    → IsCapped now cap expires
le-IsCapped now expiry expires (pos zero) h = tt
le-IsCapped now expiry expires (pos (suc n)) h = ground arith
le-IsCapped now expiry expires (negsuc n) h = tt

user_claims-IsCapped :
    (req : Request) (now : ℕ) (id : Identity) (rule : Rule) (index : ℕ)
    → IsCapped now rule.grant.max_expiry (user_claims req now id (decide_by rule index)).expires
user_claims-IsCapped req now id rule index =
    le-IsCapped now id.expiry (user_claims req now id (decide_by rule index)).expires
      rule.grant.max_expiry (user_claims-expires_le req now id (decide_by rule index)).1

user_claims-IsExplicit :
    (s : Services) (t : Moment) (p : Policy) (req : Request) (id : Identity) (rule : Rule)
    (index : ℕ)
    → IsValidPolicy s.engine s.cel p
    → evaluate s.engine s.cel t.evaluated p id ≡ ok (decide_by rule index)
    → IsExplicit (user_claims req t.capped id (decide_by rule index)).permissions.publish
      × IsExplicit (user_claims req t.capped id (decide_by rule index)).permissions.subscribe
unfolding user_claims
user_claims-IsExplicit s t p req id rule index valid granted =
    let (publish, subscribe, _) =
      IsValidPolicy-IsExplicit s.engine s.cel t.evaluated p id (decide_by rule index) valid
        granted in
    (publish, subscribe)

-- The same of an authorizer that serves a valid policy.
pub IsValidPolicy-Safe :
    (s : Services) (t : Moment) (a : Authorizer) (req : Request) (user_jwt : Text)
    → OidcLaws s.oidc
    → IsValidPolicy s.engine s.cel a.state.policy
    → (authorize s t a req).1 ≡ ok user_jwt
    → Safe s t a.state.verifier a.state.policy req user_jwt
IsValidPolicy-Safe s t a req user_jwt laws valid h =
    let i = (authorize-eq-ok_iff s t a req user_jwt).0 h in
    let (alive, named, entry, payload, _, configured, issuer, signed, _, _) =
      verify_authentic s.codec s.oidc t.signature a.state.verifier t.verified req.token i.id laws
        i.verified in
    let (rule, index, listed, decided, matched, pinned, _) =
      IsValidPolicy-IsPinned s.engine s.cel t.evaluated a.state.policy i.id i.decision valid
        i.granted in
    let (publish, subscribe) =
      user_claims-IsExplicit s t a.state.policy req i.id rule index valid
        (rw decided at i.granted) in
    let (publishes, subscribes, responds) = user_claims-Gives req t.capped i.id rule index in
    record {
      uc = user_claims req t.capped i.id (decide_by rule index);
      id = i.id;
      named = named;
      entry = entry;
      payload = payload;
      rule = rule;
      index = index;
      encoded = rw decided at i.signed;
      user = user_claims-subject req t.capped i.id rule index;
      configured = configured;
      from_issuer = issuer;
      signed = signed;
      verified = i.verified;
      alive = alive;
      bounded = (user_claims-expires_le req t.capped i.id (decide_by rule index)).0;
      listed = listed;
      matched = matched;
      pinned = pinned;
      name = user_claims-name req t.capped i.id (decide_by rule index);
      capped = user_claims-IsCapped req t.capped i.id rule index;
      account = user_claims-audience req t.capped i.id rule index;
      publishes = publishes;
      subscribes = subscribes;
      responds = responds;
      publish = publish;
      subscribe = subscribe;
    }
