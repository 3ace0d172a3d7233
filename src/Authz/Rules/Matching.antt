-- ===== src/Authz/Rules/Matching.antt =====
-- What a rule that matches says of the identity: its claims and its pins.
use nats_oidc_callout.Prelude.{
  ℕ, ◌≡◌, refl, true, some, [], ◌∷◌, arith, List, In, ◌↔◌, ◌⊎◌, inl, inr, any, Bool-cases,
  Option-cases, ok, get_elem?,
}
use nats_oidc_callout.Prelude.Texts.{Text, codes, text_eq, text_eq_iff}
use nats_oidc_callout.Prelude.Maps.{lookup}
use nats_oidc_callout.Identity.{Identity, Claims, claim}
use nats_oidc_callout.Identity.Claims.{HasClaims}
use nats_oidc_callout.Regexp.{Engine}
use nats_oidc_callout.Authz.Cel.{Cel}
use nats_oidc_callout.Authz.Patterns.{
  is_aws_account_id, compile_sub, sub_matches, sub_is_exact, account_pinned_in_arn,
}
use nats_oidc_callout.Authz.Patterns.Pins.{
  arn_fields, sub_is_exact_sound, account_pinned_in_arn_sound,
}
use nats_oidc_callout.Authz.Rules.{
  Match, Rule, matches, issuer_matches, program_matches, claims_match, has_strong_pin,
  pins_aws_account, is_strong_pin_key, aws_account_key,
}

pub claims_match_iff :
    (wanted : Claims) (id : Identity) → (claims_match wanted id ≡ true) ↔ HasClaims wanted id
unfolding claims_match
claims_match_iff [] id = (λ _. tt, λ _. refl)
claims_match_iff ((k, want) ∷ wanted) id = elim (Option-cases (claim id k)) [
  | inl e ↦ (λ h. absurd (ground arith), λ h. ground arith)
  | inr (got, e) ↦ (
    λ h. (ground (arith, text_eq_iff got want), (claims_match_iff wanted id).0 (ground arith)),
    λ h. ground (arith, text_eq_iff got want, (claims_match_iff wanted id).1 h.1),
  )
]

-- What a rule asks of an identity, read off its match block and its compiled forms.
pub record IsMatched (engine : Engine) (cel : Cel) (now : ℕ) (r : Rule) (id : Identity)
    : Type 0 where
  pub issuer : (r.match.issuer ≡ []) ⊎ (r.match.issuer ≡ id.issuer)
  pub subject : sub_matches engine r.matcher id.subject ≡ true
  pub claims : HasClaims r.match.claims id
  pub program : program_matches cel now r.cel_program id ≡ true

issuer_matches_iff :
    (issuer : Text) (id : Identity)
    → (issuer_matches issuer id ≡ true) ↔ ((issuer ≡ []) ⊎ (issuer ≡ id.issuer))
issuer_matches_iff [] id = (λ _. inl refl, λ _. refl)
issuer_matches_iff (c ∷ issuer) id =
    (λ h. inr ((text_eq_iff _ _).0 h), λ h. (text_eq_iff _ _).1 (named h))
  where
    named : ((c ∷ issuer) ≡ []) ⊎ ((c ∷ issuer) ≡ id.issuer) → (c ∷ issuer) ≡ id.issuer
    named (inl e) = cc
    named (inr e) = e

-- A rule matches exactly when all of its conditions hold.
pub matches_iff :
    (engine : Engine) (cel : Cel) (now : ℕ) (r : Rule) (id : Identity)
    → (matches engine cel now r id ≡ true) ↔ IsMatched engine cel now r id
unfolding matches
matches_iff engine cel now r id = (
  λ h. record {
    issuer = (issuer_matches_iff r.match.issuer id).0 (ground arith);
    subject = ground arith;
    claims = (claims_match_iff r.match.claims id).0 (ground arith);
    program = ground arith;
  },
  λ m. ground (
    arith,
    (issuer_matches_iff r.match.issuer id).1 m.issuer,
    (claims_match_iff r.match.claims id).1 m.claims,
    m.subject,
    m.program,
  ),
)

-- The identity is pinned by what the rule matched on.
pub data IsPinned (m : Match) (id : Identity) : Type 0 where
  -- the subject is the one that the rule names
  exact : id.subject ≡ m.sub → IsPinned m id
  -- the subject has the five fields of the rule's ARN, the last of them an account
  arn_account :
      (account : Text)
      → arn_fields id.subject ≡ arn_fields m.sub
      → get_elem? (arn_fields id.subject) 4 ≡ some account
      → is_aws_account_id account ≡ true
      → IsPinned m id
  -- the rule asks for an account in `aws.aws_account`, and it is the verified claim
  aws_account :
      (account : Text)
      → lookup aws_account_key m.claims ≡ some account
      → claim id aws_account_key ≡ some account
      → is_aws_account_id account ≡ true
      → IsPinned m id
  -- the rule asks for a value of a repository or workflow claim, and it is that of the verified claim
  github :
      (key value : Text)
      → In (key, value) m.claims
      → In key (codes "repository" ∷ codes "repository_id" ∷ codes "job_workflow_ref" ∷ [])
      → claim id key ≡ some value
      → IsPinned m id

-- A claim that a rule's map holds is one of the identity's.
lookup-HasClaims :
    (id : Identity) (k v : Text) (wanted : Claims)
    → HasClaims wanted id
    → lookup k wanted ≡ some v
    → claim id k ≡ some v
unfolding lookup
lookup-HasClaims id k v [] h e = cc
lookup-HasClaims id k v ((j, w) ∷ wanted) (here, later) e =
    ground (arith, text_eq_iff j k, lookup-HasClaims id k v wanted later)

aws_account_IsPinned :
    (m : Match) (id : Identity)
    → HasClaims m.claims id
    → pins_aws_account m.claims ≡ true
    → IsPinned m id
unfolding pins_aws_account
aws_account_IsPinned m id h pinned = elim (Option-cases (lookup aws_account_key m.claims)) [
  | inl e ↦ absurd (ground arith)
  | inr (v, e) ↦ aws_account v e (lookup-HasClaims id aws_account_key v m.claims h e) (ground arith)
]

is_strong_pin_key-In :
    (key : Text)
    → is_strong_pin_key key ≡ true
    → In key (codes "repository" ∷ codes "repository_id" ∷ codes "job_workflow_ref" ∷ [])
unfolding is_strong_pin_key
is_strong_pin_key-In key h =
    any_In key (codes "repository" ∷ codes "repository_id" ∷ codes "job_workflow_ref" ∷ []) h
  where
    any_In : (key : Text) (keys : List Text) → any (λ s. text_eq s key) keys ≡ true → In key keys
    any_In key [] h = cc
    any_In key (k ∷ keys) h = elim (Bool-cases (text_eq k key)) [
      | inl e ↦ inl ((text_eq_iff k key).0 e)
      | inr e ↦ inr (any_In key keys (rw e at h))
    ]

-- A strong claim that a rule asks for, among those that the identity has.
strong_claim :
    (id : Identity) (wanted : Claims)
    → HasClaims wanted id
    → any (λ c. is_strong_pin_key c.0) wanted ≡ true
    → (key : Text) × (value : Text) × In (key, value) wanted
      × (is_strong_pin_key key ≡ true)
      × (claim id key ≡ some value)
strong_claim id [] h pinned = cc
strong_claim id ((k, v) ∷ wanted) (here, later) pinned = elim (Bool-cases (is_strong_pin_key k)) [
  | inl e ↦ (k, v, inl refl, e, here)
  | inr e ↦
      let (key, value, listed, strong, held) = strong_claim id wanted later (rw e at pinned) in
      (key, value, inr listed, strong, held)
]

github_IsPinned :
    (m : Match) (id : Identity)
    → HasClaims m.claims id
    → any (λ c. is_strong_pin_key c.0) m.claims ≡ true
    → IsPinned m id
github_IsPinned m id h pinned =
    let (key, value, listed, strong, held) = strong_claim id m.claims h pinned in
    github key value listed (is_strong_pin_key-In key strong) held

-- A strong pin of a rule pins every identity that the rule's pattern and claims accept: its subject is
-- the rule's, or has the first five fields of the rule's ARN with an account in them, or it has the
-- twelve-digit `aws.aws_account` that the rule asks for, or the value that the rule asks for in one of
-- the claims `repository`, `repository_id` and `job_workflow_ref`.
pub has_strong_pin_sound :
    (engine : Engine) (r : Rule) (id : Identity)
    → compile_sub engine r.match.sub ≡ ok r.matcher
    → sub_matches engine r.matcher id.subject ≡ true
    → HasClaims r.match.claims id
    → has_strong_pin r.match ≡ true
    → IsPinned r.match id
unfolding has_strong_pin
has_strong_pin_sound engine r id made matched claims pinned =
    elim (Bool-cases (sub_is_exact r.match.sub)) [
      | inl e ↦
          exact ((sub_is_exact_sound engine r.match.sub id.subject r.matcher e made).0 matched)
      | inr e ↦ elim (Bool-cases (account_pinned_in_arn r.match.sub)) [
        | inl e' ↦
            let (fields, account, found, digits) =
              account_pinned_in_arn_sound engine r.match.sub id.subject r.matcher e' made matched in
            arn_account account fields found digits
        | inr e' ↦ elim (Bool-cases (pins_aws_account r.match.claims)) [
          | inl e'' ↦ aws_account_IsPinned r.match id claims e''
          | inr e'' ↦ github_IsPinned r.match id claims (ground arith)
        ]
      ]
    ]
