-- ===== src/Verifier/KeySet/Requests/Published.antt =====
-- Where the keys come from that verify a token.
use nats_oidc_callout.Prelude.{
  ℕ, ◌≡◌, sym, inl, inr, true, Option, none, some, List, [], ◌∷◌, ◌++◌, ok, ◌==◌, ==_iff, take, All,
  All-append, All-get_elem?, Bool-cases, Option-cases,
}
use nats_oidc_callout.Prelude.Texts.{Text}
use nats_oidc_callout.Verifier.KeySet.{Jwk, Jws, KeySet, fetch, max_jwks_size}
use nats_oidc_callout.Verifier.KeySet.Signatures.{Verified, verify_signature_sound}
use nats_oidc_callout.Verifier.KeySet.Requests.{
  Outside, Task, answered, World, may_answer, asks, looks, refreshes, gives_up, lands, wakes,
  looks_again, Reach, here, next, initial,
}
use nats_oidc_callout.Verifier.KeySet.Requests.Calls.{Kept, Seen}
use nats_oidc_callout.Verifier.KeySet.Requests.Refinement.{Reach-Inv, answered-IsSequential}

-- The key set's client got the keys from the key set's address, in a response of status 200 of which
-- the first MiB decodes to them.
pub record IsPublished (out : Outside) (k : KeySet) (keys : List Jwk) : Type 0 where
  pub body : Text
  pub served : out.serves k.client k.jwks_url (200, body) ≡ true
  pub decoded : out.decode (take max_jwks_size body) ≡ some keys

abbrev Origin : Outside → KeySet → Option (List Jwk) → Type 0
Origin out k none = Unit
Origin out k (some keys) = IsPublished out k keys

same_address :
    (out : Outside) (k k' : KeySet) (response : ℕ × Text)
    → Kept k k'
    → out.serves k'.client k'.jwks_url response ≡ true
    → out.serves k.client k.jwks_url response ≡ true
same_address out k k' response h served = rw (h.client, h.jwks_url) at served

fetch-Origin :
    (out : Outside) (k k' : KeySet) (response : Option (ℕ × Text))
    → Kept k k'
    → may_answer out k' response ≡ true
    → Origin out k (fetch out.decode response)
unfolding fetch
fetch-Origin out k k' none h given = tt
fetch-Origin out k k' (some (status, body)) h given = elim (Bool-cases (status == 200)) [
  | inr e ↦ rw (e, fetch) tt
  | inl e ↦
      let is_ok : status ≡ 200 = (==_iff status 200).0 e in
      elim (Option-cases (out.decode (take max_jwks_size body))) [
        | inl e' ↦ rw (e, e', fetch) tt
        | inr (keys, e') ↦
            rw (e, e', fetch)
              (record {
                body = body;
                served = same_address out k k' (200, body) h (rw is_ok at given);
                decoded = e';
              })
      ]
]

Reach-Origin :
    {out : Outside} {k : KeySet} {now : ℕ} {w : World}
    → Reach out (initial k now) w
    → All (Origin out k) w.landed
Reach-Origin here = tt
Reach-Origin (next r (asks _)) = Reach-Origin r
Reach-Origin (next r (looks _ _ _ _)) = Reach-Origin r
Reach-Origin (next r (refreshes _ _ _ _ _ _)) = Reach-Origin r
Reach-Origin (next r (gives_up _ _ _ _ _)) = Reach-Origin r
Reach-Origin {out} {k} (next {u} r (lands response _ _ _ given)) =
    All-append (Origin out k) u.landed (fetch out.decode response ∷ []) (Reach-Origin r)
      (fetch-Origin out k u.throttle.key_set response (Reach-Inv r).kept given, tt)
Reach-Origin (next r (wakes _ _ _ _ _ _ _)) = Reach-Origin r
Reach-Origin (next r (looks_again _ _ _ _)) = Reach-Origin r

-- The payload is that of the token's only signature, which a candidate verifies among keys that the
-- issuer published.
pub record IsSigned (out : Outside) (k : KeySet) (raw payload : Text) : Type 0 where
  pub jws : Jws
  pub kid : Text
  pub keys : List Jwk
  pub parsed : out.jose.parse_signed raw k.algs ≡ some jws
  pub one_signature : jws.key_ids ≡ kid ∷ []
  pub published : IsPublished out k keys
  pub verified : Verified out.jose jws kid payload keys

keys_of_issuer :
    (out : Outside) (k : KeySet) (landed : List (Option (List Jwk))) (jws : Jws)
    (kid payload : Text) (keys : List Jwk)
    → All (Origin out k) landed
    → k.keys ≡ []
    → Seen k landed keys
    → Verified out.jose jws kid payload keys
    → IsPublished out k keys
keys_of_issuer out k landed jws kid payload keys all fresh (inl e) v =
    let nothing : Verified out.jose jws kid payload [] = rw (e, fresh) at v in elim nothing [ ]
keys_of_issuer out k landed jws kid payload keys all fresh (inr (g, at)) v =
    All-get_elem? (Origin out k) landed g all at

-- However the calls and the fetches on a key set that starts without keys are interleaved, a payload
-- that a call returns is that of a token with exactly one signature, and a candidate key verifies it
-- that the key set's client got from the key set's own address in a response of status 200.
pub answered-IsSigned :
    (out : Outside) (k : KeySet) (now : ℕ) (w : World) (before after : List Task)
    (raw payload : Text)
    → k.keys ≡ []
    → Reach out (initial k now) w
    → w.tasks ≡ before ++ (answered raw (ok payload) ∷ after)
    → IsSigned out k raw payload
answered-IsSigned out k now w before after raw payload fresh r at =
    let call = answered-IsSequential out k now w before after raw (ok payload) r at in
    let s =
      verify_signature_sound out.jose k.algs raw call.keys call.outcome call.keys' payload
        (sym call.same) in
    let from = keys_of_issuer out k w.landed s.jws s.kid payload in
    elim s.verified [
      | inl v ↦ record {
        jws = s.jws;
        kid = s.kid;
        keys = call.keys;
        parsed = s.parsed;
        one_signature = s.one_signature;
        published = from call.keys (Reach-Origin r) fresh call.seen v;
        verified = v;
      }
      | inr (_, v) ↦ record {
        jws = s.jws;
        kid = s.kid;
        keys = call.keys';
        parsed = s.parsed;
        one_signature = s.one_signature;
        published = from call.keys' (Reach-Origin r) fresh call.seen' v;
        verified = v;
      }
    ]
