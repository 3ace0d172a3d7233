-- ===== src/Verifier/KeySet/Requests/Stages.antt =====
-- How each stage of a concurrent call of `VerifySignature` goes on to the next.
use nats_oidc_callout.Prelude.{
  ℕ, ◌≡◌, refl, sym, ap, ◌∙◌, inl, inr, Option, none, some, List, [], ◌∷◌, Result, ok, err,
  get_elem?, Option-cases,
}
use nats_oidc_callout.Prelude.Texts.{Text}
use nats_oidc_callout.Verifier.KeySet.{
  Jwk, Jws, Jose, KeySet, SignatureError, Start, throttled, joined, started, retry, verify_with,
  verify_parsed, verify_signature, refresh_throttled, fetch_failed,
}
use nats_oidc_callout.Verifier.KeySet.Requests.{Miss, look, look_parsed, wait_for, wake}
use nats_oidc_callout.Verifier.KeySet.Requests.Calls.{Seen, Refreshed, IsSequential, IsMiss, Held}

module _ (jose : Jose) (k : KeySet) where
  parsed_call :
      (raw : Text) (jws : Jws) (kids : List Text) (keys : List Jwk)
      (outcome : Result SignatureError (Unit {0})) (keys' : List Jwk)
      → jose.parse_signed raw k.algs ≡ some jws
      → jws.key_ids ≡ kids
      → verify_signature jose k.algs raw keys outcome keys'
        ≡ verify_parsed jose jws kids keys outcome keys'
  unfolding verify_signature
  parsed_call raw jws kids keys outcome keys' p o =
      rw (p, verify_signature) (ap (λ l. verify_parsed jose jws l keys outcome keys') o)

  missed_call :
      (jws : Jws) (kid : Text) (keys : List Jwk) (outcome : Result SignatureError (Unit {0}))
      (keys' : List Jwk)
      → verify_with jose jws kid keys ≡ none
      → verify_parsed jose jws (kid ∷ []) keys outcome keys' ≡ retry jose jws kid outcome keys'
  unfolding verify_parsed
  missed_call jws kid keys outcome keys' absent = rw (absent, verify_parsed) refl

  found_call :
      (jws : Jws) (kid payload : Text) (keys : List Jwk)
      (outcome : Result SignatureError (Unit {0})) (keys' : List Jwk)
      → verify_with jose jws kid keys ≡ some payload
      → verify_parsed jose jws (kid ∷ []) keys outcome keys' ≡ ok payload
  unfolding verify_parsed
  found_call jws kid payload keys outcome keys' found = rw (found, verify_parsed) refl

  -- Behind a miss, a call is its second attempt.
  miss-verify_signature :
      (landed : List (Option (List Jwk))) (m : Miss) (outcome : Result SignatureError (Unit {0}))
      (keys' : List Jwk)
      → IsMiss jose k landed m
      → retry jose m.jws m.kid outcome keys'
        ≡ verify_signature jose k.algs m.raw m.keys outcome keys'
  miss-verify_signature landed m outcome keys' h = sym (
      parsed_call m.raw m.jws (m.kid ∷ []) m.keys outcome keys' h.parsed h.one_signature
      ∙ missed_call m.jws m.kid m.keys outcome keys' h.absent)

  pub retried :
      (landed : List (Option (List Jwk))) (m : Miss) (outcome : Result SignatureError (Unit {0}))
      (keys' : List Jwk)
      → IsMiss jose k landed m
      → Seen k landed keys'
      → Refreshed landed outcome keys'
      → IsSequential jose k landed m.raw (retry jose m.jws m.kid outcome keys')
  retried landed m outcome keys' h s r = record {
    keys = m.keys;
    outcome = outcome;
    keys' = keys';
    seen = h.seen;
    seen' = s;
    ran = inr r;
    same = miss-verify_signature landed m outcome keys' h;
  }

  pub failed :
      (landed : List (Option (List Jwk))) (m : Miss) (e : SignatureError)
      → IsMiss jose k landed m
      → Refreshed landed (err e) m.keys
      → IsSequential jose k landed m.raw (err e)
  unfolding retry
  failed landed m e h r = retried landed m (err e) m.keys h h.seen r

  -- A first attempt that answers does so whatever a refresh would bring.
  at_once :
      (landed : List (Option (List Jwk))) (raw : Text) (keys : List Jwk)
      (result : Result SignatureError Text)
      → Seen k landed keys
      → ((o : Result SignatureError (Unit {0})) (ks : List Jwk)
          → result ≡ verify_signature jose k.algs raw keys o ks)
      → IsSequential jose k landed raw result
  at_once landed raw keys result s e = record {
    keys = keys;
    outcome = err refresh_throttled;
    keys' = keys;
    seen = s;
    seen' = s;
    ran = inl e;
    same = e (err refresh_throttled) keys;
  }

  look_parsed-Held :
      (landed : List (Option (List Jwk))) (raw : Text) (jws : Jws) (kids : List Text)
      (keys : List Jwk)
      → jose.parse_signed raw k.algs ≡ some jws
      → jws.key_ids ≡ kids
      → Seen k landed keys
      → Held jose k landed (look_parsed jose raw jws kids keys)
  unfolding look_parsed verify_parsed
  look_parsed-Held landed raw jws [] keys p o s =
      at_once landed raw keys _ s (λ r ks. sym (parsed_call raw jws [] keys r ks p o))
  look_parsed-Held landed raw jws (a ∷ b ∷ more) keys p o s =
      at_once landed raw keys _ s (λ r ks. sym (parsed_call raw jws (a ∷ b ∷ more) keys r ks p o))
  look_parsed-Held landed raw jws (kid ∷ []) keys p o s =
      elim (Option-cases (verify_with jose jws kid keys)) [
        | inl e ↦
            rw (e, look_parsed) (record { parsed = p; one_signature = o; absent = e; seen = s })
        | inr (found, e) ↦
            rw (e, look_parsed)
              (at_once landed raw keys _ s (λ r ks. sym (
                parsed_call raw jws (kid ∷ []) keys r ks p o
                ∙ found_call jws kid found keys r ks e)))
      ]

  look_configured-Held :
      (landed : List (Option (List Jwk))) (raw : Text) (keys : List Jwk)
      → Seen k landed keys
      → Held jose k landed (look jose k.algs raw keys)
  unfolding look verify_signature
  look_configured-Held landed raw keys s = elim (Option-cases (jose.parse_signed raw k.algs)) [
    | inl e ↦ rw (e, look) (at_once landed raw keys _ s (λ r ks. rw (e, verify_signature) refl))
    | inr (jws, e) ↦ rw (e, look) (look_parsed-Held landed raw jws jws.key_ids keys e refl s)
  ]

  pub look-Held :
      (landed : List (Option (List Jwk))) (algs : List Text) (raw : Text) (keys : List Jwk)
      → algs ≡ k.algs
      → Seen k landed keys
      → Held jose k landed (look jose algs raw keys)
  look-Held landed algs raw keys same s = rw same (look_configured-Held landed raw keys s)

  pub wait_for-Held :
      (landed : List (Option (List Jwk))) (m : Miss) (g : ℕ) (s : Start)
      → IsMiss jose k landed m
      → Held jose k landed (wait_for m g s)
  unfolding wait_for
  wait_for-Held landed m g throttled h = failed landed m refresh_throttled h (inl refl)
  wait_for-Held landed m g joined h = h
  wait_for-Held landed m g started h = h

  pub wake-Held :
      (landed : List (Option (List Jwk))) (m : Miss) (g : ℕ) (fetched : Option (List Jwk))
      → get_elem? landed g ≡ some fetched
      → IsMiss jose k landed m
      → Held jose k landed (wake m fetched)
  unfolding wake
  wake-Held landed m g none at h = failed landed m fetch_failed h (inr (inr (refl, g, at)))
  wake-Held landed m g (some keys) at h = (h, g, (keys, at))
