-- ===== src/Verifier/KeySet/Requests/Calls.antt =====
-- What a concurrent call of `VerifySignature` rests on at each stage.
use nats_oidc_callout.Prelude.{
  ℕ, ◌≤◌, ◌≡◌, refl, ◌⊎◌, inl, inr, Option, none, some, List, [], ◌∷◌, ◌++◌, Result, ok, err,
  get_elem?, get_elem?-append,
}
use nats_oidc_callout.Prelude.Texts.{Text}
use nats_oidc_callout.Verifier.KeySet.{
  Jwk, Jose, KeySet, SignatureError, Start, throttled, joined, started, start_refresh,
  finish_refresh, verify_with, verify_signature, refresh_throttled, timed_out, fetch_failed,
}
use nats_oidc_callout.Verifier.KeySet.Throttle
use nats_oidc_callout.Verifier.KeySet.Throttle.{after_miss, start_cases}
use nats_oidc_callout.Verifier.KeySet.Requests.{
  Miss, Task, asked, missed, waiting, refreshed, answered,
}

-- What no refresh changes of a key set.
pub record Kept (k k' : KeySet) : Type 0 where
  pub algs : k'.algs ≡ k.algs
  pub client : k'.client ≡ k.client
  pub jwks_url : k'.jwks_url ≡ k.jwks_url

pub start_refresh-fields :
    (now : ℕ) (k k' : KeySet)
    → Kept k k'
    → Kept k (start_refresh now k').0 × ((start_refresh now k').0.keys ≡ k'.keys)
start_refresh-fields now k k' h = elim (start_cases now k') [
  | inl (s, e, _) ↦ rw e (h, refl)
  | inr (_, _, e) ↦ rw e (record { algs = h.algs; client = h.client; jwks_url = h.jwks_url }, refl)
]

pub after_miss-key_set :
    (now : ℕ) (k : KeySet) (s : Start) (w : Throttle.World) → (after_miss now (k, s) w).key_set ≡ k
unfolding after_miss
after_miss-key_set now k throttled w = refl
after_miss-key_set now k joined w = refl
after_miss-key_set now k started w = refl

pub finish_refresh-Kept :
    (fetched : Option (List Jwk)) (k k' : KeySet) → Kept k k' → Kept k (finish_refresh fetched k')
unfolding finish_refresh
finish_refresh-Kept none k k' h = record { algs = h.algs; client = h.client; jwks_url = h.jwks_url }
finish_refresh-Kept (some keys) k k' h = record {
  algs = h.algs;
  client = h.client;
  jwks_url = h.jwks_url;
}

-- The keys are the first ones, or those of a fetch that ended.
abbrev pub Seen : KeySet → List (Option (List Jwk)) → List Jwk → Type 0
Seen k landed keys = (keys ≡ k.keys) ⊎ ((g : ℕ) × (get_elem? landed g ≡ some (some keys)))

pub Seen-append :
    (k : KeySet) (landed more : List (Option (List Jwk))) (keys : List Jwk)
    → Seen k landed keys
    → Seen k (landed ++ more) keys
Seen-append k landed more keys (inl h) = inl h
Seen-append k landed more keys (inr (g, h)) = inr (g, get_elem?-append landed more g h)

-- The fetch with a number ended with keys.
abbrev pub Succeeded : List (Option (List Jwk)) → ℕ → Type 0
Succeeded landed g = (keys : List Jwk) × (get_elem? landed g ≡ some (some keys))

-- What stands behind the outcome of a call's refresh, and behind the keys of the second attempt: a
-- failure is that of a fetch that failed; a success is that of a fetch that succeeded, and the second
-- attempt has the keys of this fetch or of a later one.
abbrev pub Refreshed :
    List (Option (List Jwk)) → Result SignatureError (Unit {0}) → List Jwk → Type 0
Refreshed landed (err e) keys' =
    (e ≡ refresh_throttled)
    ⊎ ((e ≡ timed_out) ⊎ ((e ≡ fetch_failed) × (g : ℕ) × (get_elem? landed g ≡ some none)))
Refreshed landed (ok _) keys' =
    (g : ℕ) × (h : ℕ) × Succeeded landed g × (g ≤ h) × (get_elem? landed h ≡ some (some keys'))

Refreshed-append :
    (landed more : List (Option (List Jwk))) (r : Result SignatureError (Unit {0}))
    (keys' : List Jwk)
    → Refreshed landed r keys'
    → Refreshed (landed ++ more) r keys'
Refreshed-append landed more (err e) keys' (inl h) = inl h
Refreshed-append landed more (err e) keys' (inr (inl h)) = inr (inl h)
Refreshed-append landed more (err e) keys' (inr (inr (same, g, h))) =
    inr (inr (same, g, get_elem?-append landed more g h))
Refreshed-append landed more (ok tt) keys' (g, h, (first, at), le, at') =
    (g, h, (first, get_elem?-append landed more g at), le, get_elem?-append landed more h at')

-- The call is one of the sequential `verify_signature`, on keys that the key set held: it ends whatever a
-- refresh would bring, or with what its refresh brought.
pub record IsSequential (jose : Jose) (k : KeySet) (landed : List (Option (List Jwk))) (raw : Text)
    (result : Result SignatureError Text) : Type 0 where
  pub keys : List Jwk
  pub outcome : Result SignatureError (Unit {0})
  pub keys' : List Jwk
  pub seen : Seen k landed keys
  pub seen' : Seen k landed keys'
  pub ran :
      ((o : Result SignatureError (Unit {0})) (ks : List Jwk)
        → result ≡ verify_signature jose k.algs raw keys o ks)
      ⊎ Refreshed landed outcome keys'
  pub same : result ≡ verify_signature jose k.algs raw keys outcome keys'

pub record IsMiss (jose : Jose) (k : KeySet) (landed : List (Option (List Jwk))) (m : Miss)
    : Type 0 where
  pub parsed : jose.parse_signed m.raw k.algs ≡ some m.jws
  pub one_signature : m.jws.key_ids ≡ m.kid ∷ []
  pub absent : verify_with jose m.jws m.kid m.keys ≡ none
  pub seen : Seen k landed m.keys

-- What holds of a call at any time.
abbrev pub Held : Jose → KeySet → List (Option (List Jwk)) → Task → Type 0
Held jose k landed (asked raw) = Unit
Held jose k landed (missed m) = IsMiss jose k landed m
Held jose k landed (waiting m g) = IsMiss jose k landed m
Held jose k landed (refreshed m) = IsMiss jose k landed m × (g : ℕ) × Succeeded landed g
Held jose k landed (answered raw result) = IsSequential jose k landed raw result

module _ (jose : Jose) (k : KeySet) where
  pub IsMiss-append :
      (landed more : List (Option (List Jwk))) (m : Miss)
      → IsMiss jose k landed m
      → IsMiss jose k (landed ++ more) m
  IsMiss-append landed more m h = record {
    parsed = h.parsed;
    one_signature = h.one_signature;
    absent = h.absent;
    seen = Seen-append k landed more m.keys h.seen;
  }

  pub Held-append :
      (landed more : List (Option (List Jwk))) (x : Task)
      → Held jose k landed x
      → Held jose k (landed ++ more) x
  Held-append landed more (asked raw) h = tt
  Held-append landed more (missed m) h = IsMiss-append landed more m h
  Held-append landed more (waiting m g) h = IsMiss-append landed more m h
  Held-append landed more (refreshed m) (h, g, (keys, at)) =
      (IsMiss-append landed more m h, g, (keys, get_elem?-append landed more g at))
  Held-append landed more (answered raw result) h = record {
    keys = h.keys;
    outcome = h.outcome;
    keys' = h.keys';
    seen = Seen-append k landed more h.keys h.seen;
    seen' = Seen-append k landed more h.keys' h.seen';
    ran = elim h.ran [
      | inl at_once ↦ inl at_once
      | inr r ↦ inr (Refreshed-append landed more h.outcome h.keys' r)
    ];
    same = h.same;
  }
