-- ===== src/Examples/Keys.antt =====
-- Key sets and their refreshes.
use nats_oidc_callout.Prelude.{
  ◌+◌, ◌-◌, ◌≤◌, ◌<◌, ◌≡◌, refl, none, some, List, [], ◌∷◌, ok, arith, inr,
}
use nats_oidc_callout.Prelude.Texts.{Text, codes, text_eq}
use nats_oidc_callout.Prelude.Int.{pos}
use nats_oidc_callout.Verifier.KeySet.{
  Jwk, Jose, Client, new_key_set, start_refresh, finish_refresh, started, verify_with, retry,
  verify_parsed, verify_signature,
}
use nats_oidc_callout.Verifier.KeySet.Throttle.{
  World, miss, done, Reach, here, next, initial, after_miss, Reach-started,
}
use nats_oidc_callout.Verifier.KeySet.Signatures.{Signed, by_first, verify_signature_complete}

abbrev algs : List Text
algs = codes "RS256" ∷ []

abbrev jwks_url : Text
jwks_url = codes "http://iss/keys"

abbrev client : Client
client = record { timeout = pos 10_000_000_000; root_cas = none }

abbrev start : World
start = initial (new_key_set jwks_url client algs (pos 10)) 100

-- After a miss at 105 that starts a fetch.
abbrev fetching : World
fetching = after_miss 105 (start_refresh 105 start.key_set) start

-- The fetch fails at 107.
abbrev failed : World
failed = record fetching {
  key_set = finish_refresh none fetching.key_set;
  clock = 107;
  running = fetching.running - 1;
}

fetched_late : 105 ≤ 107
fetched_late = omega arith

in_time : 100 ≤ 105
in_time = omega arith

one_runs : 0 < fetching.running
unfolding start_refresh new_key_set after_miss
one_runs = omega arith

fetching_clock : fetching.clock ≤ 107
unfolding start_refresh new_key_set after_miss
fetching_clock = omega arith

reached : Reach start failed
reached = next (next here (miss 105 in_time)) (done none 107 fetching_clock one_runs)

none_runs : failed.running ≡ 0
unfolding start_refresh new_key_set after_miss
none_runs = refl

late_enough : failed.clock + (new_key_set jwks_url client algs (pos 10)).interval ≤ 117
unfolding new_key_set
late_enough = omega arith

Reach-started_example : (start_refresh 117 failed.key_set).1 ≡ started
Reach-started_example =
    Reach-started jwks_url client algs (pos 10) 100 failed 117 reached none_runs late_enough

-- The token is its own payload, and names the key "k".
abbrev jose : Jose
jose = record {
  parse_signed = λ raw _. some (record { token = raw; key_ids = codes "k" ∷ [] });
  verify = λ jws _. some jws.token;
}

abbrev old_key : Jwk
old_key = record { key_id = codes "j"; material = [] }

abbrev new_key : Jwk
new_key = record { key_id = codes "k"; material = [] }

-- The cached key is another one, and the refresh brings the one that the token names.
rotated :
    verify_signature jose algs (codes "t") (old_key ∷ []) (ok tt) (new_key ∷ []) ≡ ok (codes "t")
unfolding verify_signature verify_parsed verify_with retry text_eq
rotated = refl

signed : Signed jose algs (codes "t") (old_key ∷ []) (ok tt) (new_key ∷ []) (codes "t")
unfolding text_eq
signed = record {
  jws = record { token = codes "t"; key_ids = codes "k" ∷ [] };
  kid = codes "k";
  parsed = refl;
  one_signature = refl;
  verified = inr (refl, by_first refl refl);
}

verify_signature_complete_example :
    (found : Text) × (verify_signature jose algs (codes "t") (old_key ∷ []) (ok tt) (new_key ∷ [])
      ≡ ok found)
verify_signature_complete_example =
    verify_signature_complete jose algs (codes "t") (old_key ∷ []) (ok tt) (new_key ∷ [])
      (codes "t") signed
