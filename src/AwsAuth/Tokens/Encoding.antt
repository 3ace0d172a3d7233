-- ===== src/AwsAuth/Tokens/Encoding.antt =====
-- The encoding of the cache file of lib/awsauth/awsauth.go, with JSON and the hash as they are
-- documented.
use nats_oidc_callout.Prelude.{
  ℕ, zero, suc, ◌<◌, ◌≡◌, refl, true, some, List, [], ◌∷◌, arith, inl, inr, All, all, take, ltb,
}
use nats_oidc_callout.Prelude.Texts.{Text}
use nats_oidc_callout.AwsAuth.Cache.{CacheEntry, Formats, fingerprint, entry_of, hex, cache_version}
use nats_oidc_callout.AwsAuth.Tokens.{Write}
use nats_oidc_callout.AwsAuth.Tokens.Isolation.{Logged}

-- The bytes are those of ASCII.
abbrev pub IsAscii : Text → Type 0
IsAscii s = All (λ c. c < 128) s

-- What `encoding/json` documents: an entry whose texts are valid UTF-8 is decoded as it was encoded.
-- Of such texts, the law is asked for those in ASCII.
abbrev pub JsonLaw : Formats → Type 0
JsonLaw formats =
    (entry : CacheEntry) (text : Text)
    → IsAscii entry.version
    → IsAscii entry.credential
    → IsAscii entry.token
    → formats.marshal entry ≡ some text
    → formats.unmarshal text ≡ some entry

-- A hash is a list of bytes.
abbrev pub HashLaw : Formats → Type 0
HashLaw formats = (key : Text) → All (λ b. b < 256) (formats.sha256 key)

-- The tokens that STS issues are in ASCII.
abbrev pub AreAscii : List Write → Type 0
AreAscii log = All (λ x. IsAscii x.token) log

hex-IsAscii : (bytes : List ℕ) → All (λ b. b < 256) bytes → IsAscii (hex bytes)
unfolding hex
hex-IsAscii [] h = tt
hex-IsAscii (b ∷ bytes) (p, h) = (ground arith, (ground arith, hex-IsAscii bytes h))

All-take : {A : Type 0} (P : A → Type 0) (n : ℕ) (xs : List A) → All P xs → All P (take n xs)
All-take P zero xs h = tt
All-take P (suc n) [] h = tt
All-take P (suc n) (x ∷ xs) (p, h) = (p, All-take P n xs h)

fingerprint-IsAscii :
    (formats : Formats) (key : Text) → HashLaw formats → IsAscii (fingerprint formats key)
unfolding fingerprint
fingerprint-IsAscii formats key law =
    hex-IsAscii (take 16 (formats.sha256 key))
      (All-take (λ b. b < 256) 16 (formats.sha256 key) (law key))

pub all-IsAscii : (s : Text) → all (λ c. ltb c 128) s ≡ true → IsAscii s
all-IsAscii [] h = tt
all-IsAscii (c ∷ s) h = (ground arith, all-IsAscii s (ground arith))

version-IsAscii : IsAscii cache_version
version-IsAscii = all-IsAscii cache_version refl

-- An entry that the program encodes is decoded as it was.
pub entry_law :
    (formats : Formats) (tok key text : Text)
    → JsonLaw formats
    → HashLaw formats
    → IsAscii tok
    → formats.marshal (entry_of tok (fingerprint formats key)) ≡ some text
    → formats.unmarshal text ≡ some (entry_of tok (fingerprint formats key))
entry_law formats tok key text law hash ascii made =
    law (entry_of tok (fingerprint formats key)) text version-IsAscii
      (fingerprint-IsAscii formats key hash) ascii made

pub Logged-IsAscii : (x : Write) (log : List Write) → AreAscii log → Logged x log → IsAscii x.token
Logged-IsAscii x (y ∷ log) (a, all) (inl same) = rw (← same) a
Logged-IsAscii x (y ∷ log) (a, all) (inr later) = Logged-IsAscii x log all later
Logged-IsAscii x [] all h = absurd h
