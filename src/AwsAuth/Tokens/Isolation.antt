-- ===== src/AwsAuth/Tokens/Isolation.antt =====
-- Whose token a call returns, for any processes that share a cache file.
use nats_oidc_callout.Prelude.{
  ℕ, ◌≡◌, refl, Option, none, some, List, [], ◌∷◌, ◌++◌, arith, ◌⊎◌, inl, inr, ok, Option-cases,
  Result-cases, All, All-append, All-at,
}
use nats_oidc_callout.Prelude.Texts.{Text}
use nats_oidc_callout.AwsAuth.{TokenSource, Sts, sts_input, mint, token_of}
use nats_oidc_callout.AwsAuth.Cache.{
  Formats, FileOps, fingerprint, entry_of, read_cache, write_cache,
}
use nats_oidc_callout.AwsAuth.Cache.Files.{write_cache_atomic}
use nats_oidc_callout.AwsAuth.Tokens.{
  Write, token, with_key, minted, cache_key, refresh, after_mint, pin_credentials,
}

-- What STS issued in a call, and to which key: the ghost record of a call. A call that is not pinned
-- to a key leaves no record.
abbrev pub answered : Text → Option (Option Text) → List Write
answered key none = []
answered key (some none) = []
answered key (some (some tok)) = record { token = tok; key = key } ∷ []

abbrev pub issued : Sts → TokenSource → Option (Option Text) → List Write
issued sts ts none = []
issued sts ts (some none) = []
issued sts ts (some (some key)) = answered key (sts (some key) (sts_input ts))

abbrev pub as_list : Option Write → List Write
as_list none = []
as_list (some x) = x ∷ []

-- The shared cache file, the writes that are asked for, and what STS issued so far.
pub record World : Type 0 where
  pub file : Option Text
  pub pending : List Write
  pub log : List Write

-- Some process calls `Token` or runs a background refresh, with credentials and an answer of STS of its
-- own, or carries out a write; a write may come at any time, and again.
pub data Step (formats : Formats) : World → World → Type 0 where
  calls :
      {w : World} (sts : Sts) (now : ℕ) (ts : TokenSource) (retrieved : Option Text)
      → Step formats w (record w {
        pending = as_list (token formats sts now ts retrieved w.file).write ++ w.pending;
        log = issued sts ts (token formats sts now ts retrieved w.file).called ++ w.log;
      })
  refreshes :
      {w : World} (sts : Sts) (ts : TokenSource) (retrieved : Option Text)
      → Step formats w (record w {
        pending = as_list (refresh sts ts retrieved).write ++ w.pending;
        log = issued sts ts (refresh sts ts retrieved).called ++ w.log;
      })
  writes :
      {w : World} (ops : FileOps) (before : List Write) (x : Write) (after : List Write)
      → w.pending ≡ before ++ (x ∷ after)
      → Step formats w (record w {
        file =
            (write_cache formats ops x.token
              (fingerprint formats x.key)
              (record { cached = w.file; temporary = none })).cached;
      })

-- No file, no write asked for.
abbrev pub initial : World
initial = record { file = none; pending = []; log = [] }

pub data Reach (formats : Formats) : World → Type 0 where
  here : Reach formats initial
  next : {w v : World} → Reach formats w → Step formats w v → Reach formats v

-- STS issued the token to the key.
abbrev pub Logged : Write → List Write → Type 0
Logged x [] = ⊥
Logged x (y ∷ log) = (y ≡ x) ⊎ Logged x log

Logged-right : (x : Write) (new log : List Write) → Logged x log → Logged x (new ++ log)
Logged-right x [] log h = h
Logged-right x (y ∷ new) log h = inr (Logged-right x new log h)

-- The file holds an entry of a token that STS issued, bound to the key that it was issued to.
abbrev pub FromLog : Formats → Option Text → List Write → Type 0
FromLog formats none log = Unit
FromLog formats (some contents) log =
    (x : Write) × Logged x log
    × (formats.marshal (entry_of x.token (fingerprint formats x.key)) ≡ some contents)

pub record Inv (formats : Formats) (w : World) : Type 0 where
  pub asked : All (λ x. Logged x w.log) w.pending
  pub stored : FromLog formats w.file w.log

All-later :
    (new log xs : List Write) → All (λ x. Logged x log) xs → All (λ x. Logged x (new ++ log)) xs
All-later new log [] h = tt
All-later new log (x ∷ xs) (p, h) = (Logged-right x new log p, All-later new log xs h)

FromLog-later :
    (formats : Formats) (file : Option Text) (new log : List Write)
    → FromLog formats file log
    → FromLog formats file (new ++ log)
FromLog-later formats none new log h = tt
FromLog-later formats (some contents) new log (x, p, e) = (x, Logged-right x new log p, e)

answered-Logged :
    (key tok : Text) (o : Option (Option Text)) (log : List Write)
    → token_of o ≡ ok tok
    → Logged (record { token = tok; key = key }) (answered key o ++ log)
answered-Logged key tok none log h = cc
answered-Logged key tok (some none) log h = cc
answered-Logged key tok (some (some [])) log h = cc
answered-Logged key tok (some (some (c ∷ t))) log h = inl (ground arith)

-- A token that is minted with a key is logged for it.
minted-Logged :
    (sts : Sts) (ts : TokenSource) (key tok : Text) (log : List Write)
    → mint sts ts (some key) ≡ ok tok
    → Logged (record { token = tok; key = key }) (issued sts ts (some (some key)) ++ log)
unfolding mint
minted-Logged sts ts key tok log h = answered-Logged key tok (sts (some key) (sts_input ts)) log h

-- A write that is asked for is one of a token that is logged.
abbrev IsLogged : Sts → TokenSource → List Write → Option (Option Text) → Option Write → Type 0
IsLogged sts ts log called write = All (λ x. Logged x (issued sts ts called ++ log)) (as_list write)

module _ (formats : Formats) (sts : Sts) (ts : TokenSource) (log : List Write) where
  minted-IsLogged :
      (key : Option Text)
      → IsLogged sts ts log
          (minted key (mint sts ts key)).called
          (minted key (mint sts ts key)).write
  unfolding minted
  minted-IsLogged key = elim (Result-cases (mint sts ts key)) [
    | inl (e, h) ↦ rw (h, minted) tt
    | inr (tok, h) ↦ rw (h, minted) (go key h)
  ]
    where
      go :
          {tok : Text} (key : Option Text)
          → mint sts ts key ≡ ok tok
          → IsLogged sts ts log (minted key (ok tok)).called (minted key (ok tok)).write
      go none h = tt
      go {tok} (some key) h = (minted-Logged sts ts key tok log h, tt)

  token-IsLogged :
      (now : ℕ) (retrieved file : Option Text)
      → IsLogged sts ts log
          (token formats sts now ts retrieved file).called
          (token formats sts now ts retrieved file).write
  unfolding token with_key
  token-IsLogged now retrieved file = go (cache_key ts retrieved)
    where
      go :
          (key : Option Text)
          → IsLogged sts ts log
              (with_key formats sts now ts file key).called
              (with_key formats sts now ts file key).write
      go none = minted-IsLogged none
      go (some key) =
          elim (Option-cases (read_cache formats now ts.audience (fingerprint formats key) file)) [
            | inl e ↦ rw (e, with_key) (minted-IsLogged (some key))
            | inr (found, e) ↦ rw (e, with_key) tt
          ]

  after_mint-IsLogged :
      (key : Text)
      → IsLogged sts ts log
          (after_mint key (mint sts ts (some key))).called
          (after_mint key (mint sts ts (some key))).write
  unfolding after_mint
  after_mint-IsLogged key = elim (Result-cases (mint sts ts (some key))) [
    | inl (e, h) ↦ rw (h, after_mint) tt
    | inr (tok, h) ↦ rw (h, after_mint) (minted-Logged sts ts key tok log h, tt)
  ]

  refresh-IsLogged :
      (retrieved : Option Text)
      → IsLogged sts ts log (refresh sts ts retrieved).called (refresh sts ts retrieved).write
  unfolding refresh
  refresh-IsLogged retrieved = elim (Result-cases (pin_credentials ts retrieved)) [
    | inl (e, h) ↦ rw (h, refresh) tt
    | inr (key, h) ↦ rw (h, refresh) (after_mint-IsLogged key)
  ]

-- Writing keeps the file's origin.
written-FromLog :
    (formats : Formats) (file : Option Text) (ops : FileOps) (x : Write) (log : List Write)
    → Logged x log
    → FromLog formats file log
    → FromLog formats
        (write_cache formats ops x.token
          (fingerprint formats x.key)
          (record { cached = file; temporary = none })).cached
        log
written-FromLog formats file ops x log logged stored =
    elim (write_cache_atomic formats ops x.token (fingerprint formats x.key)
      (record { cached = file; temporary = none }) refl).1 [
        | inl same ↦ rw same stored
        | inr new ↦
            rw new (held (formats.marshal (entry_of x.token (fingerprint formats x.key))) refl)
      ]
  where
    held :
        (text : Option Text)
        → formats.marshal (entry_of x.token (fingerprint formats x.key)) ≡ text
        → FromLog formats text log
    held none e = tt
    held (some contents) e = (x, logged, e)

Step-Inv : {formats : Formats} {w v : World} → Step formats w v → Inv formats w → Inv formats v
Step-Inv {formats} {w} (calls sts now ts retrieved) inv = record {
  asked =
      All-append _ (as_list (token formats sts now ts retrieved w.file).write) w.pending
        (token-IsLogged formats sts ts w.log now retrieved w.file)
        (All-later (issued sts ts (token formats sts now ts retrieved w.file).called) w.log
          w.pending inv.asked);
  stored =
      FromLog-later formats w.file
        (issued sts ts (token formats sts now ts retrieved w.file).called) w.log inv.stored;
}
Step-Inv {formats} {w} (refreshes sts ts retrieved) inv = record {
  asked =
      All-append _ (as_list (refresh sts ts retrieved).write) w.pending
        (refresh-IsLogged formats sts ts w.log retrieved)
        (All-later (issued sts ts (refresh sts ts retrieved).called) w.log w.pending inv.asked);
  stored =
      FromLog-later formats w.file (issued sts ts (refresh sts ts retrieved).called) w.log
        inv.stored;
}
Step-Inv {formats} {w} (writes ops before x after at) inv = record {
  asked = inv.asked;
  stored =
      written-FromLog formats w.file ops x w.log
        (All-at (λ y. Logged y w.log) before x after (rw at at inv.asked)) inv.stored;
}

pub Reach-Inv : {formats : Formats} {w : World} → Reach formats w → Inv formats w
Reach-Inv here = record { asked = tt; stored = tt }
Reach-Inv (next r s) = Step-Inv s (Reach-Inv r)
