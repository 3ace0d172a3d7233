-- ===== src/AwsAuth/Cache/Files.antt =====
-- What the cache file holds after a write, and when it is read as a token.
use nats_oidc_callout.Prelude.{
  ℕ, ◌≡◌, ◌≢◌, refl, ap, ◌∙◌, true, false, not, ◌||◌, Option, none, some, List, [], arith, ◌⊎◌, ◌↔◌,
  inl, inr, Bool-cases, Option-cases, is_empty, is_empty-ne-nil, any,
}
use nats_oidc_callout.Prelude.Texts.{Text, text_eq, text_eq_iff}
use nats_oidc_callout.Prelude.Int.{ℤ}
use nats_oidc_callout.Strings.{trim_space}
use nats_oidc_callout.AwsAuth.Cache.{
  CacheEntry, Formats, Disk, FileOps, cache_version, entry_of, before, usable, judge, read_entry,
  read_cache, unverified_expiry_audience, fill_temp, remove_temp, write_text, write_cache,
}

-- The contents can be used as a token of this principal at this time: an entry of the current version
-- that is bound to the principal holds a token, between its white space, that has not expired and
-- names the audience.
pub record IsUsable (formats : Formats) (now : ℕ) (audience cred_id : Text) (contents : Text)
    (tok : Text) (exp : ℤ) : Type 0 where
  pub entry : CacheEntry
  pub auds : List Text
  pub decoded : formats.unmarshal contents ≡ some entry
  pub version : entry.version ≡ cache_version
  pub bound : entry.credential ≡ cred_id
  pub trimmed : trim_space entry.token ≡ tok
  pub nonempty : tok ≢ []
  pub claims : unverified_expiry_audience formats tok ≡ some (exp, auds)
  pub alive : before now exp ≡ true
  pub audience_named : any (λ a. text_eq a audience) auds ≡ true

module _ (formats : Formats) (now : ℕ) (audience cred_id : Text) where
  usable_sound :
      (tok t : Text) (exp e : ℤ) (auds : List Text)
      → usable now audience tok (e, auds) ≡ some (t, exp)
      → (tok ≡ t) × (e ≡ exp) × (before now e ≡ true) × (any (λ a. text_eq a audience) auds ≡ true)
  unfolding usable
  usable_sound tok t exp e auds h = elim (Bool-cases (before now e)) [
    | inl alive ↦ elim (Bool-cases (any (λ a. text_eq a audience) auds)) [
      | inl named ↦ (ground arith, ground arith, alive, named)
      | inr named ↦ absurd (ground arith)
    ]
    | inr late ↦ absurd (ground arith)
  ]

  read_entry_sound :
      (contents tok : Text) (exp : ℤ) (entry : CacheEntry)
      → formats.unmarshal contents ≡ some entry
      → read_entry formats now audience cred_id entry ≡ some (tok, exp)
      → IsUsable formats now audience cred_id contents tok exp
  unfolding read_entry
  read_entry_sound contents tok exp entry decoded h =
      elim (Bool-cases
        (not (text_eq entry.version cache_version) || not (text_eq entry.credential cred_id))) [
          | inl e ↦ absurd (ground arith)
          | inr e ↦ elim (Bool-cases (is_empty (trim_space entry.token))) [
            | inl blank ↦ absurd (ground arith)
            | inr full ↦
                elim (Option-cases (unverified_expiry_audience formats (trim_space entry.token))) [
                  | inl bad ↦ absurd (ground arith)
                  | inr ((ex, auds), claims) ↦
                      let (same, same_exp, alive, named) =
                        usable_sound (trim_space entry.token) tok exp ex auds (ground arith) in
                      record {
                        entry = entry;
                        auds = auds;
                        decoded = decoded;
                        version = (text_eq_iff entry.version cache_version).0 (ground arith);
                        bound = (text_eq_iff entry.credential cred_id).0 (ground arith);
                        trimmed = same;
                        nonempty = λ none_left. ground arith;
                        claims = rw (← same) (claims ∙ ap (λ x. some (x, auds)) same_exp);
                        alive = rw (← same_exp) alive;
                        audience_named = named;
                      }
                ]
          ]
        ]

  read_cache_sound :
      (contents tok : Text) (exp : ℤ)
      → read_cache formats now audience cred_id (some contents) ≡ some (tok, exp)
      → IsUsable formats now audience cred_id contents tok exp
  unfolding read_cache
  read_cache_sound contents tok exp h = elim (Option-cases (formats.unmarshal contents)) [
    | inl e ↦ absurd (ground arith)
    | inr (entry, e) ↦ read_entry_sound contents tok exp entry e (ground arith)
  ]

  read_cache_complete :
      (contents tok : Text) (exp : ℤ)
      → IsUsable formats now audience cred_id contents tok exp
      → read_cache formats now audience cred_id (some contents) ≡ some (tok, exp)
  unfolding read_cache read_entry usable
  read_cache_complete contents tok exp u =
      let version = (text_eq_iff u.entry.version cache_version).1 u.version in
      let bound = (text_eq_iff u.entry.credential cred_id).1 u.bound in
      let full = is_empty-ne-nil tok u.nonempty in
      rw (u.decoded, read_cache)
        (rw (version, bound, u.trimmed, full, judge, u.claims, u.alive, u.audience_named)
          (ap (λ t. some (t, exp)) u.trimmed))

pub read_cache_iff :
    (formats : Formats) (now : ℕ) (audience cred_id : Text) (contents tok : Text) (exp : ℤ)
    → (read_cache formats now audience cred_id (some contents) ≡ some (tok, exp))
      ↔ IsUsable formats now audience cred_id contents tok exp
read_cache_iff formats now audience cred_id contents tok exp = (
  read_cache_sound formats now audience cred_id contents tok exp,
  read_cache_complete formats now audience cred_id contents tok exp,
)

write_text_atomic :
    (ops : FileOps) (text : Option Text) (disk : Disk)
    → disk.temporary ≡ none
    → (((write_text ops text disk).temporary ≡ none) ⊎ (ops.remove ≡ false))
      × (((write_text ops text disk).cached ≡ disk.cached)
          ⊎ ((write_text ops text disk).cached ≡ text))
unfolding write_text fill_temp remove_temp
write_text_atomic ops none disk h = (inl h, inl refl)
write_text_atomic ops (some text) disk h = ground arith

-- However its file operations go, a write leaves the cache file as it was or with the whole new entry,
-- and leaves no temporary file unless the removal of one fails.
pub write_cache_atomic :
    (formats : Formats) (ops : FileOps) (tok cred_id : Text) (disk : Disk)
    → disk.temporary ≡ none
    → (((write_cache formats ops tok cred_id disk).temporary ≡ none) ⊎ (ops.remove ≡ false))
      × (((write_cache formats ops tok cred_id disk).cached ≡ disk.cached)
          ⊎ ((write_cache formats ops tok cred_id disk).cached
              ≡ formats.marshal (entry_of tok cred_id)))
unfolding write_cache
write_cache_atomic formats ops tok cred_id disk h =
    write_text_atomic ops (formats.marshal (entry_of tok cred_id)) disk h
