-- ===== src/K8sAuth/Refresh.antt =====
-- What the connect handler hands to the NATS client, and what it records.
use nats_oidc_callout.Prelude.{
  ◌≡◌, ◌≢◌, refl, ap, ◌∙◌, map, ℕ, Bool, false, Option, none, some, List, [], ◌∷◌, arith, ◌⊎◌, ◌↔◌,
  inl, inr, Result, ok, err, Bool-cases, Option-cases, if◌then◌else◌,
}
use nats_oidc_callout.Prelude.Texts.{Text}
use nats_oidc_callout.Strings.{trim_space, trim_left, trim_right, is_space}
use nats_oidc_callout.K8sAuth.{
  TokenSource, TokenError, token, checked, handed, handler, last_error, connects,
}

trim_left_fixed :
    (s : Text)
    → trim_left s ≡ [] ⊎ ((c : ℕ) × (t : Text) × (trim_left s ≡ c ∷ t) × (is_space c ≡ false))
unfolding trim_left
trim_left_fixed [] = inl refl
trim_left_fixed (c ∷ s) = elim (Bool-cases (is_space c)) [
  | inl e ↦ rw e (trim_left_fixed s)
  | inr e ↦ inr (c, s, ground arith, e)
]

abbrev keep : ℕ → Text → Text
keep c [] = if is_space c then [] else c ∷ []
keep c (d ∷ t) = c ∷ d ∷ t

trim_right-cons : (c : ℕ) (s : Text) → trim_right (c ∷ s) ≡ keep c (trim_right s)
unfolding trim_right
trim_right-cons c s = ground arith

trim_right-keep : (c : ℕ) (r : Text) → trim_right r ≡ r → trim_right (keep c r) ≡ keep c r
trim_right-keep c [] h = elim (Bool-cases (is_space c)) [
  | inl e ↦ rw e h
  | inr e ↦ rw e (trim_right-cons c [] ∙ ap (keep c) h ∙ rw e refl)
]
trim_right-keep c (d ∷ t) h = trim_right-cons c (d ∷ t) ∙ ap (keep c) h

trim_right_fixed : (s : Text) → trim_right (trim_right s) ≡ trim_right s
unfolding trim_right
trim_right_fixed [] = refl
trim_right_fixed (c ∷ s) =
    rw (trim_right-cons c s) (trim_right-keep c (trim_right s) (trim_right_fixed s))

trim_left-keep : (c : ℕ) (r : Text) → is_space c ≡ false → trim_left (keep c r) ≡ keep c r
unfolding trim_left
trim_left-keep c [] h = rw (h, h) refl
trim_left-keep c (d ∷ t) h = rw h refl

trim_left-trim_right : (s : Text) → trim_left (trim_right (trim_left s)) ≡ trim_right (trim_left s)
trim_left-trim_right s = elim (trim_left_fixed s) [
  | inl e ↦ rw e (unfold trim_right trim_left in refl)
  | inr (c, t, e, kept) ↦ rw e (rw (trim_right-cons c t) (trim_left-keep c (trim_right t) kept))
]

trim_space_fixed : (s : Text) → trim_space (trim_space s) ≡ trim_space s
unfolding trim_space
trim_space_fixed s = ap trim_right (trim_left-trim_right s) ∙ trim_right_fixed (trim_left s)

-- A token that is read is not empty, has no white space at its ends, and is what the file holds at
-- that moment between its white space.
pub token_sound :
    (ended : Bool) (read : Text → Option Text) (ts : TokenSource) (tok : Text)
    → token ended read ts ≡ ok tok
    → (tok ≢ [])
      × (trim_space tok ≡ tok)
      × (contents : Text) × (read ts.path ≡ some contents)
      × (tok ≡ trim_space contents)
unfolding token checked
token_sound ended read ts tok h = elim (Option-cases (read ts.path)) [
  | inl e ↦ absurd (ground arith)
  | inr (contents, e) ↦
      let same : tok ≡ trim_space contents = ground arith in
      (λ empty. ground arith, rw same (trim_space_fixed contents), contents, e, same)
]

handed_iff :
    (ts : TokenSource) (r : Result TokenError Text)
    → ((tok : Text) → r ≡ ok tok → tok ≢ [])
    → ((handed ts r).1 ≢ []) ↔ (last_error (handed ts r).0 ≡ none)
unfolding handed
handed_iff ts (ok tok) h = (λ _. refl, λ _. h tok refl)
handed_iff ts (err e) h = (λ ne. absurd (ne refl), λ n. cc)

-- The handler hands over a token exactly when it leaves no last error; otherwise the token is empty,
-- with which the connect fails, and the error is there to be read.
pub handler_iff :
    (read : Text → Option Text) (ts : TokenSource)
    → ((handler read ts).1 ≢ []) ↔ (last_error (handler read ts).0 ≡ none)
unfolding handler
handler_iff read ts =
    handed_iff ts (token false read ts) (λ tok h. (token_sound false read ts tok h).0)

handed-path : (ts : TokenSource) (r : Result TokenError Text) → (handed ts r).0.path ≡ ts.path
unfolding handed
handed-path ts (ok tok) = refl
handed-path ts (err e) = refl

handed-same :
    (ts ts' : TokenSource) (r : Result TokenError Text) → (handed ts r).1 ≡ (handed ts' r).1
unfolding handed
handed-same ts ts' (ok tok) = refl
handed-same ts ts' (err e) = refl

token-same :
    (read : Text → Option Text) (ts ts' : TokenSource)
    → ts.path ≡ ts'.path
    → token false read ts ≡ token false read ts'
unfolding token
token-same read ts ts' h = rw h refl

handler-same :
    (read : Text → Option Text) (ts ts' : TokenSource)
    → ts.path ≡ ts'.path
    → (handler read ts).1 ≡ (handler read ts').1
unfolding handler
handler-same read ts ts' h =
    ap (λ r. (handed ts r).1) (token-same read ts ts' h) ∙ handed-same ts ts' (token false read ts')

handler-path : (read : Text → Option Text) (ts : TokenSource) → (handler read ts).0.path ≡ ts.path
unfolding handler
handler-path read ts = handed-path ts (token false read ts)

abbrev pub fresh : Text → TokenSource
fresh path = record { path = path; last_err = none }

connects-fresh :
    (reads : List (Text → Option Text)) (ts : TokenSource) (path : Text)
    → ts.path ≡ path
    → (connects reads ts).1 ≡ map (λ read. (handler read (fresh path)).1) reads
unfolding connects
connects-fresh [] ts path h = refl
connects-fresh (read ∷ reads) ts path h =
    let one = handler-same read ts (fresh path) h in
    let later = connects-fresh reads (handler read ts).0 path (handler-path read ts ∙ h) in
    cc (one, later)

-- Every connect reads the file anew: whatever connects went before and however they failed, the
-- tokens are those that a fresh source would hand over at each state of the file.
pub connects-map :
    (reads : List (Text → Option Text)) (ts : TokenSource)
    → (connects reads ts).1 ≡ map (λ read. (handler read (fresh ts.path)).1) reads
connects-map reads ts = connects-fresh reads ts ts.path refl
