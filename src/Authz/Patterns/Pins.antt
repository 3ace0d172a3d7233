-- ===== src/Authz/Patterns/Pins.antt =====
-- What a subject pattern that counts as an identity pin fixes in every subject that it matches.
use nats_oidc_callout.Prelude.{
  ℕ, ◌≡◌, refl, sym, ap, ◌∙◌, true, false, Option, none, some, List, [], ◌∷◌, ◌++◌, ◌==◌, arith,
  ◌↔◌, ◌≢◌, All, All-append, all, length, ok, append_assoc, and_split, get_elem?, take,
}
use nats_oidc_callout.Prelude.Texts.{Text, codes}
use nats_oidc_callout.Strings.{cut_prefix, contains_byte, split, split_n, cons_head, join}
use nats_oidc_callout.Strings.Splitting.{
  Lacks, split_of_Lacks, contains_byte-Lacks, cut_prefix_of_has_prefix, split_n_inv, split_n_single,
  split_n-append, split_n_of_Lacks,
}
use nats_oidc_callout.Regexp.{Engine, Regexp}
use nats_oidc_callout.Regexp.Glob.{Matches}
use nats_oidc_callout.Authz.Patterns.{
  compile_sub, sub_matches, sub_is_exact, account_pinned_in_arn, is_regex_or_empty, fields_pin,
  is_digit, is_aws_account_id,
}
use nats_oidc_callout.Authz.Patterns.Globs.{glob, sub_matches-glob}

is_regex_or_empty_lem :
    (pattern : Text)
    → is_regex_or_empty pattern ≡ false
    → (pattern ≢ []) × (cut_prefix pattern (codes "re:") ≡ none)
is_regex_or_empty_lem [] h = cc
is_regex_or_empty_lem (c ∷ pattern) h =
    (λ e. cc, cut_prefix_of_has_prefix (c ∷ pattern) (codes "re:") h)

-- The compiled pattern of a rule that accepts `sub`, for a pattern that is a glob.
sub_matches_of_glob :
    (engine : Engine) (pattern sub : Text) (re : Option Regexp)
    → is_regex_or_empty pattern ≡ false
    → compile_sub engine pattern ≡ ok re
    → (sub_matches engine re sub ≡ true) ↔ Matches (split b'*' pattern) sub
sub_matches_of_glob engine pattern sub re h e =
    let (ne, no_re) = is_regex_or_empty_lem pattern h in
    let (made, same) = sub_matches-glob engine pattern sub ne no_re in
    let equal : re ≡ some (glob (split b'*' pattern)) = cc in rw equal same

-- A pattern that is exact matches its own text and nothing else.
pub sub_is_exact_sound :
    (engine : Engine) (pattern sub : Text) (re : Option Regexp)
    → sub_is_exact pattern ≡ true
    → compile_sub engine pattern ≡ ok re
    → (sub_matches engine re sub ≡ true) ↔ (sub ≡ pattern)
unfolding sub_is_exact
sub_is_exact_sound engine pattern sub re h e =
    let lacks : contains_byte b'*' pattern ≡ false = ground arith in
    let matched = sub_matches_of_glob engine pattern sub re (ground arith) e in
    rw (split_of_Lacks b'*' pattern (contains_byte-Lacks b'*' pattern lacks)) at matched

-- A byte in front of the first part stands in front of the text that matches.
Matches-cons_head :
    (c : ℕ) (ps : List Text) (sub : Text)
    → Matches (cons_head c ps) sub
    → ps ≢ []
    → (u : Text) × (sub ≡ c ∷ u) × Matches ps u
Matches-cons_head c [] sub m ne = absurd (ne refl)
Matches-cons_head c (p ∷ []) sub m ne = (p, m, refl)
Matches-cons_head c (p ∷ q ∷ ps) sub (g, rest, e, lacks, m) ne =
    (p ++ (g ++ rest), e, (g, rest, refl, lacks, m))

split-ne-nil : (sep : ℕ) (s : Text) → split sep s ≢ []
unfolding split
split-ne-nil sep [] h = cc
split-ne-nil sep (c ∷ s) h = ground (arith, split-ne-nil sep s)

-- A literal head of a glob stands at the head of every text that matches.
Matches-append :
    (h t sub : Text)
    → Lacks b'*' h
    → Matches (split b'*' (h ++ t)) sub
    → (u : Text) × (sub ≡ h ++ u) × Matches (split b'*' t) u
unfolding split
Matches-append [] t sub lacks m = (sub, refl, m)
Matches-append (c ∷ h) t sub (p, lacks) m =
    let other : (c == b'*') ≡ false = ground arith in
    let (u, e, m') =
      Matches-cons_head c (split b'*' (h ++ t)) sub (rw other at m) (split-ne-nil b'*' (h ++ t)) in
    let (v, e', m'') = Matches-append h t u lacks m' in (v, e ∙ ap (λ r. c ∷ r) e', m'')

-- Digits are neither "*" nor ":".
digits-Lacks : (b : ℕ) (s : Text) → is_digit b ≡ false → all is_digit s ≡ true → Lacks b s
digits-Lacks b [] other h = tt
digits-Lacks b (c ∷ s) other h =
    let (digit, digits) = and_split (is_digit c) (all is_digit s) h in
    (λ e. cc (ap is_digit e), digits-Lacks b s other digits)

-- A text with five fields, the last of them open.
abbrev arn : (f0 f1 f2 f3 t : Text) → Text
arn f0 f1 f2 f3 t = f0 ++ (b':' ∷ (f1 ++ (b':' ∷ (f2 ++ (b':' ∷ (f3 ++ (b':' ∷ t)))))))

-- The text in front of the fifth field, its colon included.
abbrev head_of : (f0 f1 f2 f3 : Text) → Text
head_of f0 f1 f2 f3 = join b':' (f0 ∷ f1 ∷ f2 ∷ f3 ∷ []) ++ codes ":"

head_of-append : (f0 f1 f2 f3 t : Text) → head_of f0 f1 f2 f3 ++ t ≡ arn f0 f1 f2 f3 t
unfolding join
head_of-append f0 f1 f2 f3 t = simp append_assoc

-- The first five fields of a pattern, and the text behind the fourth colon.
arn_inv :
    (s f0 f1 f2 f3 f4 : Text) (more : List Text)
    → split_n b':' 5 s ≡ f0 ∷ f1 ∷ f2 ∷ f3 ∷ f4 ∷ more
    → (t : Text) × (s ≡ arn f0 f1 f2 f3 t)
      × (split_n b':' 1 t ≡ f4 ∷ more)
      × All (Lacks b':') (f0 ∷ f1 ∷ f2 ∷ f3 ∷ [])
arn_inv s f0 f1 f2 f3 f4 more h =
    let (t0, e0, l0, h0) = split_n_inv b':' 4 s f0 f1 (f2 ∷ f3 ∷ f4 ∷ more) h in
    let (t1, e1, l1, h1) = split_n_inv b':' 3 t0 f1 f2 (f3 ∷ f4 ∷ more) h0 in
    let (t2, e2, l2, h2) = split_n_inv b':' 2 t1 f2 f3 (f4 ∷ more) h1 in
    let (t3, e3, l3, h3) = split_n_inv b':' 1 t2 f3 f4 more h2 in
    (t3, rw (← e3, ← e2, ← e1) e0, h3, (l0, (l1, (l2, (l3, tt)))))

split_n-arn :
    (f0 f1 f2 f3 t : Text)
    → All (Lacks b':') (f0 ∷ f1 ∷ f2 ∷ f3 ∷ [])
    → split_n b':' 5 (arn f0 f1 f2 f3 t) ≡ f0 ∷ f1 ∷ f2 ∷ f3 ∷ split_n b':' 1 t
split_n-arn f0 f1 f2 f3 t (l0, (l1, (l2, (l3, _)))) = rw (
  split_n-append b':' 4 f0 _ l0,
  split_n-append b':' 3 f1 _ l1,
  split_n-append b':' 2 f2 _ l2,
  split_n-append b':' 1 f3 t l3,
)

-- The account of a subject behind the fourth colon.
account_tail :
    (t f4 u : Text) (more : List Text)
    → split_n b':' 1 t ≡ f4 ∷ more
    → all is_digit f4 ≡ true
    → Matches (split b'*' t) u
    → (later : List Text) × (split_n b':' 1 u ≡ f4 ∷ later)
unfolding split_n
account_tail t f4 u [] h digits m =
    let no_star = split_of_Lacks b'*' f4 (digits-Lacks b'*' f4 refl digits) in
    let whole : Matches (f4 ∷ []) u = rw (split_n_single b':' 1 t f4 h, no_star) at m in
    ([], rw whole (split_n_of_Lacks b':' 1 f4 (digits-Lacks b':' f4 refl digits)))
account_tail t f4 u (g ∷ gs) h digits m =
    let (t', cut, lacks, _) = split_n_inv b':' 0 t f4 g gs h in
    let h' : t ≡ (f4 ++ codes ":") ++ t' = rw append_assoc cut in
    let no_star =
      All-append (λ c. c ≢ b'*') f4 (codes ":") (digits-Lacks b'*' f4 refl digits)
        ((λ e. ground arith), tt) in
    let (v, e, _) = Matches-append (f4 ++ codes ":") t' u no_star (rw h' at m) in
    (v ∷ [], rw (e, append_assoc) (split_n-append b':' 0 f4 v lacks))

-- The fields of a subject that matches a pattern whose head holds no "*".
matched_fields :
    (f0 f1 f2 f3 f4 t sub : Text) (more : List Text)
    → All (Lacks b':') (f0 ∷ f1 ∷ f2 ∷ f3 ∷ [])
    → split_n b':' 1 t ≡ f4 ∷ more
    → contains_byte b'*' (join b':' (f0 ∷ f1 ∷ f2 ∷ f3 ∷ [])) ≡ false
    → all is_digit f4 ≡ true
    → Matches (split b'*' (arn f0 f1 f2 f3 t)) sub
    → (later : List Text) × (split_n b':' 5 sub ≡ f0 ∷ f1 ∷ f2 ∷ f3 ∷ f4 ∷ later)
matched_fields f0 f1 f2 f3 f4 t sub more lacks rest no_star digits m =
    let literal =
      All-append (λ c. c ≢ b'*') (join b':' (f0 ∷ f1 ∷ f2 ∷ f3 ∷ [])) (codes ":")
        (contains_byte-Lacks b'*' _ no_star) ((λ e. ground arith), tt) in
    let (u, e, m') =
      Matches-append (head_of f0 f1 f2 f3) t sub literal
        (rw (← head_of-append f0 f1 f2 f3 t) at m) in
    let (later, e') = account_tail t f4 u more rest digits m' in
    (later, rw (e, head_of-append f0 f1 f2 f3 u, split_n-arn f0 f1 f2 f3 u lacks, e'))

-- A pattern with a pinned account: its first four fields hold no "*", and its fifth is an account.
fields_pin_lem :
    (fields : List Text)
    → fields_pin fields ≡ true
    → (f0 f1 f2 f3 f4 : Text) × (more : List Text) × (fields ≡ f0 ∷ f1 ∷ f2 ∷ f3 ∷ f4 ∷ more)
      × (contains_byte b'*' (join b':' (f0 ∷ f1 ∷ f2 ∷ f3 ∷ [])) ≡ false)
      × (is_aws_account_id f4 ≡ true)
unfolding fields_pin
fields_pin_lem (f0 ∷ f1 ∷ f2 ∷ f3 ∷ f4 ∷ more) h =
    (f0, f1, f2, f3, f4, more, refl, ground arith, ground arith)
fields_pin_lem _ h = cc

-- Two lists of fields with the same first five ones.
abbrev Pinned : List Text → List Text → Type 0
Pinned subject pattern =
    (take 5 subject ≡ take 5 pattern)
    × (account : Text) × (get_elem? (take 5 subject) 4 ≡ some account)
    × (is_aws_account_id account ≡ true)

Pinned-of_fields :
    (ss ps : List Text) (f0 f1 f2 f3 f4 : Text) (later more : List Text)
    → ss ≡ f0 ∷ f1 ∷ f2 ∷ f3 ∷ f4 ∷ later
    → ps ≡ f0 ∷ f1 ∷ f2 ∷ f3 ∷ f4 ∷ more
    → is_aws_account_id f4 ≡ true
    → Pinned ss ps
Pinned-of_fields ss ps f0 f1 f2 f3 f4 later more e e' account =
    (ap (take 5) e ∙ sym (ap (take 5) e'), f4, ap (λ fs. get_elem? (take 5 fs) 4) e, account)

account_digits : (s : Text) → is_aws_account_id s ≡ true → all is_digit s ≡ true
unfolding is_aws_account_id
account_digits s h = (and_split (length s == 12) (all is_digit s) h).1

matched_Pinned :
    (pattern sub f0 f1 f2 f3 f4 : Text) (more : List Text)
    → split_n b':' 5 pattern ≡ f0 ∷ f1 ∷ f2 ∷ f3 ∷ f4 ∷ more
    → contains_byte b'*' (join b':' (f0 ∷ f1 ∷ f2 ∷ f3 ∷ [])) ≡ false
    → is_aws_account_id f4 ≡ true
    → Matches (split b'*' pattern) sub
    → Pinned (split_n b':' 5 sub) (split_n b':' 5 pattern)
matched_Pinned pattern sub f0 f1 f2 f3 f4 more fields no_star account m =
    let (t, same, rest, lacks) = arn_inv pattern f0 f1 f2 f3 f4 more fields in
    let (later, e) =
      matched_fields f0 f1 f2 f3 f4 t sub more lacks rest no_star (account_digits f4 account)
        (rw same at m) in
    Pinned-of_fields _ _ f0 f1 f2 f3 f4 later more e fields account

-- The five fields of an ARN up to the account.
abbrev pub arn_fields : Text → List Text
arn_fields s = take 5 (split_n b':' 5 s)

-- A pattern that counts as pinning an AWS account matches only subjects with the same first five
-- colon-separated fields, the fifth of which is a twelve-digit account.
pub account_pinned_in_arn_sound :
    (engine : Engine) (pattern sub : Text) (re : Option Regexp)
    → account_pinned_in_arn pattern ≡ true
    → compile_sub engine pattern ≡ ok re
    → sub_matches engine re sub ≡ true
    → (arn_fields sub ≡ arn_fields pattern)
      × (account : Text) × (get_elem? (arn_fields sub) 4 ≡ some account)
      × (is_aws_account_id account ≡ true)
unfolding account_pinned_in_arn
account_pinned_in_arn_sound engine pattern sub re pinned e matched =
    let m = (sub_matches_of_glob engine pattern sub re (ground arith) e).0 matched in
    let (f0, f1, f2, f3, f4, more, fields, no_star, account) =
      fields_pin_lem (split_n b':' 5 pattern) (ground arith) in
    matched_Pinned pattern sub f0 f1 f2 f3 f4 more fields no_star account m
