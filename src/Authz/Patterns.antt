-- ===== src/Authz/Patterns.antt =====
-- Subject patterns of internal/authz/authz.go: exact subjects, account pins in an ARN, and the
-- regular expression that a pattern compiles to.
pub mod Globs
pub mod Pins
use nats_oidc_callout.Prelude.{
  ℕ, Bool, true, false, ◌&&◌, ◌||◌, not, Option, none, some, List, [], ◌∷◌, ◌++◌, ◌==◌, Result, ok,
  err, ◌>>=◌, if◌then◌else◌, leb, ltb, length, all, is_empty,
}
use nats_oidc_callout.Prelude.Texts.{Text, codes, text_eq}
use nats_oidc_callout.Strings.{
  has_prefix, has_suffix, cut_prefix, trim_suffix, contains_byte, split, split_n, join,
}
use nats_oidc_callout.Regexp.{Engine, Regexp, compile, quote_meta, find_string_index}

-- The pattern is empty or a "re:" pattern, the first test of `subIsExact` and `accountPinnedInARN`.
abbrev pub is_regex_or_empty : Text → Bool
is_regex_or_empty pattern = is_empty pattern || has_prefix pattern (codes "re:")

-- `subIsExact`
unfoldable pub sub_is_exact : Text → Bool
unfolding has_prefix contains_byte
sub_is_exact pattern = if is_regex_or_empty pattern then false else not (contains_byte b'*' pattern)

abbrev pub is_digit : ℕ → Bool
is_digit c = leb b'0' c && leb c b'9'

-- `awsAccountID.MatchString`: exactly twelve digits
unfoldable pub is_aws_account_id : Text → Bool
is_aws_account_id s = length s == 12 && all is_digit s

-- The tests of `accountPinnedInARN` on the fields of the pattern.
unfoldable pub fields_pin : List Text → Bool
unfolding contains_byte join is_aws_account_id
fields_pin (f0 ∷ f1 ∷ f2 ∷ f3 ∷ f4 ∷ more) =
    if contains_byte b'*' (join b':' (f0 ∷ f1 ∷ f2 ∷ f3 ∷ [])) then false else is_aws_account_id f4
fields_pin _ = false

-- `accountPinnedInARN`
unfoldable pub account_pinned_in_arn : Text → Bool
unfolding has_prefix split_n fields_pin
account_pinned_in_arn pattern =
    if is_regex_or_empty pattern then false else fields_pin (split_n b':' 5 pattern)

pub data SubError : Type 0 where
  not_anchored invalid_regex invalid_glob : SubError

-- The loop of `compileSub`: each segment, escaped, with ".*" behind it.
unfoldable pub write_segments : List Text → Text
unfolding quote_meta
write_segments [] = []
write_segments (part ∷ parts) = quote_meta part ++ (codes ".*" ++ write_segments parts)

-- The regular expression that a glob is compiled as.
unfoldable pub glob_source : Text → Text
unfolding split write_segments trim_suffix
glob_source pattern =
    trim_suffix (codes "^" ++ write_segments (split b'*' pattern)) (codes ".*") ++ codes "$"

abbrev compiled : SubError → Option Regexp → Result SubError (Option Regexp)
compiled e none = err e
compiled e (some re) = ok (some re)

-- `compileSub`; the regular expression is none where the Go code returns nil.
unfoldable pub compile_sub : Engine → Text → Result SubError (Option Regexp)
unfolding cut_prefix has_prefix has_suffix glob_source compile
compile_sub engine [] = ok none
compile_sub engine pattern = elim (cut_prefix pattern (codes "re:")) [
  | some rest ↦
      if not (has_prefix rest (codes "^")) || not (has_suffix rest (codes "$"))
      then err not_anchored
      else compiled invalid_regex (compile engine rest)
  | none ↦ compiled invalid_glob (compile engine (glob_source pattern))
]

-- The match spans the whole subject.
abbrev spans : ℕ → Option (ℕ × ℕ) → Bool
spans len none = false
spans len (some (from, to)) = from == 0 && to == len

-- `(*Rule).subMatches`, on the rule's compiled pattern
unfoldable pub sub_matches : Engine → Option Regexp → Text → Bool
unfolding find_string_index
sub_matches engine none sub = true
sub_matches engine (some re) sub = spans (length sub) (find_string_index engine re sub)
