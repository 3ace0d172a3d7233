-- ===== src/Examples/Patterns.antt =====
-- Subject patterns.
use nats_oidc_callout.Prelude.{
  ◌≡◌, ◌≢◌, refl, true, none, some, [], ◌∷◌, ok, ◌↔◌, get_elem?, length,
}
use nats_oidc_callout.Prelude.Texts.{Text, codes}
use nats_oidc_callout.Strings.{split, cut_prefix}
use nats_oidc_callout.Regexp.{Regexp, simple, begin, lit, finish, special_bytes}
use nats_oidc_callout.Regexp.Glob.{Matches}
use nats_oidc_callout.Authz.Patterns.{
  compile_sub, sub_is_exact, account_pinned_in_arn, is_aws_account_id, sub_matches,
}
use nats_oidc_callout.Authz.Patterns.Globs.{glob, sub_matches-glob}
use nats_oidc_callout.Authz.Patterns.Pins.{account_pinned_in_arn_sound, arn_fields}
use nats_oidc_callout.Examples.Fixtures.{engine}

special_count : length special_bytes ≡ 14
special_count = refl

abbrev pattern : Text
pattern = codes "a:*"

nonempty : pattern ≢ []
nonempty h = cc

no_regex : cut_prefix pattern (codes "re:") ≡ none
unfolding cut_prefix
no_regex = refl

sub_matches-glob_example :
    (compile_sub engine pattern ≡ ok (some (glob (split b'*' pattern))))
    × ((sub_matches engine (some (glob (split b'*' pattern))) (codes "a:x") ≡ true)
        ↔ Matches (split b'*' pattern) (codes "a:x"))
sub_matches-glob_example = sub_matches-glob engine pattern (codes "a:x") nonempty no_regex

abbrev bot_regexp : Regexp
bot_regexp = simple (begin ∷ lit b'b' ∷ lit b'o' ∷ lit b't' ∷ finish ∷ [])

bot_exact : sub_is_exact (codes "bot") ≡ true
unfolding sub_is_exact
bot_exact = refl

bot_compiles : compile_sub engine (codes "bot") ≡ ok (some bot_regexp)
unfolding compile_sub
bot_compiles = refl

abbrev arn : Text
arn = codes "::::123456789012:*"

abbrev arn_regexp : Regexp
arn_regexp = glob (split b'*' arn)

arn_pinned : account_pinned_in_arn arn ≡ true
unfolding account_pinned_in_arn
arn_pinned = refl

arn_compiles : compile_sub engine arn ≡ ok (some arn_regexp)
unfolding compile_sub
arn_compiles = refl

arn_matches : sub_matches engine (some arn_regexp) (codes "::::123456789012:x") ≡ true
unfolding sub_matches split
arn_matches = refl

account_pinned_in_arn_sound_example :
    (arn_fields (codes "::::123456789012:x") ≡ arn_fields arn)
    × (account : Text) × (get_elem? (arn_fields (codes "::::123456789012:x")) 4 ≡ some account)
    × (is_aws_account_id account ≡ true)
account_pinned_in_arn_sound_example =
    account_pinned_in_arn_sound engine arn (codes "::::123456789012:x") (some arn_regexp) arn_pinned
      arn_compiles arn_matches
