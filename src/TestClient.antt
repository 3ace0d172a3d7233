-- ===== src/TestClient.antt =====
-- test/k8s/client/main.go: the client of the end-to-end test, on lib/k8sauth. What nats.go answers and
-- the file at both reads of the token are parameters.
pub mod Verdict
use nats_oidc_callout.Prelude.{
  ℕ, Option, none, some, List, [], ◌∷◌, Bool, true, false, not, ◌&&◌, Result, ok, err,
  if◌then◌else◌, ◌>>=◌, ◌>>◌, fail_if,
}
use nats_oidc_callout.Prelude.Texts.{Text, codes, text_eq}
use nats_oidc_callout.K8sAuth
use nats_oidc_callout.K8sAuth.{TokenError, TokenSource, token, handler}

-- The flags, as given or by default.
pub record Flags : Type 0 where
  pub url : Text
  pub token_path : Text
  pub subject : Text
  pub expect : Text

abbrev pub default_flags : Flags
default_flags = record {
  url = codes "nats://nats:4222";
  token_path = codes "/var/run/secrets/nats/token";
  subject = codes "app.test";
  expect = codes "allow";
}

-- An error of `nats.Connect`, by whether it is `nats.ErrAuthorization`.
pub data ConnectError : Type 0 where
  authorization not_connected : ConnectError

-- The outside world: the files before the connect and during it, the connect with a URL and a token,
-- and the connection.
pub record World : Type 0 where
  pub first_read : Text → Option Text
  pub second_read : Text → Option Text
  pub connect : Text → Text → Option ConnectError
  pub publishes : Text → Bool
  pub flushes : Bool

pub data Printed : Type 0 where
  denied_as_expected publish_ok : Printed

pub data RunError : Type 0 where
  no_token : TokenError → RunError
  connect_failed : ConnectError → RunError
  expected_denial publish_failed flush_failed : RunError

abbrev pub lift_token : {A : Type 0} → Result TokenError A → Result RunError A
lift_token (ok a) = ok a
lift_token (err e) = err (no_token e)

abbrev pub is_deny : Flags → Bool
is_deny flags = text_eq flags.expect (codes "deny")

-- `run` behind the connect.
unfoldable pub connected : World → Flags → Option ConnectError → Result RunError Printed
connected world flags (some authorization) =
    if is_deny flags then ok denied_as_expected else err (connect_failed authorization)
connected world flags (some not_connected) = err (connect_failed not_connected)
connected world flags none = do
  fail_if (is_deny flags) expected_denial
  fail_if (not (world.publishes flags.subject)) publish_failed
  fail_if (not world.flushes) flush_failed
  ok publish_ok

unfoldable pub run : World → Flags → Result RunError Printed
run world flags = do
  ts ← lift_token (K8sAuth.new (record { token_path = flags.token_path }))
  _ ← lift_token (token false world.first_read ts)
  connected world flags (world.connect flags.url (handler world.second_read ts).1)

-- The exit status and what is printed.
abbrev pub exit_of : Result RunError Printed → ℕ × Option Printed
exit_of (ok p) = (0, some p)
exit_of (err e) = (1, none)

unfoldable pub main : World → Flags → ℕ × Option Printed
main world flags =
    if not (text_eq flags.expect (codes "allow")) && not (text_eq flags.expect (codes "deny"))
    then (1, none)
    else exit_of (run world flags)
