-- ===== src/Examples/Clients.antt =====
-- A run of the test client whose connect is refused.
use nats_oidc_callout.Prelude.{◌≡◌, ◌↔◌, some, true, refl, if◌then◌else◌}
use nats_oidc_callout.Prelude.Texts.{codes, text_eq}
use nats_oidc_callout.Strings.{trim_space, trim_left, trim_right}
use nats_oidc_callout.K8sAuth
use nats_oidc_callout.K8sAuth.{token, checked, handler, handed}
use nats_oidc_callout.TestClient.{
  World, Flags, default_flags, authorization, not_connected, denied_as_expected, publish_ok, main,
  run, connected,
}
use nats_oidc_callout.TestClient.Verdict.{Readable, Allowed, Denied, main_verdict}

abbrev refusing : World
refusing = record {
  first_read = λ path. some (codes "tok\n");
  second_read = λ path. some (codes "tok2\n");
  connect =
      λ url tok. if text_eq tok (codes "tok2") then some authorization else some not_connected;
  publishes = λ subject. true;
  flushes = true;
}

abbrev expects_denial : Flags
expects_denial = record default_flags { expect = codes "deny" }

denied : main refusing expects_denial ≡ (0, some denied_as_expected)
unfolding main run connected text_eq K8sAuth.new token checked trim_space trim_left trim_right
    handler handed
denied = refl

main_verdict_example :
    ((main refusing expects_denial ≡ (0, some publish_ok))
      ↔ (Readable refusing expects_denial × Allowed refusing expects_denial))
    × ((main refusing expects_denial ≡ (0, some denied_as_expected))
        ↔ (Readable refusing expects_denial × Denied refusing expects_denial))
main_verdict_example = main_verdict refusing expects_denial
