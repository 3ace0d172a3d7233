-- ===== src/Examples/Authorizations.antt =====
-- Authorizations from the request to the user JWT.
use nats_oidc_callout.Prelude.{◌≡◌, refl, none, some, ok, ◌↔◌}
use nats_oidc_callout.Prelude.Texts.{codes}
use nats_oidc_callout.Prelude.Int.{pos}
use nats_oidc_callout.Authz.Policy.{validate}
use nats_oidc_callout.Metrics
use nats_oidc_callout.Callout.{Authorizer, Services, authorize}
use nats_oidc_callout.Callout.Issuing.{Issued, authorize-eq-ok_iff}
use nats_oidc_callout.Callout.Counting.{Unsigned, authorize-uncounted_iff}
use nats_oidc_callout.Examples.Fixtures.{engine, cel, policy, services, clock, request, verifier}

abbrev authorizer : Authorizer
authorizer = record {
  state = record { verifier = verifier; policy = (validate engine cel policy).0 };
  metrics = some Metrics.new;
  verify_timeout = pos 1;
}

authorize-eq-ok_iff_example :
    ((authorize services clock authorizer request).1 ≡ ok (codes "U1"))
    ↔ Issued services clock authorizer request (codes "U1")
authorize-eq-ok_iff_example = authorize-eq-ok_iff services clock authorizer request (codes "U1")

-- A service that cannot sign.
abbrev unable : Services
unable = record services { encode = λ _. none }

authorize-uncounted_iff_example :
    ((authorize unable clock authorizer request).0.metrics ≡ some Metrics.new)
    ↔ Unsigned unable clock authorizer request
authorize-uncounted_iff_example =
    authorize-uncounted_iff unable clock authorizer request Metrics.new refl
