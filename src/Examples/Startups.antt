-- ===== src/Examples/Startups.antt =====
-- Starts of the service, the failures of its connection, and its shutdown.
use nats_oidc_callout.Callout
use nats_oidc_callout.Verifier
use nats_oidc_callout.Prelude.{
  ◌*◌, ◌≡◌, refl, true, false, none, some, [], ◌∷◌, ◌↔◌, ◌⊎◌, arith, List, ◌+◌,
}
use nats_oidc_callout.Prelude.Texts.{Text, codes}
use nats_oidc_callout.Callout.{Authorizer, authorize, reload}
use nats_oidc_callout.Service.{reload_config}
use nats_oidc_callout.Service.Connection.{
  Libraries, Event, closed_permanently, async_error, closed, disconnected, channel_after,
}
use nats_oidc_callout.Service.Connection.Failures.{IsFirst, channel_after_iff}
use nats_oidc_callout.Service.Shutdown.{Draining, Effect, stop_service, poll_interval}
use nats_oidc_callout.Service.Shutdown.Deadline.{ClockLaw, Ends, stop_service_terminates}
use nats_oidc_callout.Service.Startup.{World, run, signalled}
use nats_oidc_callout.Service.Startup.Serving.{IsUnconnected, IsStopped, run_cases}
use nats_oidc_callout.Service.Concurrency
use nats_oidc_callout.Service.Concurrency.{
  queued, loaded, answered, with_loaded, arrives, loads, ends, reloads, Reach, here, next,
}
use nats_oidc_callout.Service.Concurrency.Atomic.{AtomicReach, abstract, Reach-atomic}
use nats_oidc_callout.Examples.Fixtures.{engine, cel, clock, request, services, policy, verifier}
use nats_oidc_callout.Examples.Services.{working, broken}
use nats_oidc_callout.Authz.Policy.{validate}
use nats_oidc_callout.Prelude.Int.{pos}

abbrev libraries : Libraries
libraries = record {
  from_seed = λ seed. some seed;
  public_key = λ pair. some pair;
  is_user_key = λ public. true;
  key_pair_loads = λ certificate key. true;
  read = λ path. some path;
  has_certs = λ pem. true;
}

abbrev world : World
world = record {
  env = working;
  lib = libraries;
  listens = λ address. true;
  dial = λ options. true;
  service_starts = true;
  ending = signalled;
}

run_cases_example :
    IsUnconnected (run engine cel world (codes "f"))
    ⊎ IsStopped world (run engine cel world (codes "f"))
run_cases_example = run_cases engine cel world (codes "f")

abbrev subject : Text
subject = codes "$SYS.REQ.USER.AUTH"

abbrev events : List Event
events = disconnected ∷ async_error true (codes "slow") ∷ closed ∷ []

channel_after_iff_example :
    (channel_after subject none events ≡ some closed_permanently)
    ↔ IsFirst subject events closed_permanently
channel_after_iff_example = channel_after_iff subject events closed_permanently

-- A drain that never ends, under a clock that is exactly on time.
abbrev draining : Draining
draining = record {
  drain_starts = true;
  begin = 5;
  is_closed = λ i. false;
  clock = λ i. 5 + i * poll_interval;
}

on_time : ClockLaw draining
on_time = (omega arith, λ i. omega arith)

stop_service_terminates_example :
    (effects : List Effect) × (stop_service 1001 draining ≡ some effects) × Ends draining effects
stop_service_terminates_example = stop_service_terminates draining on_time

abbrev start : Authorizer
start = record {
  state = record { verifier = verifier; policy = (validate engine cel policy).0 };
  metrics = none;
  verify_timeout = pos 1_500_000_000;
}

-- A worker loads the ruleset for the request before a reload, and ends it behind that reload.
abbrev arrived : Concurrency.World
arrived = record { authorizer = start; history = start.state ∷ []; tasks = queued request 1 ∷ [] }

abbrev begun : Concurrency.World
begun = record arrived { tasks = loaded request 1 start.state ∷ [] }

abbrev reloaded : Authorizer
reloaded = (reload_config engine cel (codes "f") broken start).0

abbrev swapped : Concurrency.World
swapped = record {
  authorizer = reloaded;
  history = reloaded.state ∷ start.state ∷ [];
  tasks = loaded request 1 start.state ∷ [];
}

abbrev ended : Concurrency.World
ended = record swapped {
  authorizer = record reloaded {
    metrics = (authorize services clock (with_loaded reloaded start.state) request).0.metrics;
  };
  tasks =
      answered request start.state clock
        (authorize services clock (with_loaded reloaded start.state) request).1
      ∷ [];
}

ended_reached : Reach services (codes "f") start ended
ended_reached =
    let one : Reach services (codes "f") start arrived = next here (arrives request) in
    let two : Reach services (codes "f") start begun = next one (loads [] request 1 [] refl) in
    let three : Reach services (codes "f") start swapped = next two (reloads broken) in
    next three (ends [] request 1 start.state [] clock refl)

Reach-atomic_example : AtomicReach services start.state (abstract ended)
Reach-atomic_example = Reach-atomic ended_reached
