-- ===== src/Service/Concurrency/Origin.antt =====
-- Where the user JWTs of a running service come from: its configuration files and the keys that its
-- issuers publish.
use nats_oidc_callout.Prelude.{◌≡◌, ◌⊎◌, true, Option, none, some, [], ok}
use nats_oidc_callout.Prelude.Texts.{Text}
use nats_oidc_callout.Verifier.{Options}
use nats_oidc_callout.Verifier.KeySet.Requests.{Outside}
use nats_oidc_callout.Verifier.Origin.{IsIssued}
use nats_oidc_callout.Config.{Config, load}
use nats_oidc_callout.Callout.{Ruleset, Services, Moment, Request}
use nats_oidc_callout.Callout.Safety.{Safe}
use nats_oidc_callout.Service.{Environment, root_cas}
use nats_oidc_callout.Service.Concurrency

-- The root certificates are the system's if no file is configured, and otherwise those of the file, which
-- can be read and has some.
abbrev pub AreRoots : Environment → Text → Option Text → Type 0
AreRoots env file cas =
    ((file ≡ []) × (cas ≡ none))
    ⊎ ((pem : Text) × (env.files.read file ≡ some pem)
        × (env.has_certs pem ≡ true)
        × (cas ≡ some pem))

-- The options of the verifier are the configuration's, with the root certificates.
pub record AreSettings (cfg : Config) (cas : Option Text) (opts : Options) : Type 0 where
  pub issuers : opts.issuers ≡ cfg.issuers
  pub audiences : opts.audiences ≡ cfg.audiences
  pub signing_algs : opts.signing_algs ≡ cfg.signing_algs
  pub http_timeout : opts.http_timeout ≡ cfg.http_timeout
  pub roots : opts.root_cas ≡ cas
  pub interval : opts.jwks_refresh_interval ≡ cfg.jwks_refresh_interval

-- The user JWT is safe under the policy of a configuration that the file held in some world, and its
-- identity was issued, with a published key, by an issuer of the same configuration.
pub record IsOriginated (s : Services) (out : Outside) (path : Text) (t : Moment) (rs : Ruleset)
    (req : Request) (user_jwt : Text) : Type 0 where
  pub safe : Safe s t rs.verifier rs.policy req user_jwt
  pub env : Environment
  pub cfg : Config
  pub cas : Option Text
  pub opts : Options
  pub loaded : load env.files s.engine s.cel path ≡ ok cfg
  pub policy : rs.policy ≡ cfg.policy
  pub root_cas : AreRoots env cfg.oidc_ca_cert cas
  pub settings : AreSettings cfg cas opts
  pub issued : IsIssued s.codec out env.discover opts req.token safe.id
