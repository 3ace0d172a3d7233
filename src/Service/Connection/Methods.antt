-- ===== src/Service/Connection/Methods.antt =====
-- Which method of authentication a connection uses.
use nats_oidc_callout.Prelude.{◌≤◌, ◌≡◌, ◌≢◌, refl, true, false, [], ◌∷◌, arith, ok, is_empty}
use nats_oidc_callout.Prelude.Texts.{Text}
use nats_oidc_callout.Config.{NatsConfig, auth_methods, one_if}
use nats_oidc_callout.Service.Connection.{
  Libraries, anonymous, user_credentials, user_info, nkey_option, method_of,
}

-- Each method that is configured is the one that is used, and none is used if none is configured.
pub record UsesConfigured (lib : Libraries) (cfg : NatsConfig) : Type 0 where
  pub by_credentials :
      cfg.credentials ≢ [] → method_of lib cfg ≡ ok (user_credentials cfg.credentials)
  pub by_user : cfg.username ≢ [] → method_of lib cfg ≡ ok (user_info cfg.username cfg.password)
  pub by_nkey : cfg.nkey_seed ≢ [] → method_of lib cfg ≡ nkey_option lib cfg.nkey_seed
  pub by_none :
      cfg.credentials ≡ []
      → cfg.username ≡ []
      → cfg.nkey_seed ≡ []
      → method_of lib cfg ≡ ok anonymous

nonempty_is : (v : Text) → v ≢ [] → (is_empty v ≡ false) × (one_if v ≡ 1)
nonempty_is [] h = absurd (h refl)
nonempty_is (c ∷ v) h = (refl, refl)

empty_if : (v : Text) → one_if v ≡ 0 → is_empty v ≡ true
empty_if [] h = refl
empty_if (c ∷ v) h = cc

-- Where at most one method is configured, as validation demands, the connection uses exactly the one
-- that is: no configured credential is left unused in favour of another.
pub method_of-UsesConfigured :
    (lib : Libraries) (cfg : NatsConfig) → auth_methods cfg ≤ 1 → UsesConfigured lib cfg
unfolding method_of auth_methods
method_of-UsesConfigured lib cfg h = record {
  by_credentials = λ ne. let (e, _) = nonempty_is cfg.credentials ne in ground arith;
  by_user = λ ne.
      let (e, one) = nonempty_is cfg.username ne in
      let c = empty_if cfg.credentials (omega arith) in ground arith;
  by_nkey = λ ne.
      let (e, one) = nonempty_is cfg.nkey_seed ne in
      let c = empty_if cfg.credentials (omega arith) in
      let u = empty_if cfg.username (omega arith) in ground arith;
  by_none = λ c u n. ground arith;
}
