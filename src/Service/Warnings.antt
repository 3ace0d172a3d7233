-- ===== src/Service/Warnings.antt =====
-- Which changes of the configuration a reload reports as needing a restart.
use nats_oidc_callout.Prelude.{◌≡◌, ap, Bool, true, not, ◌&&◌, ◌||◌, [], ◌++◌, arith, ◌↔◌, ==_iff}
use nats_oidc_callout.Prelude.Texts.{text_eq, text_eq_iff}
use nats_oidc_callout.Prelude.Int.{ℤ, pos, negsuc, int_eq}
use nats_oidc_callout.Config.{Config, NatsConfig, MetricsConfig}
use nats_oidc_callout.Service.{
  Warning, nats_changed, seeds_changed, metrics_changed, workers_changed, nats_eq, metrics_eq,
  bool_eq, warn_if, warn_unreloadable,
}

int_eq_iff : (a b : ℤ) → (int_eq a b ≡ true) ↔ (a ≡ b)
int_eq_iff (pos m) (pos n) = (λ h. ap pos ((==_iff m n).0 h), λ h. ground arith)
int_eq_iff (pos m) (negsuc n) = (λ h. cc, λ h. cc)
int_eq_iff (negsuc m) (pos n) = (λ h. cc, λ h. cc)
int_eq_iff (negsuc m) (negsuc n) = (λ h. ap negsuc ((==_iff m n).0 h), λ h. ground arith)

bool_eq_iff : (a b : Bool) → (bool_eq a b ≡ true) ↔ (a ≡ b)
bool_eq_iff a b = ground arith

and_iff {ℓ κ} :
    {P : Type ℓ} {Q : Type κ} (a b : Bool)
    → (a ≡ true) ↔ P
    → (b ≡ true) ↔ Q
    → ((a && b) ≡ true) ↔ (P × Q)
and_iff a b f g =
    (λ h. (f.0 (ground arith), g.0 (ground arith)), λ h. ground (arith, f.1 h.0, g.1 h.1))

-- The two connections are set up the same way.
pub record SameNats (a b : NatsConfig) : Type 0 where
  pub url : a.url ≡ b.url
  pub credentials : a.credentials ≡ b.credentials
  pub username : a.username ≡ b.username
  pub password : a.password ≡ b.password
  pub nkey_seed : a.nkey_seed ≡ b.nkey_seed
  pub ca_cert : a.ca_cert ≡ b.ca_cert
  pub client_cert : a.client_cert ≡ b.client_cert
  pub client_key : a.client_key ≡ b.client_key

nats_eq_iff : (a b : NatsConfig) → (nats_eq a b ≡ true) ↔ SameNats a b
unfolding nats_eq
nats_eq_iff a b =
    let same = and_iff _ _ (text_eq_iff a.url b.url) (
      and_iff _ _ (text_eq_iff a.credentials b.credentials) (
        and_iff _ _ (text_eq_iff a.username b.username) (
          and_iff _ _ (text_eq_iff a.password b.password) (
            and_iff _ _ (text_eq_iff a.nkey_seed b.nkey_seed) (
              and_iff _ _ (text_eq_iff a.ca_cert b.ca_cert) (
                and_iff _ _ (text_eq_iff a.client_cert b.client_cert)
                  (text_eq_iff a.client_key b.client_key))))))) in
    (
      λ h.
          let (url, (credentials, (username, (password, (nkey, (ca, (cert, key))))))) = same.0 h in
          record {
            url = url;
            credentials = credentials;
            username = username;
            password = password;
            nkey_seed = nkey;
            ca_cert = ca;
            client_cert = cert;
            client_key = key;
          },
      λ s. same.1 (
        s.url,
        (
          s.credentials,
          (s.username, (s.password, (s.nkey_seed, (s.ca_cert, (s.client_cert, s.client_key))))),
        ),
      ),
    )

-- The settings that need a restart are the same.
pub record Unchanged (old new : Config) : Type 0 where
  pub nats : SameNats old.nats new.nats
  pub seed : old.issuer_account_seed ≡ new.issuer_account_seed
  pub xkey : old.xkey_seed ≡ new.xkey_seed
  pub enabled : old.metrics.enabled ≡ new.metrics.enabled
  pub address : old.metrics.address ≡ new.metrics.address
  pub path : old.metrics.path ≡ new.metrics.path
  pub workers : old.workers ≡ new.workers
  pub verify_timeout : old.verify_timeout ≡ new.verify_timeout

-- Four tests that warn when they fail give no warning exactly if all of them hold.
quiet :
    (a b c d e f : Bool) (v w x y : Warning)
    → ((warn_if (not a) v
          ++ (warn_if (not b || not c) w ++ (warn_if (not d) x ++ warn_if (not e || not f) y)))
        ≡ [])
      ↔ ((a && (b && (c && (d && (e && f))))) ≡ true)
quiet a b c d e f v w x y = ground arith

metrics_eq_iff :
    (a b : MetricsConfig)
    → (metrics_eq a b ≡ true)
      ↔ ((a.enabled ≡ b.enabled) × ((a.address ≡ b.address) × (a.path ≡ b.path)))
unfolding metrics_eq
metrics_eq_iff a b =
    and_iff _ _ (bool_eq_iff a.enabled b.enabled)
      (and_iff _ _ (text_eq_iff a.address b.address) (text_eq_iff a.path b.path))

-- A reload gives no warning exactly if none of the settings that need a restart differs from those
-- that the process was started with: the NATS connection, the two seeds, the metrics endpoint, the
-- workers and the verification timeout.
pub warn_unreloadable_iff :
    (old new : Config) → (warn_unreloadable old new ≡ []) ↔ Unchanged old new
unfolding warn_unreloadable
warn_unreloadable_iff old new =
    let same = and_iff _ _ (nats_eq_iff old.nats new.nats) (
      and_iff _ _ (text_eq_iff old.issuer_account_seed new.issuer_account_seed) (
        and_iff _ _ (text_eq_iff old.xkey_seed new.xkey_seed) (
          and_iff _ _ (metrics_eq_iff old.metrics new.metrics) (
            and_iff _ _ (int_eq_iff old.workers new.workers)
              (int_eq_iff old.verify_timeout new.verify_timeout))))) in
    let none_given =
      quiet (nats_eq old.nats new.nats) (text_eq old.issuer_account_seed new.issuer_account_seed)
        (text_eq old.xkey_seed new.xkey_seed) (metrics_eq old.metrics new.metrics)
        (int_eq old.workers new.workers) (int_eq old.verify_timeout new.verify_timeout) nats_changed
        seeds_changed metrics_changed workers_changed in
    (
      λ h.
          let (nats, (seed, (xkey, ((enabled, (address, path)), (workers, timeout))))) =
            same.0 (none_given.0 h) in
          record {
            nats = nats;
            seed = seed;
            xkey = xkey;
            enabled = enabled;
            address = address;
            path = path;
            workers = workers;
            verify_timeout = timeout;
          },
      λ u. none_given.1 (
          same.1 (
            u.nats,
            (u.seed, (u.xkey, ((u.enabled, (u.address, u.path)), (u.workers, u.verify_timeout)))),
          )),
    )
