-- ===== src/Service/Connection.antt =====
-- cmd/nats-oidc-callout/main.go: the NATS connection of the service, its authentication, its TLS
-- configuration and the failures that it reports. nats.go, nkeys and crypto/tls are parameters.
pub mod Methods
pub mod Failures
use nats_oidc_callout.Prelude.{
  ℕ, Bool, true, false, not, ◌&&◌, ◌||◌, Option, none, some, List, [], ◌∷◌, ◌++◌, Result, ok, err,
  ◌>>=◌, ◌>>◌, fail_if, if◌then◌else◌, is_empty,
}
use nats_oidc_callout.Prelude.Texts.{Text, codes}
use nats_oidc_callout.Prelude.Int.{ℤ, negsuc}
use nats_oidc_callout.Strings.{has_prefix}
use nats_oidc_callout.Config.{NatsConfig}

-- `strings.Contains`
unfoldable pub contains : Text → Text → Bool
contains [] sub = has_prefix [] sub
contains (c ∷ s) sub = let later = contains s sub in has_prefix (c ∷ s) sub || later

-- What the connection uses and the repository does not hold.
pub record Libraries : Type 0 where
  pub from_seed : Text → Option Text  -- `nkeys.FromSeed`, the key pair as a text
  pub public_key : Text → Option Text
  pub is_user_key : Text → Bool  -- `nkeys.IsValidPublicUserKey`
  pub key_pair_loads : Text → Text → Bool  -- `tls.LoadX509KeyPair`
  pub read : Text → Option Text  -- `os.ReadFile`
  pub has_certs : Text → Bool  -- `AppendCertsFromPEM`

pub data ConnectError : Type 0 where
  bad_nkey_seed not_a_user_seed half_client_certificate bad_client_certificate : ConnectError
  unreadable_ca no_ca_certificates refused : ConnectError

-- The option of nats.go that authenticates the connection.
pub data Method : Type 0 where
  anonymous : Method
  user_credentials : Text → Method
  user_info : Text → Text → Method
  nkey : Text → Method

abbrev some_or {ℓ} : {A : Type ℓ} → ConnectError → Option A → Result ConnectError A
some_or e none = err e
some_or e (some a) = ok a

-- `nkeyOption`
unfoldable pub nkey_option : Libraries → Text → Result ConnectError Method
nkey_option lib seed = do
  pair ← some_or bad_nkey_seed (lib.from_seed seed)
  public ← some_or bad_nkey_seed (lib.public_key pair)
  fail_if (not (lib.is_user_key public)) not_a_user_seed
  ok (nkey public)

-- The switch of `connectNATS`.
unfoldable pub method_of : Libraries → NatsConfig → Result ConnectError Method
method_of lib cfg =
    if not (is_empty cfg.credentials)
    then ok (user_credentials cfg.credentials)
    else if not (is_empty cfg.username)
    then ok (user_info cfg.username cfg.password)
    else if not (is_empty cfg.nkey_seed)
    then nkey_option lib cfg.nkey_seed
    else ok anonymous

-- The parts of `tls.Config` that are set besides the least version, TLS 1.2: the files of the client
-- certificate, and the file of the root certificates.
pub record TlsConfig : Type 0 where
  pub certificate : Option (Text × Text)
  pub root_cas : Option Text

unfoldable pub client_certificate :
    Libraries → NatsConfig → Result ConnectError (Option (Text × Text))
client_certificate lib cfg =
    if is_empty cfg.client_cert && is_empty cfg.client_key then ok none else do
      fail_if (is_empty cfg.client_cert || is_empty cfg.client_key) half_client_certificate
      fail_if (not (lib.key_pair_loads cfg.client_cert cfg.client_key)) bad_client_certificate
      ok (some (cfg.client_cert, cfg.client_key))

unfoldable pub root_certificates : Libraries → NatsConfig → Result ConnectError (Option Text)
root_certificates lib cfg = if is_empty cfg.ca_cert then ok none else do
  pem ← some_or unreadable_ca (lib.read cfg.ca_cert)
  fail_if (not (lib.has_certs pem)) no_ca_certificates
  ok (some cfg.ca_cert)

-- `tlsConfig`; none is the nil of a connection without a TLS configuration of its own.
unfoldable pub tls_config : Libraries → NatsConfig → Result ConnectError (Option TlsConfig)
tls_config lib cfg =
    if is_empty cfg.client_cert && (is_empty cfg.client_key && is_empty cfg.ca_cert)
    then ok none
    else do
      certificate ← client_certificate lib cfg
      roots ← root_certificates lib cfg
      ok (some (record { certificate = certificate; root_cas = roots }))

-- The reconnect policy; durations are in nanoseconds, and a negative number of attempts is no limit.
pub record Reconnect : Type 0 where
  pub max_reconnects : ℤ
  pub wait : ℕ
  pub jitter : ℕ
  pub jitter_tls : ℕ

abbrev pub nats_reconnect : Reconnect
nats_reconnect = record {
  max_reconnects = negsuc 0;
  wait = 2_000_000_000;
  jitter = 500_000_000;
  jitter_tls = 1_000_000_000;
}

-- The options that `connectNATS` connects with, besides its name and handlers.
pub record Connect : Type 0 where
  pub url : Text
  pub method : Method
  pub tls : Option TlsConfig
  pub reconnect : Reconnect

unfoldable pub connect_options : Libraries → NatsConfig → Result ConnectError Connect
connect_options lib cfg = do
  method ← method_of lib cfg
  tls ← tls_config lib cfg
  ok (record { url = cfg.url; method = method; tls = tls; reconnect = nats_reconnect })

-- `connectNATS`; `dial` is whether `nats.Connect` succeeds.
unfoldable pub connect_nats :
    Libraries → (Connect → Bool) → NatsConfig → Result ConnectError Connect
connect_nats lib dial cfg = do
  options ← connect_options lib cfg
  fail_if (not (dial options)) refused
  ok options

-- A call of one of the connection's handlers. An asynchronous error has a text, and is a permission
-- violation or not.
pub data Event : Type 0 where
  disconnected reconnected closed : Event
  async_error : Bool → Text → Event

pub data Failure : Type 0 where
  closed_permanently : Failure
  subscription_revoked : Text → Failure

-- `callout.SysRequestUserAuthSubj` is a parameter; the quotes are those of `%q`.
abbrev pub auth_sub_violation : Text → Text
auth_sub_violation subject = codes "Subscription to \"" ++ (subject ++ codes "\"")

-- What a handler sends to the channel, if anything.
unfoldable pub sent_by : Text → Event → Option Failure
sent_by subject disconnected = none
sent_by subject reconnected = none
sent_by subject closed = some closed_permanently
sent_by subject (async_error violation text) =
    if violation && contains text (auth_sub_violation subject)
    then some (subscription_revoked text)
    else none

-- `fail`: the channel has room for one error, and a further one is dropped.
unfoldable pub send : Option Failure → Option Failure → Option Failure
send (some kept) sent = some kept
send none sent = sent

-- The channel after a sequence of handler calls.
unfoldable pub channel_after : Text → Option Failure → List Event → Option Failure
channel_after subject channel [] = channel
channel_after subject channel (e ∷ events) =
    channel_after subject (send channel (sent_by subject e)) events
