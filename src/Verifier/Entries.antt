-- ===== src/Verifier/Entries.antt =====
-- The entry that `New` makes for an issuer in internal/verifier/verifier.go, against what the options ask
-- for.
use nats_oidc_callout.Prelude.{
  ℕ, zero, suc, if◌then◌else◌, sym, ap, ◌≡◌, ◌≢◌, refl, ◌∙◌, false, none, [], ◌∷◌, arith, ◌⊎◌, ◌↔◌,
  inl, inr, ok, ok-injective,
}
use nats_oidc_callout.Prelude.Texts.{Text}
use nats_oidc_callout.Prelude.Int.{ℤ, pos, negsuc, is_zero, is_positive, pos_part}
use nats_oidc_callout.Verifier.KeySet.{Client, new_key_set, default_jwks_refresh_interval}
use nats_oidc_callout.Verifier.{
  IssuerEntry, IssuerOption, Options, Discovery, no_provider, unreadable, metadata, uri_of,
  made_entry, http_client,
}

-- The HTTP client that some options ask for: their timeout, 10 s if it is 0, and their root certificates.
pub record IsClient (opts : Options) (client : Client) : Type 0 where
  pub timeout :
      ((opts.http_timeout ≡ pos 0) × (client.timeout ≡ pos 10_000_000_000))
      ⊎ ((opts.http_timeout ≢ pos 0) × (client.timeout ≡ opts.http_timeout))
  pub root_cas : client.root_cas ≡ opts.root_cas

-- The interval between two refreshes: a positive one as configured, 30 s otherwise.
abbrev pub IsInterval : ℤ → ℕ → Type 0
IsInterval (pos (suc n)) interval = interval ≡ suc n
IsInterval _ interval = interval ≡ 30_000_000_000

-- The entry of a trusted issuer is the one that an option asks for: the algorithms are those of the
-- options, the required claims are the issuer's own, and the keys, none so far, are those at the address
-- that discovery finds for the issuer over the client.
pub record Honours (discover : Client → Text → Discovery) (opts : Options) (iss : IssuerOption)
    (entry : IssuerEntry) : Type 0 where
  pub url : entry.url ≡ iss.url
  pub algs : entry.algs ≡ opts.signing_algs
  pub claims : entry.require_claims ≡ iss.require_claims
  pub client : IsClient opts entry.key_set.client
  pub discovered : discover entry.key_set.client iss.url ≡ metadata entry.key_set.jwks_url
  pub address : entry.key_set.jwks_url ≢ []
  pub key_algs : entry.key_set.algs ≡ opts.signing_algs
  pub interval : IsInterval opts.jwks_refresh_interval entry.key_set.interval
  pub empty : entry.key_set.keys ≡ []
  pub unfetched : entry.key_set.last_fetch ≡ none
  pub idle : entry.key_set.inflight ≡ false

abbrev address_of : Discovery → Text
address_of (metadata uri) = uri
address_of _ = []

client_timeout :
    (t : ℤ)
    → ((t ≡ pos 0) × ((if is_zero t then pos 10_000_000_000 else t) ≡ pos 10_000_000_000))
      ⊎ ((t ≢ pos 0) × ((if is_zero t then pos 10_000_000_000 else t) ≡ t))
client_timeout (pos zero) = inl (refl, refl)
client_timeout (pos (suc n)) =
    inr (λ h. let e : suc n ≡ 0 = ap pos_part h in omega arith, ground arith)
client_timeout (negsuc n) = inr (λ h. cc, refl)

pub http_client-IsClient : (opts : Options) → IsClient opts (http_client opts)
unfolding http_client
http_client-IsClient opts = record { timeout = client_timeout opts.http_timeout; root_cas = refl }

timeout_unique :
    (t used : ℤ)
    → ((t ≡ pos 0) × (used ≡ pos 10_000_000_000)) ⊎ ((t ≢ pos 0) × (used ≡ t))
    → used ≡ (if is_zero t then pos 10_000_000_000 else t)
timeout_unique t used (inl (z, e)) = rw z e
timeout_unique t used (inr (n, e)) = elim (client_timeout t) [
  | inl (z, _) ↦ absurd (n z)
  | inr (_, e') ↦ e ∙ sym e'
]

pub IsClient-unique :
    (opts : Options) (client : Client) → IsClient opts client → client ≡ http_client opts
unfolding http_client
IsClient-unique opts client h = λ i. record {
  timeout = timeout_unique opts.http_timeout client.timeout h.timeout i;
  root_cas = h.root_cas i;
}

IsInterval-iff :
    (t : ℤ) (interval : ℕ)
    → IsInterval t interval
      ↔ (interval ≡ (if is_positive t then pos_part t else default_jwks_refresh_interval))
IsInterval-iff (pos zero) interval = (λ h. h, λ h. h)
IsInterval-iff (pos (suc n)) interval = (λ h. ground arith, λ h. ground arith)
IsInterval-iff (negsuc n) interval = (λ h. h, λ h. h)

pub uri_of_iff :
    (url uri : Text) (found : Discovery)
    → (uri_of url found ≡ ok uri) ↔ ((found ≡ metadata uri) × (uri ≢ []))
uri_of_iff url uri no_provider = (λ h. cc, λ h. cc)
uri_of_iff url uri unreadable = (λ h. cc, λ h. cc)
uri_of_iff url uri (metadata []) = (λ h. cc, λ h. absurd (h.1 (sym (ap address_of h.0))))
uri_of_iff url uri (metadata (c ∷ more)) = (
  λ h. let same = ok-injective (c ∷ more) uri _ refl h in (ap metadata same, λ e. cc),
  λ h. ap ok (ap address_of h.0),
)

pub made_entry-Honours :
    (discover : Client → Text → Discovery) (opts : Options) (iss : IssuerOption) (uri : Text)
    → uri_of iss.url (discover (http_client opts) iss.url) ≡ ok uri
    → Honours discover opts iss (made_entry opts iss uri)
unfolding made_entry new_key_set
made_entry-Honours discover opts iss uri h =
    let (found, given) = (uri_of_iff iss.url uri (discover (http_client opts) iss.url)).0 h in
    record {
      url = refl;
      algs = refl;
      claims = refl;
      client = http_client-IsClient opts;
      discovered = found;
      address = given;
      key_algs = refl;
      interval = (IsInterval-iff opts.jwks_refresh_interval _).1 refl;
      empty = refl;
      unfetched = refl;
      idle = refl;
    }

pub Honours-made_entry :
    (discover : Client → Text → Discovery) (opts : Options) (iss : IssuerOption)
    (entry : IssuerEntry)
    → Honours discover opts iss entry
    → made_entry opts iss entry.key_set.jwks_url ≡ entry
unfolding made_entry new_key_set
Honours-made_entry discover opts iss entry h = λ i. record {
  url = sym h.url i;
  algs = sym h.algs i;
  require_claims = sym h.claims i;
  key_set = record {
    jwks_url = entry.key_set.jwks_url;
    client = sym (IsClient-unique opts entry.key_set.client h.client) i;
    algs = sym h.key_algs i;
    interval =
        sym ((IsInterval-iff opts.jwks_refresh_interval entry.key_set.interval).0 h.interval) i;
    keys = sym h.empty i;
    last_fetch = sym h.unfetched i;
    inflight = sym h.idle i;
  };
}
