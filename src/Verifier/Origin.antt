-- ===== src/Verifier/Origin.antt =====
-- The verifier that `New` builds together with its running key sets.
use nats_oidc_callout.Prelude.{
  ℕ, ◌≤◌, ◌≡◌, ◌≢◌, subst, ◌⊎◌, Option, some, List, [], ◌∷◌, ◌++◌, ok, In,
}
use nats_oidc_callout.Prelude.Texts.{Text}
use nats_oidc_callout.Prelude.Maps.{lookup}
use nats_oidc_callout.Identity.{Identity, parse}
use nats_oidc_callout.Verifier.KeySet.{Client, KeySet}
use nats_oidc_callout.Verifier.KeySet.Requests.{Outside, Task, answered, World, Reach, initial}
use nats_oidc_callout.Verifier.KeySet.Requests.Published.{IsSigned, answered-IsSigned}
use nats_oidc_callout.Verifier.{
  Codec, Oidc, OidcLaws, IssuerEntry, IssuerOption, Options, Verifier, Discovery, metadata, new,
  verify, google,
}
use nats_oidc_callout.Verifier.Entries.{IsClient}
use nats_oidc_callout.Verifier.Issuers.{new_iff}
use nats_oidc_callout.Verifier.Trust.{verify_authentic}

-- The signatures that a verifier asks for are answered by calls on its issuers' running key sets.
abbrev pub IsRunning : Outside → Verifier → (Text → Text → Option Text) → Type 0
IsRunning out v signature =
    (named : Text) (entry : IssuerEntry) (raw payload : Text)
    → lookup named v.issuers ≡ some entry
    → signature entry.url raw ≡ some payload
    → (start : ℕ) × (w : World) × (before : List Task) × (after : List Task) × Reach out
        (initial entry.key_set start) w
      × (w.tasks ≡ before ++ (answered raw (ok payload) ∷ after))

-- The identity is that of a payload which a configured issuer signed: a key verifies it, by one of the
-- configured algorithms, that was published at the address which discovery found for the issuer, over a
-- client with the configured timeout and root certificates.
pub record IsIssued (codec : Codec) (out : Outside) (discover : Client → Text → Discovery)
    (opts : Options) (raw : Text) (id : Identity) : Type 0 where
  pub issuer : IssuerOption
  pub key_set : KeySet
  pub payload : Text
  pub flattened : Identity
  pub configured : In issuer opts.issuers
  pub named : (id.issuer ≡ issuer.url) ⊎ (issuer.url ≡ google)
  pub client : IsClient opts key_set.client
  pub discovered : discover key_set.client issuer.url ≡ metadata key_set.jwks_url
  pub address : key_set.jwks_url ≢ []
  pub algs : key_set.algs ≡ opts.signing_algs
  pub signed : IsSigned out key_set raw payload
  pub parsed : parse codec.members payload ≡ ok flattened
  pub claims : id.claims ≡ flattened.claims

-- With go-oidc as documented and key sets that run, in any interleaving of their calls and fetches, an
-- identity that a newly built verifier returns has not expired, and flattens the payload of a token that
-- a key verifies which was fetched, over a client with the configured timeout and root certificates, from
-- the address that discovery over this client found for a configured issuer: the one that the identity
-- names, or else Google, whose tokens may name it without the scheme.
pub verify-IsIssued :
    (codec : Codec) (oidc : Oidc) (out : Outside) (discover : Client → Text → Discovery)
    (opts : Options) (signature : Text → Text → Option Text) (v : Verifier) (now : ℕ) (raw : Text)
    (id : Identity)
    → OidcLaws oidc
    → new discover opts ≡ ok v
    → IsRunning out v signature
    → verify codec oidc signature v now raw ≡ ok id
    → (now ≤ id.expiry) × IsIssued codec out discover opts raw id
verify-IsIssued codec oidc out discover opts signature v now raw id laws built running h =
    let (alive, named, entry, payload, flattened, found, issuer, signed, parsed, claims) =
      verify_authentic codec oidc signature v now raw id laws h in
    let (option, m, same, honours) = (new_iff discover opts v named entry built).2.0 found in
    let (start, w, before, after, r, at) = running named entry raw payload found signed in
    (
      alive,
      record {
        issuer = option;
        key_set = entry.key_set;
        payload = payload;
        flattened = flattened;
        configured = m;
        named = subst (λ u. (id.issuer ≡ u) ⊎ (u ≡ google)) honours.url issuer;
        client = honours.client;
        discovered = honours.discovered;
        address = honours.address;
        algs = honours.key_algs;
        signed =
            answered-IsSigned out entry.key_set start w before after raw payload honours.empty r at;
        parsed = parsed;
        claims = claims;
      },
    )
