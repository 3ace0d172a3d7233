-- ===== src/K8sAuth.antt =====
-- lib/k8sauth/k8sauth.go: the client's source of projected service-account tokens. The file system is
-- a parameter: each read has an outcome.
use nats_oidc_callout.Prelude.{
  Option, none, some, List, [], ◌∷◌, Bool, true, false, not, Result, ok, err, if◌then◌else◌,
  is_empty, ◌>>=◌, ◌>>◌, fail_if,
}
use nats_oidc_callout.Prelude.Texts.{Text, codes}
use nats_oidc_callout.Strings.{trim_space}
pub mod Refresh

-- `DefaultServiceAccountTokenPath`
abbrev pub default_service_account_token_path : Text
default_service_account_token_path = codes "/var/run/secrets/kubernetes.io/serviceaccount/token"

-- `Config`
pub record Config : Type 0 where
  pub token_path : Text

pub data TokenError : Type 0 where
  path_required cancelled unreadable empty_file : TokenError

-- `TokenSource`
pub record TokenSource : Type 0 where
  pub path : Text
  pub last_err : Option TokenError

-- `New`
unfoldable pub new : Config → Result TokenError TokenSource
new cfg =
    if is_empty cfg.token_path
    then err path_required
    else ok (record { path = cfg.token_path; last_err = none })

-- The part of `Token` behind the read.
unfoldable pub checked : Text → Result TokenError Text
checked contents = let tok = trim_space contents in if is_empty tok then err empty_file else ok tok

-- `Token`: `cancelled_ctx` is whether the context has ended, and `read` are the file's contents at a
-- path, none if it cannot be read.
unfoldable pub token : Bool → (Text → Option Text) → TokenSource → Result TokenError Text
token cancelled_ctx read ts =
    if cancelled_ctx
    then err cancelled
    else elim (read ts.path) [ none ↦ err unreadable | some contents ↦ checked contents ]

-- `setLastError` and what the handler returns.
unfoldable pub handed : TokenSource → Result TokenError Text → TokenSource × Text
handed ts (ok tok) = (record ts { last_err = none }, tok)
handed ts (err e) = (record ts { last_err = some e }, [])

-- `LastError`
abbrev pub last_error : TokenSource → Option TokenError
last_error ts = ts.last_err

-- The handler of `NATSOption`, called on each connect: the source with its last error, and the token.
unfoldable pub handler : (Text → Option Text) → TokenSource → TokenSource × Text
handler read ts = handed ts (token false read ts)

-- One call of the handler for each state of the file system; the tokens in order.
unfoldable pub connects : List (Text → Option Text) → TokenSource → TokenSource × List Text
connects [] ts = (ts, [])
connects (read ∷ reads) ts =
    let (ts', tok) = handler read ts in let (ts'', toks) = connects reads ts' in (ts'', tok ∷ toks)
