-- ===== src/Metrics/Server/Routes.antt =====
-- Which handlers the health probes reach, next to a metrics path.
use nats_oidc_callout.Prelude.{
  ℕ, ◌≡◌, ◌≢◌, refl, sym, ◌∙◌, ap, Bool, true, false, not, In, ◌||◌, Option, none, some, List, [],
  ◌∷◌, ok, arith, inl, inr, All, fail_if-ok,
}
use nats_oidc_callout.Prelude.Texts.{Text, codes, text_eq, text_eq_iff}
use nats_oidc_callout.Strings.{has_prefix, contains_byte}
use nats_oidc_callout.Config.{
  Files, liveness_path, readiness_path, validate_path, check_decoded, has_pattern_byte,
}
use nats_oidc_callout.Metrics.Server.{Handler, liveness, readiness, new_mux, Response, respond}

-- `ServeMux`: the handler of a request's path, as it is sent, under some patterns.
abbrev pub Mux : Type 0
Mux = List (Text × Handler) → Text → Option Handler

-- A pattern of a path alone, with no method, host or wildcard.
abbrev pub IsLiteral : Text × Handler → Type 0
IsLiteral pattern = (has_prefix pattern.0 (codes "/") ≡ true) × (has_pattern_byte pattern.0 ≡ false)

-- No two patterns denote the same path.
abbrev pub AreDistinct : Files → List (Text × Handler) → Type 0
AreDistinct files [] = Unit
AreDistinct files (pattern ∷ patterns) =
    All (λ other. files.unescape pattern.0 ≢ files.unescape other.0) patterns
    × AreDistinct files patterns

-- What net/http documents of literal patterns of which no two denote the same path: a request for a
-- pattern that is a clean path, with nothing to decode, goes to the handler of that pattern.
abbrev pub MuxLaw : Files → Mux → Type 0
MuxLaw files mux =
    (patterns : List (Text × Handler)) (path : Text) (h : Handler)
    → All IsLiteral patterns
    → AreDistinct files patterns
    → files.clean path ≡ path
    → files.unescape path ≡ some path
    → In (path, h) patterns
    → mux patterns path ≡ some h

-- What net/url and path document of a path with nothing to decode and nothing to clean.
pub record PlainLaw (files : Files) : Type 0 where
  pub liveness_plain : files.unescape liveness_path ≡ some liveness_path
  pub liveness_clean : files.clean liveness_path ≡ liveness_path
  pub readiness_plain : files.unescape readiness_path ≡ some readiness_path
  pub readiness_clean : files.clean readiness_path ≡ readiness_path

-- An accepted path is a literal pattern and denotes neither probe.
record IsApart (files : Files) (p : Text) : Type 0 where
  literal : (has_prefix p (codes "/") ≡ true) × (has_pattern_byte p ≡ false)
  decoded : Text
  unescaped : files.unescape p ≡ some decoded
  not_liveness : files.clean decoded ≢ liveness_path
  not_readiness : files.clean decoded ≢ readiness_path

check_decoded-IsApart :
    (files : Files) (p : Text) (o : Option Text)
    → (has_prefix p (codes "/") ≡ true) × (has_pattern_byte p ≡ false)
    → files.unescape p ≡ o
    → check_decoded files p o ≡ ok tt
    → IsApart files p
unfolding check_decoded
check_decoded-IsApart files p none literal e h = cc
check_decoded-IsApart files p (some decoded) literal e h =
    let (apart, _) =
      fail_if-ok
        (text_eq (files.clean decoded) liveness_path
          || text_eq (files.clean decoded) readiness_path)
        _ _ h in
    record {
      literal = literal;
      decoded = decoded;
      unescaped = e;
      not_liveness = λ same.
          let yes = (text_eq_iff (files.clean decoded) liveness_path).1 same in ground arith;
      not_readiness = λ same.
          let yes = (text_eq_iff (files.clean decoded) readiness_path).1 same in ground arith;
    }

literal_of : (a b : Bool) → not a || b ≡ false → (a ≡ true) × (b ≡ false)
literal_of true false h = (refl, refl)
literal_of true true h = cc
literal_of false b h = cc

validate_path-IsApart : (files : Files) (p : Text) → validate_path files p ≡ ok tt → IsApart files p
unfolding validate_path
validate_path-IsApart files p h =
    let (passed, h1) = fail_if-ok (not (has_prefix p (codes "/")) || has_pattern_byte p) _ _ h in
    let literal = literal_of (has_prefix p (codes "/")) (has_pattern_byte p) passed in
    check_decoded-IsApart files p (files.unescape p) literal refl h1

apart_from :
    (files : Files) (p path decoded : Text)
    → files.unescape p ≡ some decoded
    → files.clean path ≡ path
    → files.clean decoded ≢ path
    → files.unescape p ≢ some path
apart_from files p path decoded e clean ne same =
    let d : decoded ≡ path = cc in ne (ap files.clean d ∙ clean)

probes-IsLiteral : All IsLiteral ((liveness_path, liveness) ∷ (readiness_path, readiness) ∷ [])
unfolding has_prefix contains_byte
probes-IsLiteral = ((refl, refl), ((refl, refl), tt))

new_mux-IsLiteral : (files : Files) (p : Text) → IsApart files p → All IsLiteral (new_mux p)
unfolding new_mux
new_mux-IsLiteral files p apart = (apart.literal, probes-IsLiteral)

new_mux-AreDistinct :
    (files : Files) (p : Text) → PlainLaw files → IsApart files p → AreDistinct files (new_mux p)
unfolding new_mux
new_mux-AreDistinct files p plain apart =
    let live =
      apart_from files p liveness_path apart.decoded apart.unescaped plain.liveness_clean
        apart.not_liveness in
    let ready =
      apart_from files p readiness_path apart.decoded apart.unescaped plain.readiness_clean
        apart.not_readiness in
    let differ : liveness_path ≢ readiness_path = λ same. cc in
    let probes =
      apart_from files liveness_path readiness_path liveness_path plain.liveness_plain
        plain.readiness_clean (λ same. differ (sym plain.liveness_clean ∙ same)) in
    (
      (
        λ same. live (same ∙ plain.liveness_plain),
        (λ same. ready (same ∙ plain.readiness_plain), tt),
      ),
      ((λ same. probes (same ∙ plain.readiness_plain), tt), (tt, tt)),
    )

-- The status of the readiness probe: 503 if the service says that it is not ready, 200 otherwise, also
-- if it cannot say.
abbrev pub ReadyStatus : Option Bool → ℕ → Type 0
ReadyStatus (some false) status = status ≡ 503
ReadyStatus _ status = status ≡ 200

-- The routes of the endpoint.
pub record AreServed (files : Files) (mux : Mux) (p : Text) : Type 0 where
  pub live :
      (exposition : Response) (ready : Option Bool)
      → (h : Handler) × (mux (new_mux p) (codes "/healthz") ≡ some h)
        × ((respond exposition ready h).status ≡ 200)
  pub ready_to :
      (exposition : Response) (ready : Option Bool)
      → (h : Handler) × (mux (new_mux p) (codes "/readyz") ≡ some h)
        × ReadyStatus ready (respond exposition ready h).status

ready_status :
    (exposition : Response) (ready : Option Bool)
    → ReadyStatus ready (respond exposition ready readiness).status
unfolding respond
ready_status exposition none = refl
ready_status exposition (some true) = refl
ready_status exposition (some false) = refl

-- Under any metrics path that validation accepts, a request for /healthz is always answered 200, and one
-- for /readyz is answered 503 if the service says that it is not ready and 200 otherwise, with net/http,
-- net/url and path as documented.
pub validate_path-AreServed :
    (files : Files) (mux : Mux) (p : Text)
    → MuxLaw files mux
    → PlainLaw files
    → validate_path files p ≡ ok tt
    → AreServed files mux p
unfolding new_mux respond
validate_path-AreServed files mux p law plain h =
    let apart = validate_path-IsApart files p h in
    let literal = new_mux-IsLiteral files p apart in
    let distinct = new_mux-AreDistinct files p plain apart in
    record {
      live = λ exposition ready. (
        liveness,
        law (new_mux p) liveness_path liveness literal distinct plain.liveness_clean
            plain.liveness_plain (inr (inl refl)),
        refl,
      );
      ready_to = λ exposition ready. (
        readiness,
        law (new_mux p) readiness_path readiness literal distinct plain.readiness_clean
            plain.readiness_plain (inr (inr (inl refl))),
        ready_status exposition ready,
      );
    }
