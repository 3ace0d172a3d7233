-- ===== src/Service/Connection/Failures.antt =====
-- Which failure of the connection the service ends with.
use nats_oidc_callout.Prelude.{
  ◌≡◌, refl, sym, ap, ◌∙◌, true, false, none, some, List, [], ◌∷◌, ◌++◌, ◌↔◌, Option-cases,
  Bool-cases, inl, inr, All, All-map, arith,
}
use nats_oidc_callout.Prelude.Texts.{Text, codes}
use nats_oidc_callout.Strings.{has_prefix}
use nats_oidc_callout.Service.Connection.{
  Event, disconnected, reconnected, closed, async_error, Failure, closed_permanently,
  subscription_revoked, auth_sub_violation, contains, sent_by, send, channel_after,
}

-- The text is in the other one.
abbrev pub IsWithin : Text → Text → Type 0
IsWithin sub s = (front : Text) × (back : Text) × (s ≡ front ++ (sub ++ back))

-- The failure that a call reports: the connection's permanent end, or a permission violation, with the
-- text of the error, whose text names the subscription to the subject in quotes.
abbrev pub IsFatal : Text → Event → Failure → Type 0
IsFatal subject closed f = f ≡ closed_permanently
IsFatal subject (async_error true text) f =
    (f ≡ subscription_revoked text)
    × IsWithin (codes "Subscription to \"" ++ (subject ++ codes "\"")) text
IsFatal subject _ f = ⊥

-- The failure is the first one among the calls: no call in front of its own reports any.
pub record IsFirst (subject : Text) (events : List Event) (f : Failure) : Type 0 where
  pub before : List Event
  pub event : Event
  pub after : List Event
  pub order : events ≡ before ++ (event ∷ after)
  pub harmless : All (λ e. (g : Failure) → ¬ IsFatal subject e g) before
  pub fatal : IsFatal subject event f

prefix_of : (s p : Text) → has_prefix s p ≡ true → (back : Text) × (s ≡ p ++ back)
unfolding has_prefix
prefix_of s [] h = (s, refl)
prefix_of [] (d ∷ p) h = cc
prefix_of (c ∷ s) (d ∷ p) h =
    let later : has_prefix s p ≡ true = ground arith in
    let (back, e) = prefix_of s p later in (back, ground (arith, e))

prefix_append : (p back : Text) → has_prefix (p ++ back) p ≡ true
unfolding has_prefix
prefix_append [] back = refl
prefix_append (d ∷ p) back = ground (arith, prefix_append p back)

contains-IsWithin : (s sub : Text) → contains s sub ≡ true → IsWithin sub s
unfolding contains
contains-IsWithin [] sub h = let (back, e) = prefix_of [] sub h in ([], back, e)
contains-IsWithin (c ∷ s) sub h = elim (Bool-cases (has_prefix (c ∷ s) sub)) [
  | inl y ↦ let (back, e) = prefix_of (c ∷ s) sub y in ([], back, e)
  | inr y ↦
      let later : contains s sub ≡ true = ground arith in
      let (front, back, e) = contains-IsWithin s sub later in (c ∷ front, back, ap (λ t. c ∷ t) e)
]

contains_of_prefix : (s sub : Text) → has_prefix s sub ≡ true → contains s sub ≡ true
unfolding contains
contains_of_prefix [] sub h = h
contains_of_prefix (c ∷ s) sub h = ground arith

contains_append : (front sub back : Text) → contains (front ++ (sub ++ back)) sub ≡ true
unfolding contains
contains_append [] sub back = contains_of_prefix (sub ++ back) sub (prefix_append sub back)
contains_append (c ∷ front) sub back = ground (arith, contains_append front sub back)

sent_by_iff :
    (subject : Text) (e : Event) (f : Failure) → (sent_by subject e ≡ some f) ↔ IsFatal subject e f
unfolding sent_by
sent_by_iff subject disconnected f = (λ h. cc, λ h. absurd h)
sent_by_iff subject reconnected f = (λ h. cc, λ h. absurd h)
sent_by_iff subject closed f = (λ h. ground arith, λ h. rw h refl)
sent_by_iff subject (async_error false text) f = (λ h. cc, λ h. absurd h)
sent_by_iff subject (async_error true text) f =
    elim (Bool-cases (contains text (auth_sub_violation subject))) [
      | inl y ↦ (
        λ h. (ground arith, contains-IsWithin text (auth_sub_violation subject) y),
        λ h. rw (y, h.0) refl,
      )
      | inr y ↦ (
        λ h. absurd (ground arith),
        λ h.
            let (front, back, e) = h.1 in
            absurd (ground (arith, contains_append front (auth_sub_violation subject) back)),
      )
    ]

quiet :
    (subject : Text) (e : Event) → sent_by subject e ≡ none → (g : Failure) → ¬ IsFatal subject e g
quiet subject e none_sent g fatal = let sent = (sent_by_iff subject e g).1 fatal in cc

harmless_quiet :
    (subject : Text) (e : Event)
    → ((g : Failure) → ¬ IsFatal subject e g)
    → sent_by subject e ≡ none
harmless_quiet subject e harmless = elim (Option-cases (sent_by subject e)) [
  | inl h ↦ h
  | inr (g, sent) ↦ absurd (harmless g ((sent_by_iff subject e g).0 sent))
]

kept :
    (subject : Text) (f : Failure) (events : List Event)
    → channel_after subject (some f) events ≡ some f
unfolding channel_after send
kept subject f [] = refl
kept subject f (e ∷ events) = kept subject f events

channel_sound :
    (subject : Text) (events : List Event) (f : Failure)
    → channel_after subject none events ≡ some f
    → IsFirst subject events f
unfolding channel_after send
channel_sound subject [] f h = cc
channel_sound subject (e ∷ events) f h = elim (Option-cases (sent_by subject e)) [
  | inl silent ↦
      let i = channel_sound subject events f (rw silent at h) in
      record {
        before = e ∷ i.before;
        event = i.event;
        after = i.after;
        order = ap (λ q. e ∷ q) i.order;
        harmless = (quiet subject e silent, i.harmless);
        fatal = i.fatal;
      }
  | inr (g, sent) ↦ record {
    before = [];
    event = e;
    after = events;
    order = refl;
    harmless = tt;
    fatal = (sent_by_iff subject e f).0 (sent ∙ (sym (kept subject g events) ∙ (rw sent at h)));
  }
]

channel_after-cons :
    (subject : Text) (e : Event) (events : List Event)
    → channel_after subject none (e ∷ events) ≡ channel_after subject (sent_by subject e) events
unfolding channel_after send
channel_after-cons subject e events = refl

channel_complete :
    (subject : Text) (before : List Event) (event : Event) (after : List Event) (f : Failure)
    → All (λ e. sent_by subject e ≡ none) before
    → sent_by subject event ≡ some f
    → channel_after subject none (before ++ (event ∷ after)) ≡ some f
channel_complete subject [] event after f harmless fatal =
    channel_after-cons subject event after
    ∙ (ap (λ c. channel_after subject c after) fatal ∙ kept subject f after)
channel_complete subject (e ∷ before) event after f (silent, harmless) fatal =
    channel_after-cons subject e (before ++ (event ∷ after))
    ∙ (ap (λ c. channel_after subject c (before ++ (event ∷ after))) silent
        ∙ channel_complete subject before event after f harmless fatal)

-- The service learns of exactly the first failure of its connection: the permanent end of it, or a
-- permission violation whose text names the subscription to the auth callout subject. The lasting state
-- of the channel is that failure; disconnects, reconnects and other errors put nothing there.
pub channel_after_iff :
    (subject : Text) (events : List Event) (f : Failure)
    → (channel_after subject none events ≡ some f) ↔ IsFirst subject events f
channel_after_iff subject events f = (
  channel_sound subject events f,
  λ i.
      let harmless =
        All-map _ (λ e. sent_by subject e ≡ none) (harmless_quiet subject) i.before i.harmless in
      rw i.order (
        channel_complete subject i.before i.event i.after f harmless
          ((sent_by_iff subject i.event f).1 i.fatal)),
)
