-- ===== src/Transport/Mqtt/Attach/Once.antt =====
-- hermytt-transport/src/mqtt_pty.rs: how often a session gets a forwarder.
use hermytt.Prelude.{
  ℕ, ◌≡◌, refl, ap, ◌∙◌, subst, Bool, true, false, List, [], ◌∷◌, ◌++◌, Option, none, some, keep,
  All, arith, Bool-cases, inl, inr, append-nil, keep-append,
}
use hermytt.Prelude.Text.{Text, eq_text, eq_text_iff, eq_text_refl}
use hermytt.Transport.Mqtt.Attach.{
  Attached, Poll, member, attach_one, visit, attach_new, poll, polls,
}

-- The forwarders of one session.
abbrev pub of_id : Text → List (Text × ℕ) → List (Text × ℕ)
of_id id = keep (λ f. eq_text f.0 id)

member-keep :
    (id : Text) (p : Text → Bool) (xs : List Text)
    → p id ≡ true
    → member id xs ≡ true
    → member id (keep p xs) ≡ true
member-keep id p [] h m = m
member-keep id p (x ∷ xs) h m = elim (Bool-cases (eq_text x id)) [
  | inl q ↦ let px : p x ≡ true = ap p ((eq_text_iff x id).0 q) ∙ h in rw (px, q) refl
  | inr q ↦
      let rest : member id xs ≡ true = ground (arith, m, q) in
      let ih = member-keep id p xs h rest in
      elim (Bool-cases (p x)) [ inl r ↦ rw (r, q) ih | inr r ↦ rw r ih ]
]

distinct :
    (id j : Text) (xs : List Text)
    → member id xs ≡ true
    → member j xs ≡ false
    → eq_text j id ≡ false
distinct id j xs m n = elim (Bool-cases (eq_text j id)) [
  | inl q ↦
      let there : member j xs ≡ true = ap (λ k. member k xs) ((eq_text_iff j id).0 q) ∙ m in
      absurd (ground (arith, there, n))
  | inr q ↦ q
]

of_id-other :
    (id j : Text) (c : ℕ) (fs : List (Text × ℕ))
    → eq_text j id ≡ false
    → of_id id (fs ++ (j, c) ∷ []) ≡ of_id id fs
of_id-other id j c fs n =
    keep-append (λ f. eq_text f.0 id) fs ((j, c) ∷ []) ∙ rw n (append-nil (of_id id fs))

of_id-own :
    (id : Text) (c : ℕ) (fs : List (Text × ℕ))
    → of_id id (fs ++ (id, c) ∷ []) ≡ of_id id fs ++ (id, c) ∷ []
of_id-own id c fs = keep-append (λ f. eq_text f.0 id) fs ((id, c) ∷ []) ∙ rw (eq_text_refl id) refl

-- What is the case for a session that counts as attached, over its forwarders before.
abbrev Settled : Text → List (Text × ℕ) → Attached → Type 0
Settled id fs t = (member id t.attached ≡ true) × (of_id id t.forwarders ≡ fs)

attach_one-Settled :
    (id j : Text) (o : Option ℕ) (fs : List (Text × ℕ)) (s : Attached)
    → eq_text j id ≡ false
    → Settled id fs s
    → Settled id fs (attach_one o j s)
unfolding attach_one
attach_one-Settled id j none fs s n h = h
attach_one-Settled id j (some c) fs s n h = (rw n h.0, of_id-other id j c s.forwarders n ∙ h.1)

visit-Settled :
    (get : Text → Option ℕ) (id j : Text) (fs : List (Text × ℕ)) (s : Attached)
    → Settled id fs s
    → Settled id fs (visit get j s)
unfolding visit
visit-Settled get id j fs s h = elim (Bool-cases (member j s.attached)) [
  | inl q ↦ rw q h
  | inr q ↦ rw q (attach_one-Settled id j (get j) fs s (distinct id j s.attached h.0 q) h)
]

attach_new-Settled :
    (get : Text → Option ℕ) (id : Text) (ids : List Text) (fs : List (Text × ℕ)) (s : Attached)
    → Settled id fs s
    → Settled id fs (attach_new get ids s)
unfolding attach_new
attach_new-Settled get id [] fs s h = h
attach_new-Settled get id (j ∷ ids) fs s h =
    attach_new-Settled get id ids fs (visit get j s) (visit-Settled get id j fs s h)

-- The round comes to the session itself, or to another one.
visit-own :
    (get : Text → Option ℕ) (id : Text) (c : ℕ) (s : Attached)
    → get id ≡ some c
    → member id s.attached ≡ false
    → Settled id (of_id id s.forwarders ++ (id, c) ∷ []) (visit get id s)
unfolding visit attach_one
visit-own get id c s g n = rw (n, g) (rw (eq_text_refl id) refl, of_id-own id c s.forwarders)

visit-other :
    (get : Text → Option ℕ) (id j : Text) (s : Attached)
    → eq_text j id ≡ false
    → member id s.attached ≡ false
    → (member id (visit get j s).attached ≡ false)
      × (of_id id (visit get j s).forwarders ≡ of_id id s.forwarders)
unfolding visit attach_one
visit-other get id j s q n = elim (Bool-cases (member j s.attached)) [
  | inl r ↦ rw r (n, refl)
  | inr r ↦ rw r (by_session (get j))
]
  where
    by_session :
        (o : Option ℕ)
        → (member id (attach_one o j s).attached ≡ false)
          × (of_id id (attach_one o j s).forwarders ≡ of_id id s.forwarders)
    by_session none = (n, refl)
    by_session (some d) = (rw q n, of_id-other id j d s.forwarders q)

-- A session that does not count as attached, is listed, and can be found.
attach_new-first :
    (get : Text → Option ℕ) (id : Text) (c : ℕ) (ids : List Text) (s : Attached)
    → member id ids ≡ true
    → get id ≡ some c
    → member id s.attached ≡ false
    → Settled id (of_id id s.forwarders ++ (id, c) ∷ []) (attach_new get ids s)
unfolding attach_new
attach_new-first get id c [] s m g n = absurd (ground (arith, m))
attach_new-first get id c (j ∷ ids) s m g n = elim (Bool-cases (eq_text j id)) [
  | inl q ↦
      let same : j ≡ id = (eq_text_iff j id).0 q in
      attach_new-Settled get id ids (of_id id s.forwarders ++ (id, c) ∷ []) (visit get j s)
        (rw same (visit-own get id c s g n))
  | inr q ↦
      let (n', f) = visit-other get id j s q n in
      subst (λ w. Settled id (w ++ (id, c) ∷ []) (attach_new get ids (visit get j s))) f
        (attach_new-first get id c ids (visit get j s) (ground (arith, m, q)) g n')
]

poll-Settled :
    (id : Text) (fs : List (Text × ℕ)) (s : Attached) (p : Poll)
    → member id p.current_ids ≡ true
    → Settled id fs (attach_new p.get_session p.current_ids s)
    → Settled id fs (poll s p)
unfolding poll
poll-Settled id fs s p m h = (
  member-keep id (λ j. member j p.current_ids) (attach_new p.get_session p.current_ids s).attached m
      h.0,
  h.1,
)

polls-Settled :
    (id : Text) (fs : List (Text × ℕ)) (ps : List Poll) (s : Attached)
    → All (λ p. member id p.current_ids ≡ true) ps
    → Settled id fs s
    → Settled id fs (polls s ps)
unfolding polls
polls-Settled id fs [] s a h = h
polls-Settled id fs (p ∷ ps) s a h =
    polls-Settled id fs ps (poll s p) a.1
      (poll-Settled id fs s p a.0 (attach_new-Settled p.get_session id p.current_ids fs s h))

-- The first round that lists a session and finds it, when it does not count as attached, spawns one
-- forwarder for it, on the channel found; and no round after that spawns another, as long as every
-- round lists the id, even if the id belongs to a new session with another channel by then.
pub polls-attach :
    (id : Text) (channel : ℕ) (s : Attached) (first : Poll) (later : List Poll)
    → member id s.attached ≡ false
    → member id first.current_ids ≡ true
    → first.get_session id ≡ some channel
    → All (λ p. member id p.current_ids ≡ true) later
    → of_id id (polls s (first ∷ later)).forwarders ≡ of_id id s.forwarders ++ (id, channel) ∷ []
unfolding polls
polls-attach id channel s first later n m g a =
    (polls-Settled id (of_id id s.forwarders ++ (id, channel) ∷ []) later (poll s first) a (
      poll-Settled id _ s first m
        (attach_new-first first.get_session id channel first.current_ids s m g n))).1
