-- ===== src/Transport/Handlers/Managed.antt =====
-- hermytt-transport/src/rest.rs: a managed session over its REST handlers.
use hermytt.Prelude.{
  ◌≡◌, ◌<◌, refl, ap, ◌∙◌, true, Option, none, some, length, arith, if◌then◌else◌, Bool-cases, inl,
  inr,
}
use hermytt.Prelude.Text.{Text, eq_text, eq_text_refl}
use hermytt.Prelude.Map
use hermytt.Prelude.Map.{lookup-insert, lookup-remove}
use hermytt.Core.Sessions.Results.{register_session_atomic, unregister_session_exact}
use hermytt.Core.Sessions.{
  SessionManager, Session, Result, ok, err, register_session, unregister_session, get_session,
}
use hermytt.Transport.Guard.{send_stdin}
use hermytt.Transport.Handlers.{
  Status, ok_, not_found, registered, unregistered, write_stdin, register_managed_session,
  unregister_managed_session,
}

register_ok :
    (m : SessionManager) (id fresh : Text)
    → length m.sessions < m.max_sessions
    → Map.lookup id m.sessions ≡ none
    → (s : Session) × ((register_session m (some id) none fresh).1 ≡ ok s)
register_ok m id fresh l n = by_result (register_session m (some id) none fresh).1 refl
  where
    by_result :
        (r : Result Session)
        → (register_session m (some id) none fresh).1 ≡ r
        → (s : Session) × ((register_session m (some id) none fresh).1 ≡ ok s)
    by_result (ok s) e = (s, e)
    by_result (err x) e = elim ((register_session_atomic m (some id) none fresh).1 x e).1 [
      | inl (a, b) ↦ absurd (omega (arith, l, b))
      | inr (a, b) ↦ absurd (ground (arith, b, n))
    ]

registered-ok :
    (p : SessionManager × Result Session) (s : Session)
    → p.1 ≡ ok s
    → registered p ≡ (p.0, ok_, s.id)
registered-ok (m, ok t) s e =
    let same : t ≡ s = cc in ap (λ w. (m, ok_, w)) (ap (λ (w : Session). w.id) same)
registered-ok (m, err x) s e = absurd (ground (arith, e))

unregistered-ok :
    (p : SessionManager × Result (Unit {0})) → p.1 ≡ ok tt → unregistered p ≡ (p.0, ok_)
unregistered-ok (m, ok t) e = refl
unregistered-ok (m, err x) e = absurd (ground (arith, e))

unregister-none :
    (m : SessionManager) (id : Text)
    → Map.lookup id m.sessions ≡ none
    → (unregistered (unregister_session m id)).1 ≡ not_found
unfolding unregister_session
unregister-none m id n = rw n refl

-- A session that a host registers under a free id, while there is room, can be typed to until the
-- host unregisters it; from then on texts for it and a second removal find nothing, and every other
-- session is there as before.
pub register_managed_session-unregister :
    (m : SessionManager) (id fresh input : Text)
    → length m.sessions < m.max_sessions
    → Map.lookup id m.sessions ≡ none
    → let (m1, status, name) = register_managed_session m (some id) fresh in
      let (m2, gone) = unregister_managed_session m1 id in
      (status ≡ ok_)
      × (name ≡ id)
      × (write_stdin m1 id input true ≡ (ok_, some (id, send_stdin input)))
      × (gone ≡ ok_)
      × (write_stdin m2 id input true ≡ (not_found, none))
      × ((unregister_managed_session m2 id).1 ≡ not_found)
      × ((k : Text)
          → Map.lookup k m2.sessions ≡ (if eq_text id k then none else Map.lookup k m.sessions))
unfolding register_managed_session unregister_managed_session write_stdin get_session
register_managed_session-unregister m id fresh input l n =
    let (s, e) = register_ok m id fresh l n in
    let m1 : SessionManager = (register_session m (some id) none fresh).0 in
    let facts = (register_session_atomic m (some id) none fresh).0 s e in
    let named : s.id ≡ id = facts.2 in
    let there = facts.7 in
    let found : Map.lookup id m1.sessions ≡ some s = there id ∙ rw (eq_text_refl id) refl in
    let m2 : SessionManager = (unregister_session m1 id).0 in
    let (gone, sent, left) = (unregister_session_exact m1 id).0 s found in
    let none_left : Map.lookup id m2.sessions ≡ none = left id ∙ rw (eq_text_refl id) refl in
    rw
      (
        registered-ok (register_session m (some id) none fresh) s e,
        unregistered-ok (unregister_session m1 id) gone,
      )
      (
        refl,
        named,
        rw found (ap (λ (w : Text). typed w) named),
        refl,
        rw none_left refl,
        unregister-none m2 id none_left,
        λ k. left k ∙ others k (there k),
      )
  where
    typed : Text → Status × Option (Text × Text)
    typed w = (ok_, some (w, send_stdin input))

    others :
        (k : Text) {o : Option Session}
        → o
          ≡ (if eq_text id k then some (register_ok m id fresh l n).0 else Map.lookup k m.sessions)
        → (if eq_text id k then none else o)
          ≡ (if eq_text id k then none else Map.lookup k m.sessions)
    others k h = elim (Bool-cases (eq_text id k)) [
      | inl q ↦ rw q refl
      | inr q ↦ rw q (h ∙ rw q refl)
    ]
