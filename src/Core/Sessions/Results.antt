-- ===== src/Core/Sessions/Results.antt =====
-- Single calls of `SessionManager`, hermytt-core/src/session.rs, on success and on failure.
use hermytt.Prelude.{
  ℕ, ◌≤◌, ◌<◌, ◌≡◌, ◌≢◌, refl, Bool, true, false, List, [], ◌∷◌, ◌++◌, Option, none, some, length,
  is_some, if◌then◌else◌, unwrap_or, arith, Bool-cases, Option-cases, ◌⊎◌, inl, inr, ◌∙◌, ap, any,
}
use hermytt.Prelude.Text.{Text, eq_text, eq_text_iff, eq_text_refl}
use hermytt.Prelude.Map
use hermytt.Prelude.Map.{
  Map, UniqueKeys, lookup-insert, lookup-remove, lookup-update, keep_if, lookup-retain,
}
use hermytt.Core.Sessions.{
  Session, SessionManager, Error, ok, err, pty_exit_sentinel, PtySize, is_alive, already_exists,
  register_session, managed_session, unregister_session, resize_session, cleanup_dead, dead_ids,
  remove_dead, remove_all, resize, max_sessions_reached,
}

-- A registration that succeeds found room and a free identifier, files a managed session under it
-- (the identifier asked for, or the fresh one) whose input can be taken, and changes no other
-- session. One that fails changes nothing: there was no room, or the identifier was taken.
pub register_session_atomic :
    (m : SessionManager) (id host : Option Text) (fresh : Text)
    → let k = unwrap_or id fresh in
      let (m', r) = register_session m id host fresh in
      ((s : Session)
        → r ≡ ok s
        → (length m.sessions < m.max_sessions)
          × (Map.lookup k m.sessions ≡ none)
          × (s.id ≡ k)
          × (s.host ≡ host)
          × (s.managed ≡ true)
          × (s.stdin_rx ≡ true)
          × (m'.sent ≡ m.sent)
          × ((j : Text)
              → Map.lookup j m'.sessions
                ≡ (if eq_text k j then some s else Map.lookup j m.sessions)))
      × ((e : Error)
          → r ≡ err e
          → (m' ≡ m)
            × (((e ≡ max_sessions_reached) × (m.max_sessions ≤ length m.sessions))
                ⊎ ((e ≡ already_exists) × (is_some (Map.lookup k m.sessions) ≡ true))))
unfolding register_session
register_session_atomic m id host fresh =
    let k = unwrap_or id fresh in
    (
      λ s h. (
        ground arith,
        ground arith,
        ground arith,
        ground arith,
        ground arith,
        ground arith,
        ground arith,
        λ j.
            ground
              (arith, lookup-insert k j (managed_session k host m.scrollback_capacity) m.sessions),
      ),
      λ e h. (ground arith, ground arith),
    )

-- Unregistering succeeds exactly for a registered identifier. It then removes that session and no
-- other, and broadcasts one exit sentinel on that session's channel; otherwise nothing changes.
pub unregister_session_exact :
    (m : SessionManager) (id : Text)
    → let (m', r) = unregister_session m id in
      ((s : Session)
        → Map.lookup id m.sessions ≡ some s
        → (r ≡ ok tt)
          × (m'.sent ≡ m.sent ++ (id, pty_exit_sentinel) ∷ [])
          × ((j : Text)
              → Map.lookup j m'.sessions
                ≡ (if eq_text id j then none else Map.lookup j m.sessions)))
      × (Map.lookup id m.sessions ≡ none → (r ≢ ok tt) × (m' ≡ m))
unfolding unregister_session
unregister_session_exact m id =
    (λ s h. (rw h, rw h, λ j. rw h (lookup-remove id j m.sessions)), λ h. (rw h (λ e. cc), rw h))

remove_absent : (k : Text) (m : Map Session) → Map.lookup k m ≡ none → Map.remove k m ≡ m
unfolding Map.lookup Map.remove
remove_absent k [] h = refl
remove_absent k ((j, s) ∷ m) h = ground (arith, remove_absent k m)

remove_all-cons :
    (ks : List Text) (k : Text) (s : Session) (m : Map Session)
    → any (λ j. eq_text k j) ks ≡ false
    → remove_all ks ((k, s) ∷ m) ≡ (k, s) ∷ remove_all ks m
unfolding remove_all Map.remove
remove_all-cons [] k s m h = refl
remove_all-cons (j ∷ ks) k s m h = ground (arith, remove_all-cons ks k s (Map.remove j m))

dead_ids_present :
    (exited : ℕ → Bool) (k : Text) (m : Map Session)
    → Map.lookup k m ≡ none
    → any (λ j. eq_text k j) (dead_ids exited m) ≡ false
unfolding dead_ids Map.lookup
dead_ids_present exited k [] h = refl
dead_ids_present exited k ((j, s) ∷ m) h =
    ground (arith, dead_ids_present exited k m, eq_text_iff k j, eq_text_iff j k)

remove_head :
    (k : Text) (s : Session) (m : Map Session)
    → Map.lookup k m ≡ none
    → Map.remove k ((k, s) ∷ m) ≡ m
unfolding Map.remove
remove_head k s m h = ground (arith, eq_text_refl k, remove_absent k m h)

remove_all-head :
    (ks : List Text) (k : Text) (s : Session) (m : Map Session)
    → Map.lookup k m ≡ none
    → remove_all (k ∷ ks) ((k, s) ∷ m) ≡ remove_all ks m
unfolding remove_all
remove_all-head ks k s m h = rw (remove_head k s m h)

pub remove_all-dead_ids :
    (exited : ℕ → Bool) (m : Map Session)
    → UniqueKeys m
    → remove_all (dead_ids exited m) m ≡ Map.retain (is_alive exited) m
unfolding Map.retain dead_ids
remove_all-dead_ids exited [] u = unfold remove_all in refl
remove_all-dead_ids exited ((k, s) ∷ m) u = elim (Bool-cases (is_alive exited s)) [
  | inl t ↦
      rw (t, remove_all-cons (dead_ids exited m) k s m (dead_ids_present exited k m u.0))
        (ap (◌∷◌ (k, s)) (remove_all-dead_ids exited m u.1))
  | inr t ↦ rw t (remove_all-head (dead_ids exited m) k s m u.0 ∙ remove_all-dead_ids exited m u.1)
]

dead_ids-retain :
    (exited : ℕ → Bool) (m : Map Session) → dead_ids exited (Map.retain (is_alive exited) m) ≡ []
unfolding Map.retain dead_ids
dead_ids-retain exited [] = refl
dead_ids-retain exited ((k, s) ∷ m) = ground (arith, dead_ids-retain exited m)

-- With unique identifiers, `cleanup_dead` keeps exactly the sessions that are alive, each as it
-- was: those that are managed and those whose process has not exited. The rest of the manager is
-- as before, and a second cleanup that gets the same answers from the system removes nothing.
pub cleanup_dead-lookup :
    (m : SessionManager) (exited : ℕ → Bool) (k : Text)
    → UniqueKeys m.sessions
    → let (m', n) = cleanup_dead m exited in
      (Map.lookup k m'.sessions ≡ keep_if (is_alive exited) (Map.lookup k m.sessions))
      × (m'.sent ≡ m.sent)
      × ((cleanup_dead m' exited).1 ≡ 0)
unfolding cleanup_dead remove_dead
cleanup_dead-lookup m exited k u = (
  ap (Map.lookup k) (remove_all-dead_ids exited m.sessions u)
      ∙ lookup-retain (is_alive exited) k m.sessions u,
  refl,
  rw (remove_all-dead_ids exited m.sessions u) (none_dead m.sessions),
)
  where
    none_dead : (ss : Map Session) → length (dead_ids exited (Map.retain (is_alive exited) ss)) ≡ 0
    none_dead ss = ap length (dead_ids-retain exited ss)

-- A resize of a registered session with a PTY that the system accepts sets the size of that PTY,
-- and changes no other session and nothing else in that one.
pub resize_session_accepted :
    (m : SessionManager) (id : Text) (cols rows : ℕ) (s : Session) (old : PtySize)
    → Map.lookup id m.sessions ≡ some s
    → s.master ≡ some old
    → let size : PtySize = record { rows = rows; cols = cols } in
      let (m', r) = resize_session m id cols rows true in
      (r ≡ ok tt)
      × ((j : Text)
          → Map.lookup j m'.sessions ≡ (
              if eq_text id j
              then some (record s { master = some size })
              else Map.lookup j m.sessions))
unfolding resize_session
resize_session_accepted m id cols rows s old h e =
    rw (h, resize_session, e) (refl, λ j. rw lookup-update (ground (arith, eq_text_iff id j)))

resize_keeps :
    (m : Map Session) (id j : Text) (p : Option PtySize)
    → ((s : Session) → Map.lookup id m ≡ some s → s.master ≡ p)
    → Map.lookup j (Map.update id (λ old. record old { master = p }) m) ≡ Map.lookup j m
resize_keeps m id j p same = rw lookup-update (elim (Option-cases (Map.lookup j m)) [
  | inl e ↦ rw e (ground arith)
  | inr (s, e) ↦ rw e (ground (arith, eq_text_iff id j, same s))
])

resize_refused :
    (s : Session) (cols rows : ℕ) (accepted : Bool)
    → (resize s cols rows accepted).1 ≢ ok tt
    → (resize s cols rows accepted).0.master ≡ s.master
unfolding resize
resize_refused s cols rows accepted h = ground arith

-- A resize that fails, for want of the session or of its PTY or because the system refuses, leaves
-- every session as it was.
pub resize_session_failed :
    (m : SessionManager) (id j : Text) (cols rows : ℕ) (accepted : Bool)
    → let (m', r) = resize_session m id cols rows accepted in
      r ≢ ok tt → Map.lookup j m'.sessions ≡ Map.lookup j m.sessions
unfolding resize_session
resize_session_failed m id j cols rows accepted = elim (Option-cases (Map.lookup id m.sessions)) [
  | inl e ↦ rw (e, resize_session) (λ h. refl)
  | inr (s, e) ↦
      rw (e, resize_session)
        (λ h.
          resize_keeps m.sessions id j _
            (λ t q. ground (arith, resize_refused s cols rows accepted h)))
]
