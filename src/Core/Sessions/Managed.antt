-- ===== src/Core/Sessions/Managed.antt =====
-- A managed session of hermytt-core/src/session.rs over time.
use hermytt.Prelude.{
  ℕ, ◌≡◌, ◌≢◌, refl, Bool, true, false, List, [], ◌∷◌, Option, none, some, if◌then◌else◌, unwrap_or,
  arith, ◌∙◌, All,
}
use hermytt.Prelude.Text.{Text, eq_text, eq_text_iff, eq_text_refl}
use hermytt.Prelude.Map
use hermytt.Prelude.Map.{
  Map, UniqueKeys, lookup-insert, lookup-remove, lookup-update, keep_if, map_option,
}
use hermytt.Core.Sessions.{
  Session, SessionManager, Native, Result, ok, err, new_session, start, admit, is_alive,
  create_session, register_session, managed_session, unregister_session, take_stdin_rx,
  resize_session, resize_found, rename_session, default_session, default_of, cleanup_dead,
  remove_dead, remove_all,
}
use hermytt.Core.Sessions.Invariant.{
  Call, creates, registers, unregisters, takes, resizes, renames, defaults, cleans, removes, step,
  run, Inv, step-Inv,
}
use hermytt.Core.Sessions.Results.{cleanup_dead-lookup}

-- The call does not unregister the session, nor remove it as one that was found dead under its
-- identifier before, nor start another one under it.
abbrev pub Spares : Text → Call → Type 0
Spares id (unregisters j) = j ≢ id
Spares id (creates fresh _) = fresh ≢ id
Spares id (defaults fresh _) = fresh ≢ id
Spares id (removes dead) = All (λ k. k ≢ id) dead
Spares id _ = Unit

-- The session is there, managed, of the same host; if its input was taken before, it still is.
pub record Lives (id : Text) (host : Option Text) (input_there : Bool) (m : SessionManager)
    : Type 0 where
  pub session : Session
  pub found : Map.lookup id m.sessions ≡ some session
  pub managed : session.managed ≡ true
  pub same_host : session.host ≡ host
  pub input : input_there ≡ false → session.stdin_rx ≡ false

module _ (id : Text) (host : Option Text) (input_there : Bool) where
  -- Only what stands under the identifier counts.
  same_lookup :
      (m m' : SessionManager)
      → Map.lookup id m'.sessions ≡ Map.lookup id m.sessions
      → Lives id host input_there m
      → Lives id host input_there m'
  same_lookup m m' e l = record {
    session = l.session;
    found = e ∙ l.found;
    managed = l.managed;
    same_host = l.same_host;
    input = l.input;
  }

  insert_other :
      (m m' : SessionManager) (k : Text) (s : Session)
      → k ≢ id
      → m'.sessions ≡ Map.insert k s m.sessions
      → Map.lookup id m'.sessions ≡ Map.lookup id m.sessions
  insert_other m m' k s ne e = rw (e, lookup-insert) (ground (arith, eq_text_iff k id))

  update-Lives :
      (m : SessionManager) (k : Text) (g : Session → Session)
      → ((s : Session)
          → ((g s).managed ≡ s.managed)
            × ((g s).host ≡ s.host)
            × (s.stdin_rx ≡ false → (g s).stdin_rx ≡ false))
      → Lives id host input_there m
      → Lives id host input_there (record m { sessions = Map.update k g m.sessions })
  update-Lives m k g same l = record {
    session = if eq_text k id then g l.session else l.session;
    found = rw (lookup-update, l.found) (ground arith);
    managed = ground (arith, same l.session, l.managed);
    same_host = ground (arith, same l.session, l.same_host);
    input = λ h. ground (arith, (same l.session).2, l.input h);
  }

  started-id : (s : Session) (native : Native) → (start s native).0.id ≡ s.id
  unfolding start
  started-id s native = ground arith

  admit-same :
      (m : SessionManager) (p : Session × Result (Unit {0}))
      → p.0.id ≢ id
      → Map.lookup id (admit m p).0.sessions ≡ Map.lookup id m.sessions
  unfolding admit
  admit-same m (s, err e) ne = refl
  admit-same m (s, ok _) ne = rw lookup-insert (ground (arith, eq_text_iff s.id id))

  create_session-same :
      (m : SessionManager) (fresh : Text) (native : Native)
      → fresh ≢ id
      → Map.lookup id (create_session m fresh native).0.sessions ≡ Map.lookup id m.sessions
  unfolding create_session
  create_session-same m fresh native ne =
      let s = new_session fresh m.shell m.scrollback_capacity in
      ground (arith, admit-same m (start s native), started-id s native)

  default_of-same :
      (ss : Map Session) (m : SessionManager) (fresh : Text) (native : Native)
      → fresh ≢ id
      → Map.lookup id (default_of ss m fresh native).0.sessions ≡ Map.lookup id m.sessions
  unfolding default_of
  default_of-same [] m fresh native ne = create_session-same m fresh native ne
  default_of-same ((k, s) ∷ ss) m fresh native ne = refl

  -- A taken identifier cannot be registered again.
  register_session-same :
      (m : SessionManager) (k h : Option Text) (fresh : Text)
      → Lives id host input_there m
      → Map.lookup id (register_session m k h fresh).0.sessions ≡ Map.lookup id m.sessions
  unfolding register_session
  register_session-same m k h fresh l = ground (
    arith,
    l.found,
    eq_text_iff (unwrap_or k fresh) id,
    lookup-insert (unwrap_or k fresh) id
        (managed_session (unwrap_or k fresh) h m.scrollback_capacity) m.sessions,
  )

  unregister_session-same :
      (m : SessionManager) (k : Text)
      → k ≢ id
      → Map.lookup id (unregister_session m k).0.sessions ≡ Map.lookup id m.sessions
  unfolding unregister_session
  unregister_session-same m k ne = ground (arith, eq_text_iff k id, lookup-remove k id m.sessions)

  resize_found-Lives :
      (m : SessionManager) (k : Text) (r : Option (Session × Result (Unit {0})))
      → Lives id host input_there m
      → Lives id host input_there (resize_found m k r).0
  unfolding resize_found
  resize_found-Lives m k none l = l
  resize_found-Lives m k (some (s, r)) l = update-Lives m k _ (λ t. (refl, refl, λ h. h)) l

  cleanup_dead-Lives :
      (m : SessionManager) (exited : ℕ → Bool)
      → UniqueKeys m.sessions
      → Lives id host input_there m
      → Lives id host input_there (cleanup_dead m exited).0
  cleanup_dead-Lives m exited u l =
      same_lookup m (cleanup_dead m exited).0
        ((cleanup_dead-lookup m exited id u).0 ∙ rw l.found (kept l.session l.managed)) l
    where
      kept : (s : Session) → s.managed ≡ true → keep_if (is_alive exited) (some s) ≡ some s
      kept s h = unfold is_alive in ground arith

  remove_all-same :
      (dead : List Text) (m : Map Session)
      → All (λ k. k ≢ id) dead
      → Map.lookup id (remove_all dead m) ≡ Map.lookup id m
  unfolding remove_all
  remove_all-same [] m a = refl
  remove_all-same (k ∷ dead) m a =
      remove_all-same dead (Map.remove k m) a.1
      ∙ ground (arith, a.0, eq_text_iff k id, lookup-remove k id m)

  step-Lives :
      (m : SessionManager) (c : Call)
      → Spares id c
      → UniqueKeys m.sessions
      → Lives id host input_there m
      → Lives id host input_there (step m c)
  unfolding step take_stdin_rx resize_session rename_session default_session remove_dead
  step-Lives m (creates fresh native) ne u l =
      same_lookup m _ (create_session-same m fresh native ne) l
  step-Lives m (registers k h fresh) ne u l =
      same_lookup m _ (register_session-same m k h fresh l) l
  step-Lives m (unregisters k) ne u l = same_lookup m _ (unregister_session-same m k ne) l
  step-Lives m (takes k) ne u l = update-Lives m k _ (λ t. (refl, refl, λ h. refl)) l
  step-Lives m (resizes k cols rows accepted) ne u l = resize_found-Lives m k _ l
  step-Lives m (renames k name) ne u l = update-Lives m k _ (λ t. (refl, refl, λ h. h)) l
  step-Lives m (defaults fresh native) ne u l =
      same_lookup m _ (default_of-same m.sessions m fresh native ne) l
  step-Lives m (cleans exited) ne u l = cleanup_dead-Lives m exited u l
  step-Lives m (removes dead) ne u l = same_lookup m _ (remove_all-same dead m.sessions ne) l

  run-Lives :
      (m : SessionManager) (cs : List Call)
      → Inv m
      → All (Spares id) cs
      → Lives id host input_there m
      → Lives id host input_there (run m cs)
  unfolding run
  run-Lives m [] v a l = l
  run-Lives m (c ∷ cs) v a l =
      run-Lives (step m c) cs (step-Inv m c v) a.1 (step-Lives m c a.0 v.unique l)

-- A managed session stays registered, managed and with its host through any calls that neither
-- unregister it nor start another session under its identifier, whatever the system answers and
-- whatever is cleaned up.
pub run-managed :
    (m : SessionManager) (cs : List Call) (id : Text) (s : Session)
    → Inv m
    → Map.lookup id m.sessions ≡ some s
    → s.managed ≡ true
    → All (Spares id) cs
    → (t : Session) × (Map.lookup id (run m cs).sessions ≡ some t)
      × (t.managed ≡ true)
      × (t.host ≡ s.host)
run-managed m cs id s v found managed a =
    let l = run-Lives id s.host s.stdin_rx m cs v a (record {
      session = s;
      found = found;
      managed = managed;
      same_host = refl;
      input = λ h. h;
    }) in
    (l.session, l.found, l.managed, l.same_host)

-- The input of a managed session is handed out at most once: after a take, through any such calls,
-- another take gets nothing.
pub take_stdin_rx_once :
    (m : SessionManager) (cs : List Call) (id : Text) (s : Session)
    → Inv m
    → Map.lookup id m.sessions ≡ some s
    → s.managed ≡ true
    → All (Spares id) cs
    → (take_stdin_rx (run (take_stdin_rx m id).0 cs) id).1 ≡ false
unfolding take_stdin_rx
take_stdin_rx_once m cs id s v found managed a =
    let taken = (take_stdin_rx m id).0 in
    let l = run-Lives id s.host false taken cs (unfold step in step-Inv m (takes id) v) a (record {
      session = record s { stdin_rx = false };
      found = rw (lookup-update, found) (ground (arith, eq_text_refl id));
      managed = managed;
      same_host = refl;
      input = λ h. refl;
    }) in
    rw l.found (l.input refl)
