-- ===== src/Transport/ControlWs/Recovery.antt =====
-- hermytt-transport/src/control_ws.rs: the answers that register sessions, SpawnOk and ShellsList.
use hermytt.Prelude.{
  ◌+◌, ◌≤◌, ◌<◌, ◌≡◌, refl, ◌∙◌, Bool, true, false, List, [], ◌∷◌, Option, none, some, is_some,
  is_none, if◌then◌else◌, arith, Option-cases, inl, inr, length, All,
}
use hermytt.Prelude.Text.{Text, eq_text_refl}
use hermytt.Prelude.Map
use hermytt.Prelude.Map.{
  Map, lookup-insert, lookup-update, length-insert, length-update, map_option,
}
use hermytt.Core.Sessions.{
  Session, SessionManager, register_session, managed_session, take_stdin_rx, get_session,
}
use hermytt.Core.ControlHub.{ShellInfo, spawned, spawn_ok, handle_spawn_ok, shells_list}
use hermytt.Transport.ControlWs.{Plane, Env, adopt, recover, handle_message}
use hermytt.Transport.ControlWs.Sessions.{adopt-sessions, adopt-hub}

-- A session of this identifier is registered.
abbrev pub present : Text → Plane → Bool
present id p = is_some (Map.lookup id p.sessions.sessions)

is_some-map : (f : Session → Session) (o : Option Session) → is_some (map_option f o) ≡ is_some o
is_some-map f none = refl
is_some-map f (some s) = refl

taken-present :
    (m : SessionManager) (id j : Text)
    → is_some (Map.lookup j (take_stdin_rx m id).0.sessions) ≡ is_some (Map.lookup j m.sessions)
unfolding take_stdin_rx
taken-present m id j =
    rw lookup-update
      (ground (arith, is_some-map (λ s. record s { stdin_rx = false }) (Map.lookup j m.sessions)))

registered-present :
    (m : SessionManager) (id : Text) (host : Option Text) (fresh j : Text)
    → let m' = (register_session m (some id) host fresh).0 in
      (is_some (Map.lookup j m.sessions) ≡ true → is_some (Map.lookup j m'.sessions) ≡ true)
      × (length m.sessions < m.max_sessions → is_some (Map.lookup id m'.sessions) ≡ true)
      × (length m'.sessions ≤ length m.sessions + 1)
      × (m'.max_sessions ≡ m.max_sessions)
unfolding register_session
registered-present m id host fresh j =
    let s = managed_session id host m.scrollback_capacity in
    (
      λ h. ground (arith, h, lookup-insert id j s m.sessions),
      λ h. ground (arith, h, eq_text_refl id, lookup-insert id id s m.sessions),
      ground (arith, length-insert id s m.sessions),
      ground arith,
    )

adopt-present :
    (env : Env) (name id : Text) (p : Plane) (j : Text)
    → (present j p ≡ true → present j (adopt env name id p) ≡ true)
      × (length p.sessions.sessions < p.sessions.max_sessions
          → present id (adopt env name id p) ≡ true)
      × (length (adopt env name id p).sessions.sessions ≤ length p.sessions.sessions + 1)
      × ((adopt env name id p).sessions.max_sessions ≡ p.sessions.max_sessions)
adopt-present env name id p j =
    let m = (register_session p.sessions (some id) (some name) env.fresh).0 in
    let (keeps, gets, grows, same) = registered-present p.sessions id (some name) env.fresh j in
    rw (adopt-sessions env name id p) (
      λ h. taken-present m id j ∙ keeps h,
      λ h. taken-present m id id ∙ gets h,
      rw (length-taken m id) grows,
      max-taken m id ∙ same,
    )
  where
    length-taken :
        (m : SessionManager) (id : Text)
        → length (take_stdin_rx m id).0.sessions ≡ length m.sessions
    length-taken m id = unfold take_stdin_rx in length-update id _ m.sessions

    max-taken :
        (m : SessionManager) (id : Text) → (take_stdin_rx m id).0.max_sessions ≡ m.max_sessions
    max-taken m id = unfold take_stdin_rx in refl

-- One round of the loop of `recover`.
abbrev round : Env → Text → ShellInfo → Plane → Plane
round env name s p =
    if is_none (get_session p.sessions s.session_id) then adopt env name s.session_id p else p

round-present :
    (env : Env) (name : Text) (s : ShellInfo) (p : Plane) (j : Text)
    → (present j p ≡ true → present j (round env name s p) ≡ true)
      × (length p.sessions.sessions < p.sessions.max_sessions
          → present s.session_id (round env name s p) ≡ true)
      × (length (round env name s p).sessions.sessions ≤ length p.sessions.sessions + 1)
      × ((round env name s p).sessions.max_sessions ≡ p.sessions.max_sessions)
unfolding get_session
round-present env name s p j = elim (Option-cases (Map.lookup s.session_id p.sessions.sessions)) [
  | inl e ↦ rw e (adopt-present env name s.session_id p j)
  | inr (t, e) ↦ rw e (λ h. h, λ h. rw e, omega arith, refl)
]

recover-cons :
    (env : Env) (name : Text) (s : ShellInfo) (ss : List ShellInfo) (p : Plane)
    → recover env name (s ∷ ss) p ≡ recover env name ss (round env name s p)
unfolding recover
recover-cons env name s ss p = refl

recover-nil : (env : Env) (name : Text) (p : Plane) → recover env name [] p ≡ p
unfolding recover
recover-nil env name p = refl

recover-keeps :
    (env : Env) (name : Text) (ss : List ShellInfo) (p : Plane) (j : Text)
    → present j p ≡ true
    → present j (recover env name ss p) ≡ true
recover-keeps env name [] p j h = rw (recover-nil env name p) h
recover-keeps env name (s ∷ ss) p j h =
    rw (recover-cons env name s ss p)
      (recover-keeps env name ss (round env name s p) j ((round-present env name s p j).0 h))

recover-listed :
    (env : Env) (name : Text) (ss : List ShellInfo) (p : Plane)
    → length p.sessions.sessions + length ss ≤ p.sessions.max_sessions
    → All (λ s. present s.session_id (recover env name ss p) ≡ true) ss
unfolding recover get_session
recover-listed env name [] p room = tt
recover-listed env name (s ∷ ss) p room =
    let (keeps, gets, grows, same) = round-present env name s p s.session_id in
    (
      recover-keeps env name ss (round env name s p) s.session_id (gets (omega arith)),
      recover-listed env name ss (round env name s p) (omega (arith, grows, same)),
    )

-- After a shytti lists its shells, every session that was registered is still registered, and if
-- there is room for all the listed ones, each of them is.
pub shells_list_recovers :
    (env : Env) (endpoint name : Text) (requested : Bool) (ss : List ShellInfo) (p : Plane)
    → let q = (handle_message env endpoint name requested (shells_list ss) p).0 in
      ((j : Text) → present j p ≡ true → present j q ≡ true)
      × (length p.sessions.sessions + length ss ≤ p.sessions.max_sessions
          → All (λ s. present s.session_id q ≡ true) ss)
unfolding handle_message
shells_list_recovers env endpoint name requested ss p =
    (recover-keeps env name ss p, recover-listed env name ss p)

register_full :
    (m : SessionManager) (id host : Option Text) (fresh : Text)
    → m.max_sessions ≤ length m.sessions
    → (register_session m id host fresh).0 ≡ m
unfolding register_session
register_full m id host fresh full = ground arith

-- When the session manager is full, the answer that a shell was spawned does not register its
-- session, and the caller that waits for it is still told that the spawn succeeded.
pub spawn_ok_full :
    (env : Env) (endpoint name req shell_id id : Text) (requested : Bool) (p : Plane)
    → p.sessions.max_sessions ≤ length p.sessions.sessions
    → Map.lookup id p.sessions.sessions ≡ none
    → Map.lookup req p.control_hub.pending_spawns ≡ some tt
    → let q = (handle_message env endpoint name requested (spawn_ok req shell_id id) p).0 in
      (present id q ≡ false)
      × (Map.lookup req q.control_hub.answers
          ≡ some (spawned (record { shell_id = shell_id; session_id = id })))
unfolding handle_message handle_spawn_ok
spawn_ok_full env endpoint name req shell_id id requested p full free pending = (
  rw (adopt-sessions env name id p, register_full p.sessions (some id) (some name) env.fresh full)
      (taken-present p.sessions id id ∙ rw free),
  rw (adopt-hub env name id p, pending) (rw (lookup-insert, eq_text_refl req)),
)
