-- ===== src/Transport/ControlWs/Sessions.antt =====
-- hermytt-transport/src/control_ws.rs: what the messages of a shytti do to the sessions.
use hermytt.Prelude.{
  ◌≡◌, refl, Bool, true, false, List, [], ◌∷◌, ◌++◌, Option, none, some, is_some, is_none,
  if◌then◌else◌, arith, Bool-cases, Option-cases, inl, inr, append_assoc,
}
use hermytt.Prelude.Text.{Text, eq_text, eq_text_iff}
use hermytt.Prelude.Utf8.{is_utf8}
use hermytt.Prelude.Map
use hermytt.Prelude.Map.{Map, lookup-insert, lookup-remove, lookup-update, map_option}
use hermytt.Core.Scrollback
use hermytt.Core.Sessions.{
  Session, SessionManager, register_session, unregister_session, take_stdin_rx, get_session,
  send_output, pty_exit_sentinel,
}
use hermytt.Core.Sessions.Invariant.{Inv, step, step-Inv, registers, takes, unregisters, update-Inv}
use hermytt.Core.ControlHub.{
  ShellInfo, ShyttiMessage, heartbeat, spawn_ok, spawn_err, kill_ok, shell_died, output,
  shells_list,
}
use hermytt.Transport.ControlWs.{
  Plane, Env, forward_stdin, started_if, adopt, bury, deliver, deliver_bytes, store_output, recover,
  handle_message,
}

forward_stdin-sessions :
    (name session_id : Text) (p : Plane)
    → (forward_stdin name session_id p).sessions ≡ (take_stdin_rx p.sessions session_id).0
unfolding forward_stdin
forward_stdin-sessions name session_id p = go (take_stdin_rx p.sessions session_id).1 _
  where
    go : (b : Bool) (m : SessionManager) → (started_if name session_id b m p).sessions ≡ m
    go true m = refl
    go false m = refl

-- The two calls that adopting a session makes of the manager.
pub adopt-sessions :
    (env : Env) (name session_id : Text) (p : Plane)
    → (adopt env name session_id p).sessions
      ≡ (take_stdin_rx
          (register_session p.sessions (some session_id) (some name) env.fresh).0
          session_id).0
unfolding adopt
adopt-sessions env name session_id p = forward_stdin-sessions name session_id _

pub adopt-hub :
    (env : Env) (name session_id : Text) (p : Plane)
    → (adopt env name session_id p).control_hub ≡ p.control_hub
unfolding adopt
adopt-hub env name session_id p =
    go
      (take_stdin_rx (register_session p.sessions (some session_id) (some name) env.fresh).0
        session_id).1
      _ _
  where
    go :
        (b : Bool) (m : SessionManager) (q : Plane)
        → (started_if name session_id b m q).control_hub ≡ q.control_hub
    go true m q = refl
    go false m q = refl

adopt-Inv :
    (env : Env) (name session_id : Text) (p : Plane)
    → Inv p.sessions
    → Inv (adopt env name session_id p).sessions
adopt-Inv env name session_id p v = rw (adopt-sessions env name session_id p) (
    unfold step in
    step-Inv _ (takes session_id)
      (unfold step in step-Inv p.sessions (registers (some session_id) (some name) env.fresh) v))

send_output-Inv : (m : SessionManager) (id bytes : Text) → Inv m → Inv (send_output id bytes m)
send_output-Inv m id bytes v = record { unique = v.unique; filed = v.filed; bounded = v.bounded }

bury-Inv : (session_id : Text) (m : SessionManager) → Inv m → Inv (bury session_id m)
unfolding bury
bury-Inv session_id m v = elim (Bool-cases (is_some (get_session m session_id))) [
  | inl t ↦
      rw (t, bury) (unfold step in step-Inv _ (unregisters session_id) (send_output-Inv m _ _ v))
  | inr t ↦ rw (t, bury) (unfold step in step-Inv m (unregisters session_id) v)
]

store_output-Inv :
    (session_id bytes : Text) (m : SessionManager) (o : Option Session)
    → Inv m
    → Inv (store_output session_id bytes m o)
unfolding store_output
store_output-Inv session_id bytes m none v = v
store_output-Inv session_id bytes m (some s) v = elim (Bool-cases (is_utf8 bytes)) [
  | inl t ↦ rw t (
      send_output-Inv _ session_id bytes (
        update-Inv m session_id (λ u. record u { scrollback = Scrollback.push u.scrollback bytes })
          (λ u. refl) v))
  | inr t ↦ rw t (send_output-Inv m session_id bytes v)
]

deliver-Inv :
    (env : Env) (session_id b64 : Text) (m : SessionManager)
    → Inv m
    → Inv (deliver env session_id b64 m)
unfolding deliver
deliver-Inv env session_id b64 m v = elim (Option-cases (env.decode b64)) [
  | inl e ↦ rw (e, deliver_bytes) v
  | inr (b, e) ↦ rw (e, deliver_bytes) (store_output-Inv session_id b m _ v)
]

recover-Inv :
    (env : Env) (name : Text) (ss : List ShellInfo) (p : Plane)
    → Inv p.sessions
    → Inv (recover env name ss p).sessions
unfolding recover
recover-Inv env name [] p v = v
recover-Inv env name (s ∷ ss) p v =
    elim (Bool-cases (is_none (get_session p.sessions s.session_id))) [
      | inl t ↦
          rw (t, recover)
            (recover-Inv env name ss (adopt env name s.session_id p)
              (adopt-Inv env name s.session_id p v))
      | inr t ↦ rw (t, recover) (recover-Inv env name ss p v)
    ]

-- Every message of a shytti, over either kind of connection, keeps the invariant of the session
-- manager: unique identifiers, each session under its own, and no more of them than the limit.
pub handle_message-Inv :
    (env : Env) (endpoint name : Text) (requested : Bool) (msg : ShyttiMessage) (p : Plane)
    → Inv p.sessions
    → Inv (handle_message env endpoint name requested msg p).0.sessions
unfolding handle_message
handle_message-Inv env endpoint name requested (heartbeat meta) p v = v
handle_message-Inv env endpoint name requested (spawn_ok r s i) p v = adopt-Inv env name i p v
handle_message-Inv env endpoint name requested (spawn_err r e) p v = v
handle_message-Inv env endpoint name requested (kill_ok s) p v = v
handle_message-Inv env endpoint name requested (shell_died s none) p v = v
handle_message-Inv env endpoint name requested (shell_died s (some i)) p v = bury-Inv i p.sessions v
handle_message-Inv env endpoint name requested (output i b) p v = deliver-Inv env i b p.sessions v
handle_message-Inv env endpoint name requested (shells_list ss) p v = recover-Inv env name ss p v

-- When any shytti reports that the shell of a registered session died, whichever host registered
-- that session, the session is gone, no other session changes, and its clients are sent the exit
-- sentinel twice.
pub shell_died_exit :
    (env : Env) (endpoint name shell_id id : Text) (requested : Bool) (p : Plane) (s : Session)
    → Map.lookup id p.sessions.sessions ≡ some s
    → let q = (handle_message env endpoint name requested (shell_died shell_id (some id)) p).0 in
      ((j : Text)
        → Map.lookup j q.sessions.sessions
          ≡ (if eq_text id j then none else Map.lookup j p.sessions.sessions))
      × (q.sessions.sent
          ≡ p.sessions.sent ++ (id, pty_exit_sentinel) ∷ (id, pty_exit_sentinel) ∷ [])
unfolding handle_message bury get_session unregister_session
shell_died_exit env endpoint name shell_id id requested p s h = (
  λ j. ground (arith, h, lookup-remove id j p.sessions.sessions),
  ground (
    arith,
    h,
    append_assoc p.sessions.sent ((id, pty_exit_sentinel) ∷ []) ((id, pty_exit_sentinel) ∷ []),
  ),
)

-- Output for a registered session reaches the clients of that session and no others, as it was
-- sent; it is pushed to its scrollback if it is UTF-8 text, and no other session changes.
pub output_delivered :
    (env : Env) (endpoint name id b64 bytes : Text) (requested : Bool) (p : Plane) (s : Session)
    → env.decode b64 ≡ some bytes
    → Map.lookup id p.sessions.sessions ≡ some s
    → let q = (handle_message env endpoint name requested (output id b64) p).0 in
      (q.sessions.sent ≡ p.sessions.sent ++ (id, bytes) ∷ [])
      × ((j : Text)
          → Map.lookup j q.sessions.sessions ≡ (
              if eq_text id j
              then some (record s {
                scrollback =
                    if is_utf8 bytes then Scrollback.push s.scrollback bytes else s.scrollback;
              })
              else Map.lookup j p.sessions.sessions))
unfolding handle_message deliver get_session
output_delivered env endpoint name id b64 bytes requested p s d h =
    rw (d, deliver, h, deliver)
      (elim (Bool-cases (is_utf8 bytes)) [
        | inl t ↦ rw t (refl, λ j. rw lookup-update (ground (arith, eq_text_iff id j)))
        | inr t ↦ rw t (refl, λ j. ground (arith, eq_text_iff id j))
      ])
