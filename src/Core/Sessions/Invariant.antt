-- ===== src/Core/Sessions/Invariant.antt =====
-- The invariant of `SessionManager`, hermytt-core/src/session.rs, and sequences of its calls.
use hermytt.Prelude.{
  ℕ, ◌≤◌, ◌<◌, ◌≡◌, refl, Bool, List, [], ◌∷◌, Option, none, some, length, is_some, unwrap_or,
  arith, Bool-cases, Option-cases, inl, inr, ◌∙◌, subst,
}
use hermytt.Prelude.Text.{Text, eq_text_iff}
use hermytt.Prelude.Map
use hermytt.Prelude.Map.{
  Map, UniqueKeys, lookup-insert, lookup-remove, lookup-update, length-insert, length-remove-le,
  length-update, insert-UniqueKeys, remove-UniqueKeys, update-UniqueKeys, map_option,
}
use hermytt.Core.Sessions.{
  Session, SessionManager, Native, Result, ok, err, new_session, start, with_max_sessions, admit,
  create_session, register_session, managed_session, unregister_session, take_stdin_rx,
  resize_session, resize_found, rename_session, default_session, default_of, cleanup_dead, dead_ids,
  remove_dead, remove_all,
}

-- Every session is filed under its own identifier.
pub record IsFiled (m : Map Session) : Type 0 where
  pub at : (k : Text) (s : Session) → Map.lookup k m ≡ some s → s.id ≡ k

pub record Inv (m : SessionManager) : Type 0 where
  pub unique : UniqueKeys m.sessions
  pub filed : IsFiled m.sessions
  pub bounded : length m.sessions ≤ m.max_sessions

IsFiled-insert : (s : Session) (m : Map Session) → IsFiled m → IsFiled (Map.insert s.id s m)
IsFiled-insert s m f = record {
  at = λ k t. rw (lookup-insert s.id k s m) (ground (arith, eq_text_iff s.id k, f.at k t));
}

IsFiled-remove : (k : Text) (m : Map Session) → IsFiled m → IsFiled (Map.remove k m)
IsFiled-remove k m f = record { at = λ j t. rw (lookup-remove k j m) (ground (arith, f.at j t)) }

IsFiled-update :
    (k : Text) (g : Session → Session) (m : Map Session)
    → ((s : Session) → (g s).id ≡ s.id)
    → IsFiled m
    → IsFiled (Map.update k g m)
IsFiled-update k g m same f = record {
  at = λ j t. rw (lookup-update k j g m) (elim (Option-cases (Map.lookup j m)) [
    | inl e ↦ rw e (ground arith)
    | inr (s, e) ↦ rw e (ground (arith, same s, f.at j s e))
  ]);
}

-- An update of a session's fields keeps the invariant.
pub update-Inv :
    (m : SessionManager) (k : Text) (g : Session → Session)
    → ((s : Session) → (g s).id ≡ s.id)
    → Inv m
    → Inv (record m { sessions = Map.update k g m.sessions })
update-Inv m k g same v = record {
  unique = update-UniqueKeys k g m.sessions v.unique;
  filed = IsFiled-update k g m.sessions same v.filed;
  bounded = rw (length-update k g m.sessions) v.bounded;
}

insert-Inv :
    (m : SessionManager) (s : Session)
    → length m.sessions < m.max_sessions
    → Inv m
    → Inv (record m { sessions = Map.insert s.id s m.sessions })
insert-Inv m s room v = record {
  unique = insert-UniqueKeys s.id s m.sessions v.unique;
  filed = IsFiled-insert s m.sessions v.filed;
  bounded = ground (arith, length-insert s.id s m.sessions);
}

admit-Inv :
    (m : SessionManager) (p : Session × Result (Unit {0}))
    → length m.sessions < m.max_sessions
    → Inv m
    → Inv (admit m p).0
unfolding admit
admit-Inv m (s, err e) room v = v
admit-Inv m (s, ok _) room v = insert-Inv m s room v

create_session-Inv :
    (m : SessionManager) (fresh : Text) (native : Native)
    → Inv m
    → Inv (create_session m fresh native).0
unfolding create_session
create_session-Inv m fresh native v =
    ground (arith, admit-Inv m (start (new_session fresh m.shell m.scrollback_capacity) native))

register_session-Inv :
    (m : SessionManager) (id host : Option Text) (fresh : Text)
    → Inv m
    → Inv (register_session m id host fresh).0
unfolding register_session
register_session-Inv m id host fresh v =
    ground (arith, insert-Inv m (managed_session (unwrap_or id fresh) host m.scrollback_capacity))

remove-Inv :
    (m : SessionManager) (k : Text) (sent : List (Text × Text))
    → Inv m
    → Inv (record m { sessions = Map.remove k m.sessions; sent = sent })
remove-Inv m k sent v = record {
  unique = remove-UniqueKeys k m.sessions v.unique;
  filed = IsFiled-remove k m.sessions v.filed;
  bounded = omega (arith, length-remove-le k m.sessions, v.bounded);
}

unregister_session-Inv : (m : SessionManager) (id : Text) → Inv m → Inv (unregister_session m id).0
unfolding unregister_session
unregister_session-Inv m id v = elim (Bool-cases (is_some (Map.lookup id m.sessions))) [
  | inl t ↦ rw t (remove-Inv m id _ v)
  | inr t ↦ rw t v
]

resize_found-Inv :
    (m : SessionManager) (id : Text) (r : Option (Session × Result (Unit {0})))
    → Inv m
    → Inv (resize_found m id r).0
unfolding resize_found
resize_found-Inv m id none v = v
resize_found-Inv m id (some (s, r)) v = update-Inv m id _ (λ t. refl) v

default_of-Inv :
    (ss : Map Session) (m : SessionManager) (fresh : Text) (native : Native)
    → Inv m
    → Inv (default_of ss m fresh native).0
unfolding default_of
default_of-Inv [] m fresh native v = create_session-Inv m fresh native v
default_of-Inv ((k, s) ∷ ss) m fresh native v = v

remove_all-Inv :
    (ks : List Text) (m : SessionManager)
    → Inv m
    → Inv (record m { sessions = remove_all ks m.sessions })
unfolding remove_all
remove_all-Inv [] m v = v
remove_all-Inv (k ∷ ks) m v =
    remove_all-Inv ks (record m { sessions = Map.remove k m.sessions }) (remove-Inv m k m.sent v)

-- The calls that change a session manager, with what the system answers to each. `removes` is the
-- second half of a cleanup, some time after the first; the creation of a default session, some time
-- after none was found, is `creates`.
pub data Call : Type 0 where
  creates : Text → Native → Call
  registers : Option Text → Option Text → Text → Call
  unregisters : Text → Call
  takes : Text → Call
  resizes : Text → ℕ → ℕ → Bool → Call
  renames : Text → Text → Call
  defaults : Text → Native → Call
  cleans : (ℕ → Bool) → Call
  removes : List Text → Call

unfoldable pub step : SessionManager → Call → SessionManager
step m (creates fresh native) = (create_session m fresh native).0
step m (registers id host fresh) = (register_session m id host fresh).0
step m (unregisters id) = (unregister_session m id).0
step m (takes id) = (take_stdin_rx m id).0
step m (resizes id cols rows accepted) = (resize_session m id cols rows accepted).0
step m (renames id name) = (rename_session m id name).0
step m (defaults fresh native) = (default_session m fresh native).0
step m (cleans exited) = (cleanup_dead m exited).0
step m (removes dead) = (remove_dead m dead).0

unfoldable pub run : SessionManager → List Call → SessionManager
run m [] = m
run m (c ∷ cs) = run (step m c) cs

pub step-Inv : (m : SessionManager) (c : Call) → Inv m → Inv (step m c)
unfolding step take_stdin_rx resize_session rename_session default_session cleanup_dead remove_dead
step-Inv m (creates fresh native) v = create_session-Inv m fresh native v
step-Inv m (registers id host fresh) v = register_session-Inv m id host fresh v
step-Inv m (unregisters id) v = unregister_session-Inv m id v
step-Inv m (takes id) v = update-Inv m id _ (λ t. refl) v
step-Inv m (resizes id cols rows accepted) v = resize_found-Inv m id _ v
step-Inv m (renames id name) v = update-Inv m id _ (λ t. refl) v
step-Inv m (defaults fresh native) v = default_of-Inv m.sessions m fresh native v
step-Inv m (cleans exited) v = remove_all-Inv (dead_ids exited m.sessions) m v
step-Inv m (removes dead) v = remove_all-Inv dead m v

run-Inv : (m : SessionManager) (cs : List Call) → Inv m → Inv (run m cs)
unfolding run
run-Inv m [] v = v
run-Inv m (c ∷ cs) v = run-Inv (step m c) cs (step-Inv m c v)

admit-max :
    (m : SessionManager) (p : Session × Result (Unit {0}))
    → (admit m p).0.max_sessions ≡ m.max_sessions
unfolding admit
admit-max m (s, err e) = refl
admit-max m (s, ok _) = refl

create_session-max :
    (m : SessionManager) (fresh : Text) (native : Native)
    → (create_session m fresh native).0.max_sessions ≡ m.max_sessions
unfolding create_session
create_session-max m fresh native =
    ground (arith, admit-max m (start (new_session fresh m.shell m.scrollback_capacity) native))

resize_found-max :
    (m : SessionManager) (id : Text) (r : Option (Session × Result (Unit {0})))
    → (resize_found m id r).0.max_sessions ≡ m.max_sessions
unfolding resize_found
resize_found-max m id none = refl
resize_found-max m id (some (s, r)) = refl

default_of-max :
    (ss : Map Session) (m : SessionManager) (fresh : Text) (native : Native)
    → (default_of ss m fresh native).0.max_sessions ≡ m.max_sessions
unfolding default_of
default_of-max [] m fresh native = create_session-max m fresh native
default_of-max ((k, s) ∷ ss) m fresh native = refl

step-max : (m : SessionManager) (c : Call) → (step m c).max_sessions ≡ m.max_sessions
unfolding step register_session unregister_session take_stdin_rx resize_session rename_session
    default_session cleanup_dead remove_dead
step-max m (creates fresh native) = create_session-max m fresh native
step-max m (registers id host fresh) = ground arith
step-max m (unregisters id) = ground arith
step-max m (takes id) = refl
step-max m (resizes id cols rows accepted) = resize_found-max m id _
step-max m (renames id name) = refl
step-max m (defaults fresh native) = default_of-max m.sessions m fresh native
step-max m (cleans exited) = refl
step-max m (removes dead) = refl

run-max : (m : SessionManager) (cs : List Call) → (run m cs).max_sessions ≡ m.max_sessions
unfolding run
run-max m [] = refl
run-max m (c ∷ cs) = run-max (step m c) cs ∙ step-max m c

no_sessions-IsFiled : IsFiled []
unfolding Map.lookup
no_sessions-IsFiled = record { at = λ k s h. cc }

-- After any sequence of calls on a new manager, whatever the system answers: identifiers are
-- unique, each session is filed under its own identifier, and there are no more sessions than
-- `max_sessions`.
pub run-new-Inv :
    (shell : Text) (capacity max : ℕ) (cs : List Call)
    → let m = run (with_max_sessions shell capacity max) cs in
      UniqueKeys m.sessions
      × ((k : Text) (s : Session) → Map.lookup k m.sessions ≡ some s → s.id ≡ k)
      × (length m.sessions ≤ max)
unfolding with_max_sessions
run-new-Inv shell capacity max cs =
    let m = with_max_sessions shell capacity max in
    let v =
      run-Inv m cs (record { unique = tt; filed = no_sessions-IsFiled; bounded = omega arith }) in
    (v.unique, v.filed.at, subst (λ n. length (run m cs).sessions ≤ n) (run-max m cs) v.bounded)
