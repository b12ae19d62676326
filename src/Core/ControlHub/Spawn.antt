-- ===== src/Core/ControlHub/Spawn.antt =====
-- `ControlHub::spawn` of hermytt-core/src/control.rs, among the requests and answers of others.
use hermytt.Prelude.{
  ℕ, ◌≡◌, refl, sym, ap, ◌∙◌, Bool, false, List, [], ◌∷◌, Option, none, some, if◌then◌else◌, arith,
  Bool-cases, inl, inr, ◌⊎◌,
}
use hermytt.Prelude.Text.{Text, eq_text, eq_text_iff, eq_text_refl}
use hermytt.Prelude.Map
use hermytt.Prelude.Map.{Map, lookup-insert, lookup-remove}
use hermytt.Core.ControlHub.{
  ControlHub, ShyttiConnection, ControlMessage, SpawnOutcome, SpawnError, spawned, failed, refused,
  spawn, Wait, answered, dropped, expired, resolve, handle_spawn_ok, handle_spawn_err,
  spawn_request, spawn_finish, connection_lost, not_connected, timed_out, request,
}

-- What the connected shyttis answer, in the order in which the hub handles it.
pub data Answer : Type 0 where
  oks : Text → Text → Text → Answer
  errs : Text → Text → Answer

pub handle : ControlHub → Answer → ControlHub
handle h (oks req_id shell_id session_id) = handle_spawn_ok h req_id shell_id session_id
handle h (errs req_id error) = handle_spawn_err h req_id error

pub handle_all : ControlHub → List Answer → ControlHub
unfolding handle
handle_all h [] = h
handle_all h (a ∷ as_) = handle_all (handle h a) as_

abbrev request_of : Answer → Text
request_of (oks req_id _ _) = req_id
request_of (errs req_id _) = req_id

abbrev outcome_of : Answer → SpawnOutcome
outcome_of (oks _ shell_id session_id) =
    spawned (record { shell_id = shell_id; session_id = session_id })
outcome_of (errs _ error) = failed (refused error)

-- The first answer to a request.
abbrev pub first_answer : Text → List Answer → Option SpawnOutcome
first_answer req_id [] = none
first_answer req_id (a ∷ as_) =
    if eq_text (request_of a) req_id then some (outcome_of a) else first_answer req_id as_

handle-resolve :
    (h : ControlHub) (a : Answer) → handle h a ≡ resolve h (request_of a) (outcome_of a)
unfolding handle handle_spawn_ok handle_spawn_err
handle-resolve h (oks r s i) = refl
handle-resolve h (errs r e) = refl

resolve-other :
    (h : ControlHub) (req other : Text) (o : SpawnOutcome)
    → eq_text other req ≡ false
    → (Map.lookup req (resolve h other o).pending_spawns ≡ Map.lookup req h.pending_spawns)
      × (Map.lookup req (resolve h other o).answers ≡ Map.lookup req h.answers)
unfolding resolve
resolve-other h req other o ne = (
  ground (arith, lookup-remove other req h.pending_spawns),
  ground (arith, lookup-insert other req o h.answers),
)

resolve-pending :
    (h : ControlHub) (req : Text) (o : SpawnOutcome)
    → Map.lookup req h.pending_spawns ≡ some tt
    → (Map.lookup req (resolve h req o).pending_spawns ≡ none)
      × (Map.lookup req (resolve h req o).answers ≡ some o)
unfolding resolve
resolve-pending h req o p = (
  ground (arith, p, eq_text_refl req, lookup-remove req req h.pending_spawns),
  ground (arith, p, eq_text_refl req, lookup-insert req req o h.answers),
)

resolve_settled :
    (h : ControlHub) (req : Text) (o : SpawnOutcome)
    → Map.lookup req h.pending_spawns ≡ none
    → resolve h req o ≡ h
unfolding resolve
resolve_settled h req o p = rw p

handle_all-cons :
    (h : ControlHub) (x : Answer) (as_ : List Answer)
    → handle_all h (x ∷ as_) ≡ handle_all (resolve h (request_of x) (outcome_of x)) as_
unfolding handle_all
handle_all-cons h x as_ = ap (λ g. handle_all g as_) (handle-resolve h x)

handle_all-nil : (h : ControlHub) → handle_all h [] ≡ h
unfolding handle_all
handle_all-nil h = refl

-- The request is settled, with this outcome in its channel.
abbrev Settled : Text → SpawnOutcome → ControlHub → Type 0
Settled req o h = (Map.lookup req h.pending_spawns ≡ none) × (Map.lookup req h.answers ≡ some o)

resolve-Settled :
    (h : ControlHub) (req other : Text) (o p : SpawnOutcome)
    → Settled req o h
    → Settled req o (resolve h other p)
resolve-Settled h req other o p (n, a) = elim (Bool-cases (eq_text other req)) [
  | inl t ↦ rw ((eq_text_iff other req).0 t, resolve_settled h req p n) (n, a)
  | inr t ↦ let (q, b) = resolve-other h req other p t in (q ∙ n, b ∙ a)
]

handle_all-Settled :
    (h : ControlHub) (req : Text) (o : SpawnOutcome) (as_ : List Answer)
    → Settled req o h
    → Settled req o (handle_all h as_)
handle_all-Settled h req o [] s = rw (handle_all-nil h) s
handle_all-Settled h req o (x ∷ as_) s = rw (handle_all-cons h x as_) (
    handle_all-Settled (resolve h (request_of x) (outcome_of x)) req o as_
      (resolve-Settled h req (request_of x) o (outcome_of x) s))

-- Among any answers, the first one to a pending request settles it; without one it stays pending.
abbrev Decided : Text → Option SpawnOutcome → ControlHub → Type 0
Decided req none h = Map.lookup req h.pending_spawns ≡ some tt
Decided req (some o) h = Settled req o h

handle_all-Decided :
    (h : ControlHub) (req : Text) (as_ : List Answer)
    → Map.lookup req h.pending_spawns ≡ some tt
    → Decided req (first_answer req as_) (handle_all h as_)
handle_all-Decided h req [] p = rw (handle_all-nil h) p
handle_all-Decided h req (x ∷ as_) p = elim (Bool-cases (eq_text (request_of x) req)) [
  | inl t ↦
      rw (t, handle_all-cons h x as_, (eq_text_iff (request_of x) req).0 t)
        (handle_all-Settled _ req (outcome_of x) as_ (resolve-pending h req (outcome_of x) p))
  | inr t ↦
      rw (t, handle_all-cons h x as_)
        (handle_all-Decided (resolve h (request_of x) (outcome_of x)) req as_
          ((resolve-other h req (request_of x) (outcome_of x) t).0 ∙ p))
]

spawn_request_waits :
    (open_ : ℕ → Bool) (h : ControlHub) (req host : Text) (shell cwd : Option Text)
    → (spawn_request open_ h req host shell cwd).1 ≡ none
    → Map.lookup req (spawn_request open_ h req host shell cwd).0.pending_spawns ≡ some tt
unfolding spawn_request
spawn_request_waits open_ h req host shell cwd e =
    ground (arith, eq_text_refl req, lookup-insert req req tt h.pending_spawns)

-- How a wait may end: by an answer only if one came, and otherwise by the timeout.
abbrev pub Fits : Text → List Answer → Wait → SpawnOutcome → Type 0
Fits req as_ answered o = first_answer req as_ ≡ some o
Fits req as_ dropped o = ⊥
Fits req as_ expired o = o ≡ failed timed_out

Decided-some :
    (req : Text) (o : SpawnOutcome) (f : Option SpawnOutcome) (h : ControlHub)
    → f ≡ some o
    → Decided req f h
    → Settled req o h
Decided-some req o none h e d = absurd (cc e)
Decided-some req o (some p) h e d = (d.0, d.1 ∙ e)

-- A spawn request that was sent out ends, among any answers that the shyttis give to it and to
-- others, with the first answer to it, or with a timeout; either way nothing of it stays pending.
-- An answer after that changes nothing more.
pub spawn_first_answer :
    (open_ : ℕ → Bool) (h : ControlHub) (req host : Text) (shell cwd : Option Text)
    (as_ : List Answer) (w : Wait) (o : SpawnOutcome)
    → (spawn_request open_ h req host shell cwd).1 ≡ none
    → Fits req as_ w o
    → let (h', result) =
        spawn_finish (handle_all (spawn_request open_ h req host shell cwd).0 as_) req w in
      (result ≡ o)
      × (Map.lookup req h'.pending_spawns ≡ none)
      × ((late : Answer) → request_of late ≡ req → handle h' late ≡ h')
unfolding spawn_finish
spawn_first_answer open_ h req host shell cwd as_ answered o e fits =
    let sent = (spawn_request open_ h req host shell cwd).0 in
    let d = handle_all-Decided sent req as_ (spawn_request_waits open_ h req host shell cwd e) in
    let (n, a) = Decided-some req o (first_answer req as_) _ fits d in
    (rw a, n, λ late l. rw (handle-resolve _ late, l) (resolve_settled _ req (outcome_of late) n))
spawn_first_answer open_ h req host shell cwd as_ dropped o e fits = absurd fits
spawn_first_answer open_ h req host shell cwd as_ expired o e fits =
    let waited = handle_all (spawn_request open_ h req host shell cwd).0 as_ in
    let n : Map.lookup req (Map.remove req waited.pending_spawns) ≡ none =
      rw (lookup-remove, eq_text_refl req) in
    (
      sym fits,
      n,
      λ late l. rw (handle-resolve _ late, l) (resolve_settled _ req (outcome_of late) n),
    )

request_failed :
    (open_ : ℕ → Bool) (h : ControlHub) (req : Text) (msg : ControlMessage)
    (c : Option ShyttiConnection) (e : SpawnError)
    → Map.lookup req h.pending_spawns ≡ none
    → (request open_ h req msg c).1 ≡ some e
    → (Map.lookup req (request open_ h req msg c).0.pending_spawns ≡ none)
      × ((request open_ h req msg c).0.outbox ≡ h.outbox)
      × (((c ≡ none) × (e ≡ not_connected))
          ⊎ ((d : ShyttiConnection) × (c ≡ some d) × (open_ d.tx ≡ false) × (e ≡ connection_lost)))
unfolding request
request_failed open_ h req msg none e p q = (p, refl, inl (refl, ground arith))
request_failed open_ h req msg (some d) e p q = elim (Bool-cases (open_ d.tx)) [
  | inl t ↦ absurd (ground (arith, t))
  | inr t ↦ rw t (rw (lookup-remove, eq_text_refl req), refl, inr (d, refl, t, ground (arith, t)))
]

-- A spawn request that could not be sent out reports why (the host is not connected, or its
-- connection is gone), leaves nothing pending, and puts nothing into any channel.
pub spawn_request_failed :
    (open_ : ℕ → Bool) (h : ControlHub) (req host : Text) (shell cwd : Option Text) (e : SpawnError)
    → Map.lookup req h.pending_spawns ≡ none
    → (spawn_request open_ h req host shell cwd).1 ≡ some e
    → let h' = (spawn_request open_ h req host shell cwd).0 in
      (Map.lookup req h'.pending_spawns ≡ none)
      × (h'.outbox ≡ h.outbox)
      × (((Map.lookup host h.connections ≡ none) × (e ≡ not_connected))
          ⊎ ((c : ShyttiConnection) × (Map.lookup host h.connections ≡ some c)
              × (open_ c.tx ≡ false)
              × (e ≡ connection_lost)))
unfolding spawn_request
spawn_request_failed open_ h req host shell cwd e =
    request_failed open_ h req (spawn req shell cwd none) (Map.lookup host h.connections) e
