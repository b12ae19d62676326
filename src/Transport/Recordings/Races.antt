-- ===== src/Transport/Recordings/Races.antt =====
-- hermytt-transport/src/rest.rs: two starts of a recording at once, and a stop.
use hermytt.Prelude.{
  ℕ, ◌≡◌, ◌≢◌, ◌⊎◌, refl, sym, subst, ◌∙◌, ap, true, false, not, List, [], ◌∷◌, Option, none, some,
  All, arith, Bool-cases, inl, inr, keep, ◌==◌,
}
use hermytt.Prelude.Text.{Text, eq_text_refl}
use hermytt.Prelude.Map
use hermytt.Prelude.Map.{Map, lookup-insert, lookup-remove}
use hermytt.Transport.Recordings.{
  Running, Recordings, RecordingHandle, drop_handle, recording, stopped, not_recorded,
  recording_name, enter, start_commit, start_recorder, start_enter, start_check, stop_take,
  stop_end, start_recording, already_recorded, stop_recording,
}

-- A recorder is among those that run.
abbrev pub Runs : Running → List Running → Type 0
Runs r [] = ⊥
Runs r (q ∷ rs) = (q ≡ r) ⊎ Runs r rs

kept-apart :
    (c : ℕ) (rs : List Running)
    → All (λ r. (r.channel == c) ≡ false) (keep (λ r. not (r.channel == c)) rs)
kept-apart c [] = tt
kept-apart c (r ∷ rs) = elim (Bool-cases (r.channel == c)) [
  | inl q ↦ rw q (kept-apart c rs)
  | inr q ↦ rw q (q, kept-apart c rs)
]

kept-Runs :
    (c : ℕ) (r : Running) (rs : List Running)
    → (r.channel == c) ≡ false
    → Runs r rs
    → Runs r (keep (λ q. not (q.channel == c)) rs)
kept-Runs c r [] n h = elim h [ ]
kept-Runs c r (q ∷ rs) n (inl e) = rw (e, n) (inl refl)
kept-Runs c r (q ∷ rs) n (inr h) = elim (Bool-cases (q.channel == c)) [
  | inl e ↦ rw e (kept-Runs c r rs n h)
  | inr e ↦ rw e (inr (kept-Runs c r rs n h))
]

inserted-drop :
    (id : Text) (h : RecordingHandle) (m : Map RecordingHandle) (rs : List Running)
    → drop_handle (Map.lookup id (Map.insert id h m)) rs ≡ drop_handle (some h) rs
inserted-drop id h m rs = rw (lookup-insert, eq_text_refl id) refl

replaced-drop :
    (id : Text) (h : RecordingHandle) (m : Map RecordingHandle) (rs : List Running)
    → Map.lookup id m ≡ none
    → drop_handle (Map.lookup id (Map.insert id h m)) (drop_handle (Map.lookup id m) rs)
      ≡ drop_handle (some h) rs
replaced-drop id h m rs n =
    inserted-drop id h m (drop_handle (Map.lookup id m) rs)
    ∙ ap (λ o. drop_handle (some h) (drop_handle o rs)) n

-- For a session that is not recorded, a second start that passes the check before the first one enters
-- its handle starts a recorder as well, on a channel of its own. When it enters its handle after the
-- first, both are told that the session is being recorded, the recorder of the first has ended, that of
-- the second runs, and a stop answers with the file of the second and ends its recorder.
pub start_twice :
    (s : Recordings) (id t u : Text) (c d : ℕ)
    → Map.lookup id s.recordings ≡ none
    → c ≢ d
    → let (one, h) = start_recorder s id t (some c) in
      let (two, k) = start_recorder one id u (some d) in
      let first = start_enter two id h in
      let second = start_enter first.0 id k in
      let end = stop_recording second.0 id in
      (start_check s true true id ≡ none)
      × (start_check one true true id ≡ none)
      × (first.1 ≡ recording (recording_name id t))
      × (second.1 ≡ recording (recording_name id u))
      × All (λ r. (r.channel == c) ≡ false) second.0.running
      × Runs (record { channel = d; session = id }) second.0.running
      × (end.1 ≡ stopped (recording_name id u))
      × All (λ r. (r.channel == d) ≡ false) end.0.running
unfolding start_recorder start_check start_enter enter stop_recording stop_take stop_end
start_twice s id t u c d n e =
    let q : Running = record { channel = d; session = id } in
    let both : List Running = q ∷ (record { channel = c; session = id }) ∷ s.running in
    let h : RecordingHandle = record { stop_tx = c; filename = recording_name id t } in
    let k : RecordingHandle = record { stop_tx = d; filename = recording_name id u } in
    let left = replaced-drop id h s.recordings both n in
    let after = inserted-drop id k (Map.insert id h s.recordings) in
    (
      rw n refl,
      rw n refl,
      refl,
      refl,
      subst (All (λ r. (r.channel == c) ≡ false)) (sym left) (kept-apart c both),
      subst (Runs q) (sym left) (kept-Runs c q both (ground (arith, e)) (inl refl)),
      rw (lookup-insert, eq_text_refl id) refl,
      subst (All (λ r. (r.channel == d) ≡ false)) (sym (after _)) (kept-apart d _),
    )

-- After a start that went well, another start for the session is refused and changes nothing, and
-- one stop answers with the name of the file, ends the recorder and leaves nothing to stop.
pub start-stop :
    (s : Recordings) (id t u : Text) (c : ℕ) (other : Option ℕ)
    → Map.lookup id s.recordings ≡ none
    → let started = start_recording s true true id t (some c) in
      let ended = stop_recording started.0 id in
      (started.1 ≡ recording (recording_name id t))
      × (start_recording started.0 true true id u other ≡ (started.0, already_recorded))
      × (ended.1 ≡ stopped (recording_name id t))
      × All (λ r. (r.channel == c) ≡ false) ended.0.running
      × ((stop_recording ended.0 id).1 ≡ not_recorded)
unfolding start_recording start_commit start_recorder start_enter start_check enter stop_recording
    stop_take stop_end
start-stop s id t u c other n = rw n (
  refl,
  rw (lookup-insert, eq_text_refl id) refl,
  rw (lookup-insert, eq_text_refl id) refl,
  rw (lookup-insert, eq_text_refl id)
      (kept-apart c ((record { channel = c; session = id }) ∷ s.running)),
  rw (lookup-remove, eq_text_refl id) refl,
)
