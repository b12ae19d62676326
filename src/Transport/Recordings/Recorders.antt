-- ===== src/Transport/Recordings/Recorders.antt =====
-- hermytt-transport/src/rest.rs: the recorders that run and the handles that are held, while the
-- handlers that start and stop recordings are at work side by side.
use hermytt.Prelude.{
  ℕ, zero, suc, ◌≡◌, refl, sym, ap, ◌∙◌, Bool, true, false, not, List, [], ◌∷◌, Option, none, some,
  All, arith, Bool-cases, inl, inr, keep, subst, unwrap_or, ◌==◌, ◌⊎◌,
}
use hermytt.Prelude.Text.{Text, eq_text, eq_text_iff}
use hermytt.Prelude.Map
use hermytt.Prelude.Map.{Map, lookup-insert, lookup-remove}
use hermytt.Transport.Recordings.{
  RecordingHandle, Running, drop_handle, enter, start_recorder, start_enter, stop_take, stop_end,
  recorder_ends,
}
use hermytt.Transport.Recordings.Concurrent.{
  Handler, entering, stopping, World, Op, starts, takes, goes_on, is_abandoned, ends, stopping_if,
  nth, without, proceed, abandon, handle_of, step, run, IsHeld, Owns, IsInHand, IsOwned, Inv,
  nothing_recorded,
}

module _ {P Q : Running → Type 0} where
  map-All : ((r : Running) → P r → Q r) → (rs : List Running) → All P rs → All Q rs
  map-All f [] a = tt
  map-All f (r ∷ rs) a = (f r a.0, map-All f rs a.1)

  keep-All :
      (p : Running → Bool)
      → ((r : Running) → p r ≡ true → P r → Q r)
      → (rs : List Running) → All P rs
      → All Q (keep p rs)
  keep-All p f [] a = tt
  keep-All p f (r ∷ rs) a = elim (Bool-cases (p r)) [
    | inl q ↦ rw q (f r q a.0, keep-All p f rs a.1)
    | inr q ↦ rw q (keep-All p f rs a.1)
  ]

-- The recorder is that of the handle, if there is one.
abbrev is_of : Option RecordingHandle → Running → Bool
is_of none r = false
is_of (some h) r = r.channel == h.stop_tx

drop_handle-All :
    {P Q : Running → Type 0}
    → (o : Option RecordingHandle) → ((r : Running) → is_of o r ≡ false → P r → Q r)
    → (rs : List Running) → All P rs
    → All Q (drop_handle o rs)
drop_handle-All none f rs a = map-All (λ r. f r refl) rs a
drop_handle-All (some h) f rs a =
    keep-All (λ r. not (r.channel == h.stop_tx)) (λ r q. f r (ground (arith, q))) rs a

IsInHand-without :
    (n : ℕ) (hs : List Handler) (r : Running) (x : Handler)
    → nth n hs ≡ some x
    → IsInHand hs r
    → Owns r x ⊎ IsInHand (without n hs) r
IsInHand-without n [] r x e i = elim i [ ]
IsInHand-without zero (y ∷ hs) r x e (inl o) = inl (subst (Owns r) (ap (λ o. unwrap_or o y) e) o)
IsInHand-without zero (y ∷ hs) r x e (inr i) = inr i
IsInHand-without (suc n) (y ∷ hs) r x e (inl o) = inr (inl o)
IsInHand-without (suc n) (y ∷ hs) r x e (inr i) = elim (IsInHand-without n hs r x e i) [
  | inl o ↦ inl o
  | inr j ↦ inr (inr j)
]

-- One whose recorder it is not does not hold a recorder's handle.
Owns-is_of : (r : Running) (x : Handler) → Owns r x → is_of (some (handle_of x)) r ≡ true
Owns-is_of r (entering id h) o = ground (arith, o.1)
Owns-is_of r (stopping h) o = ground (arith, o)

module _ (id : Text) (m : Map RecordingHandle) where
  -- A recorder that another one's handle does not end stays held when its session's handle changes.
  IsHeld-elsewhere :
      (n : Map RecordingHandle) (r : Running)
      → ((j : Text) → eq_text id j ≡ false → Map.lookup j n ≡ Map.lookup j m)
      → IsHeld m r
      → IsHeld n r ⊎ ((h : RecordingHandle) × (Map.lookup id m ≡ some h) × (h.stop_tx ≡ r.channel))
  IsHeld-elsewhere n r same (h, l, c) = elim (Bool-cases (eq_text id r.session)) [
    | inl q ↦ inr (h, ap (λ k. Map.lookup k m) ((eq_text_iff id r.session).0 q) ∙ l, c)
    | inr q ↦ inl (h, same r.session q ∙ l, c)
  ]

  is_of_held :
      (r : Running)
      → is_of (Map.lookup id m) r ≡ false
      → ¬ ((h : RecordingHandle) × (Map.lookup id m ≡ some h) × (h.stop_tx ≡ r.channel))
  is_of_held r n (h, l, c) =
      let ended : (r.channel == h.stop_tx) ≡ false = sym (ap (λ w. is_of w r) l) ∙ n in
      ground (arith, ended, c)

start-Inv :
    (w : World) (id timestamp : Text) (started : Option ℕ)
    → Inv w
    → Inv (step w (starts id timestamp started))
unfolding step start_recorder
start-Inv w id timestamp none i = i
start-Inv w id timestamp (some channel) i = (
  inr (inl (refl, refl)),
  map-All (λ r o. elim o [ inl h ↦ inl h | inr j ↦ inr (inr j) ]) w.state.running i,
)

-- A recorder whose handle is taken out is in the hands of the handler that took it.
taken :
    (id : Text) (m : Map RecordingHandle) (hs : List Handler) (o : Option RecordingHandle)
    (rs : List Running)
    → Map.lookup id m ≡ o
    → All (IsOwned m hs) rs
    → Inv (stopping_if (record { recordings = Map.remove id m; running = rs }, o) hs)
taken id m hs o rs e i = go o e
  where
    same : (j : Text) → eq_text id j ≡ false → Map.lookup j (Map.remove id m) ≡ Map.lookup j m
    same j q = rw (lookup-remove, q) refl

    go :
        (o : Option RecordingHandle)
        → Map.lookup id m ≡ o
        → Inv (stopping_if (record { recordings = Map.remove id m; running = rs }, o) hs)
    go none e =
        map-All
          (λ r o. elim o [
            | inl h ↦ elim (IsHeld-elsewhere id m (Map.remove id m) r same h) [
              | inl k ↦ inl k
              | inr (k, l, c) ↦ absurd (cc (sym e ∙ l))
            ]
            | inr j ↦ inr j
          ])
          rs i
    go (some k) e =
        map-All
          (λ r o. elim o [
            | inl h ↦ elim (IsHeld-elsewhere id m (Map.remove id m) r same h) [
              | inl g ↦ inl g
              | inr (g, l, c) ↦ inr (inl (ap (λ o. (unwrap_or o k).stop_tx) (sym e ∙ l) ∙ c))
            ]
            | inr j ↦ inr (inr j)
          ])
          rs i

-- A recorder that goes on when a handler's handle is dropped is not in that handler's hands.
dropped :
    (m : Map RecordingHandle) (hs : List Handler) (n : ℕ) (x : Handler) (r : Running)
    → nth n hs ≡ some x
    → is_of (some (handle_of x)) r ≡ false
    → IsOwned m hs r
    → IsOwned m (without n hs) r
dropped m hs n x r e f (inl h) = inl h
dropped m hs n x r e f (inr j) = elim (IsInHand-without n hs r x e j) [
  | inl o ↦ absurd (cc (Owns-is_of r x o, f))
  | inr k ↦ inr k
]

entered :
    (id : Text) (h : RecordingHandle) (m : Map RecordingHandle) (hs : List Handler) (n : ℕ)
    (r : Running)
    → nth n hs ≡ some (entering id h)
    → is_of (Map.lookup id m) r ≡ false
    → IsOwned m hs r
    → IsOwned (Map.insert id h m) (without n hs) r
entered id h m hs n r e f (inl g) =
    elim (IsHeld-elsewhere id m (Map.insert id h m) r (λ j q. rw (lookup-insert, q) refl) g) [
      | inl k ↦ inl k
      | inr k ↦ absurd (is_of_held id m r f k)
    ]
entered id h m hs n r e f (inr j) = elim (IsInHand-without n hs r (entering id h) e j) [
  | inl (s, c) ↦ inl (h, rw (lookup-insert, (eq_text_iff id r.session).1 s) refl, c)
  | inr k ↦ inr k
]

without-none : (n : ℕ) (hs : List Handler) → nth n hs ≡ none → without n hs ≡ hs
without-none n [] e = refl
without-none zero (x ∷ hs) e = cc
without-none (suc n) (x ∷ hs) e = ap (◌∷◌ x) (without-none n hs e)

none_waits :
    (w : World) (n : ℕ)
    → nth n w.handlers ≡ none
    → Inv w
    → Inv (record { state = w.state; handlers = without n w.handlers })
none_waits w n e i =
    subst (λ hs. Inv (record { state = w.state; handlers = hs }))
      (sym (without-none n w.handlers e)) i

go_on-Inv :
    (w : World) (n : ℕ) (o : Option Handler)
    → nth n w.handlers ≡ o
    → Inv w
    → Inv (proceed w.state o (without n w.handlers))
unfolding start_enter enter stop_end
go_on-Inv w n none e i = none_waits w n e i
go_on-Inv w n (some (entering id h)) e i =
    let m = w.state.recordings in
    drop_handle-All (Map.lookup id m) (λ r f. entered id h m w.handlers n r e f) w.state.running i
go_on-Inv w n (some (stopping h)) e i =
    drop_handle-All (some h) (λ r f. dropped w.state.recordings w.handlers n (stopping h) r e f)
      w.state.running i

abandon-Inv :
    (w : World) (n : ℕ) (o : Option Handler)
    → nth n w.handlers ≡ o
    → Inv w
    → Inv (abandon w.state o (without n w.handlers))
abandon-Inv w n none e i = none_waits w n e i
abandon-Inv w n (some x) e i =
    drop_handle-All (some (handle_of x)) (λ r f. dropped w.state.recordings w.handlers n x r e f)
      w.state.running i

step-Inv : (w : World) (op : Op) → Inv w → Inv (step w op)
unfolding step recorder_ends stop_take
step-Inv w (starts id timestamp started) i = start-Inv w id timestamp started i
step-Inv w (takes id) i =
    taken id w.state.recordings w.handlers (Map.lookup id w.state.recordings) w.state.running refl i
step-Inv w (goes_on n) i = go_on-Inv w n (nth n w.handlers) refl i
step-Inv w (is_abandoned n) i = abandon-Inv w n (nth n w.handlers) refl i
step-Inv w (ends channel) i =
    keep-All (λ r. not (r.channel == channel)) (λ r f o. o) w.state.running i

run-Inv_of : (w : World) (ops : List Op) → Inv w → Inv (run w ops)
unfolding run
run-Inv_of w [] i = i
run-Inv_of w (op ∷ ops) i = run-Inv_of (step w op) ops (step-Inv w op i)

-- However the parts of starts and stops for any sessions follow each other, handlers that are dropped
-- in between and recorders that end by themselves included: every recorder that runs can still be
-- ended. Its handle is the one entered for its session, or a handler holds it, to enter it for that
-- session or to end the recorder.
pub run-IsOwned :
    (ops : List Op)
    → let w = run nothing_recorded ops in
      All (λ r. IsHeld w.state.recordings r ⊎ IsInHand w.handlers r) w.state.running
run-IsOwned ops = run-Inv_of nothing_recorded ops tt
