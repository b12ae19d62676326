-- ===== src/Core/Buffer/Drain.antt =====
-- A client's loop `while let Some(data) = output.recv().await` over hermytt-core/src/buffer.rs.
use hermytt.Prelude.{
  ℕ, zero, suc, ◌+◌, ◌<◌, ◌≡◌, refl, sym, ◌∙◌, Bool, true, false, List, [], ◌∷◌, ◌++◌, none, some,
  length, leb, ◌==◌, is_empty, arith, Bool-cases, inl, inr,
}
use hermytt.Prelude.Text.{Text}
use hermytt.Core.Buffer.{
  Event, bytes, lagged, closed, timer, BufferedOutput, Recv, waiting, returned, flush, recv_raw,
  recv_buffered, recv, extend, new,
}
use hermytt.Core.Buffer.Stream.{received, accounted, accounted-recv}

-- The channel closes at some point.
abbrev pub closes : List Event → Bool
closes [] = false
closes (bytes d ∷ es) = closes es
closes (lagged ∷ es) = closes es
closes (closed ∷ es) = true
closes (timer ∷ es) = closes es

abbrev pending : Text → ℕ
pending [] = 0
pending (c ∷ s) = 1

-- What holds when a `recv` on `es`, with `buf` in the buffer, stands still or returns.
abbrev Progress : Text → List Event → Recv → Type 0
Progress buf es (waiting b) = closes es ≡ false
Progress buf es (returned none b es') = (b.buf ≡ []) × (received es' ≡ [])
Progress buf es (returned (some blob) b es') =
    (b.buf ≡ []) × (closes es' ≡ closes es) × (length es' < length es + pending buf)

-- Seeing one more event that does not close, in front, and with less in the buffer.
step-Progress :
    (buf buf' : Text) (e : Event) (es : List Event) (r : Recv)
    → closes (e ∷ es) ≡ closes es
    → Progress buf' es r
    → Progress buf (e ∷ es) r
step-Progress buf buf' e es (waiting b) q p = q ∙ p
step-Progress buf buf' e es (returned none b es') q p = p
step-Progress [] [] e es (returned (some blob) b es') q p = (p.0, p.1 ∙ sym q, omega (arith, p.2))
step-Progress [] (c ∷ s) e es (returned (some blob) b es') q p =
    (p.0, p.1 ∙ sym q, omega (arith, p.2))
step-Progress (c ∷ s) [] e es (returned (some blob) b es') q p =
    (p.0, p.1 ∙ sym q, omega (arith, p.2))
step-Progress (c ∷ s) (d ∷ u) e es (returned (some blob) b es') q p =
    (p.0, p.1 ∙ sym q, omega (arith, p.2))

recv_raw-Progress :
    (b : BufferedOutput) (es : List Event) → b.buf ≡ [] → Progress b.buf es (recv_raw b es)
unfolding recv_raw
recv_raw-Progress b [] h = refl
recv_raw-Progress b (bytes d ∷ es) h = (h, refl, omega arith)
recv_raw-Progress b (lagged ∷ es) h =
    step-Progress b.buf b.buf lagged es _ refl (recv_raw-Progress b es h)
recv_raw-Progress b (closed ∷ es) h = (h, refl)
recv_raw-Progress b (timer ∷ es) h =
    step-Progress b.buf b.buf timer es _ refl (recv_raw-Progress b es h)

some_pending : (s : Text) → is_empty s ≡ false → pending s ≡ 1
some_pending [] h = cc
some_pending (c ∷ s) h = refl

no_pending : (s : Text) → is_empty s ≡ true → s ≡ []
no_pending [] h = refl
no_pending (c ∷ s) h = cc

recv_buffered-Progress :
    (b : BufferedOutput) (es : List Event) → Progress b.buf es (recv_buffered b es)
unfolding recv_buffered flush
recv_buffered-Progress b [] = refl
recv_buffered-Progress b (bytes d ∷ es) =
    elim (Bool-cases (leb b.max_bytes (length (b.buf ++ d)))) [
      | inl t ↦ rw t (refl, refl, omega arith)
      | inr t ↦ rw t (
          step-Progress b.buf (b.buf ++ d) (bytes d) es _ refl
            (recv_buffered-Progress (extend b d) es))
    ]
recv_buffered-Progress b (lagged ∷ es) =
    step-Progress b.buf b.buf lagged es _ refl (recv_buffered-Progress b es)
recv_buffered-Progress b (closed ∷ es) = elim (Bool-cases (is_empty b.buf)) [
  | inl t ↦ rw t (no_pending b.buf t, refl)
  | inr t ↦ rw t (refl, refl, omega (arith, some_pending b.buf t))
]
recv_buffered-Progress b (timer ∷ es) = elim (Bool-cases (is_empty b.buf)) [
  | inl t ↦ rw t (step-Progress b.buf b.buf timer es _ refl (recv_buffered-Progress b es))
  | inr t ↦ rw t (refl, refl, omega (arith, some_pending b.buf t))
]

recv-Progress :
    (b : BufferedOutput) (es : List Event)
    → (b.window ≡ 0 → b.buf ≡ [])
    → Progress b.buf es (recv b es)
unfolding recv
recv-Progress b es h = elim (Bool-cases (b.window == 0)) [
  | inl t ↦ rw t (recv_raw-Progress b es (h (ground arith)))
  | inr t ↦ rw t (recv_buffered-Progress b es)
]

abbrev pub concat : List Text → Text
concat [] = []
concat (s ∷ ss) = s ++ concat ss

next : (BufferedOutput → List Event → List Text) → Recv → List Text
next again (waiting b) = []
next again (returned none b es) = []
next again (returned (some blob) b es) = blob ∷ again b es

-- The blobs that a client's loop gets from at most `fuel` calls.
pub drain : ℕ → BufferedOutput → List Event → List Text
unfolding next
drain zero b es = []
drain (suc fuel) b es = next (drain fuel) (recv b es)

next-all :
    (again : BufferedOutput → List Event → List Text) (fuel : ℕ) (buf : Text) (es : List Event)
    → ((b : BufferedOutput) (es : List Event)
        → b.buf ≡ []
        → closes es ≡ true
        → length es < fuel
        → concat (again b es) ≡ received es)
    → (r : Recv) → closes es ≡ true
    → length es + pending buf < suc fuel
    → Progress buf es r
    → concat (next again r) ≡ accounted r
unfolding next
next-all again fuel buf es rest (waiting b) c m p = absurd (cc (sym c ∙ p))
next-all again fuel buf es rest (returned none b es') c m p = rw (p.0, p.1)
next-all again fuel buf es rest (returned (some blob) b es') c m p =
    rw (rest b es' p.0 (p.1 ∙ c) (omega (arith, p.2)), p.0)

drain-all :
    (fuel : ℕ) (b : BufferedOutput) (es : List Event)
    → (b.window ≡ 0 → b.buf ≡ [])
    → closes es ≡ true
    → length es + pending b.buf < fuel
    → concat (drain fuel b es) ≡ b.buf ++ received es
unfolding drain
drain-all zero b es h c m = absurd (omega arith)
drain-all (suc fuel) b es h c m =
    next-all (drain fuel) fuel b.buf es
      (λ b' es' e c' m'. drain-all fuel b' es' (λ _. e) c' (rw e (omega (arith, m'))) ∙ rw e)
      (recv b es) c m (recv-Progress b es h)
    ∙ accounted-recv b es h

-- A client of a new buffer, with or without a window, whose channel closes at some point, has read,
-- after at most as many calls as there are events, exactly the bytes that the channel delivered
-- before the close, in order, whenever the timer goes off.
pub drain_complete :
    (window fuel : ℕ) (es : List Event)
    → closes es ≡ true
    → length es < fuel
    → concat (drain fuel (new window) es) ≡ received es
unfolding new
drain_complete window fuel es c m = drain-all fuel (new window) es (λ _. refl) c (omega arith)
