-- ===== src/Core/Buffer/Stream.antt =====
-- One `recv` of hermytt-core/src/buffer.rs: the bytes that go in and out.
use hermytt.Prelude.{
  ◌≡◌, refl, sym, ◌∙◌, true, List, [], ◌∷◌, ◌++◌, none, some, length, leb, ◌==◌, is_empty, arith,
  Bool-cases, inl, inr, append_assoc, append-nil,
}
use hermytt.Prelude.Text.{Text}
use hermytt.Core.Buffer.{
  Event, bytes, lagged, closed, timer, BufferedOutput, Recv, waiting, returned, recv_raw,
  recv_buffered, recv, extend,
}

-- All the bytes that were broadcast before the channel closed.
abbrev pub received : List Event → Text
received [] = []
received (bytes d ∷ es) = d ++ received es
received (lagged ∷ es) = received es
received (closed ∷ es) = []
received (timer ∷ es) = received es

-- What one `recv` leaves to say: the bytes that it handed out, buffered or has still to see.
abbrev pub accounted : Recv → Text
accounted (waiting b) = b.buf
accounted (returned none b es) = b.buf ++ received es
accounted (returned (some blob) b es) = blob ++ (b.buf ++ received es)

accounted-recv_raw :
    (b : BufferedOutput) (es : List Event) → b.buf ≡ [] → accounted (recv_raw b es) ≡ received es
unfolding recv_raw
accounted-recv_raw b [] h = h
accounted-recv_raw b (bytes d ∷ es) h = rw h
accounted-recv_raw b (lagged ∷ es) h = accounted-recv_raw b es h
accounted-recv_raw b (closed ∷ es) h = rw h
accounted-recv_raw b (timer ∷ es) h = accounted-recv_raw b es h

empty_buf : (s : Text) → is_empty s ≡ true → s ≡ []
empty_buf [] h = refl
empty_buf (c ∷ s) h = cc

accounted-recv_buffered :
    (b : BufferedOutput) (es : List Event) → accounted (recv_buffered b es) ≡ b.buf ++ received es
unfolding recv_buffered
accounted-recv_buffered b [] = sym (append-nil b.buf)
accounted-recv_buffered b (bytes d ∷ es) =
    elim (Bool-cases (leb b.max_bytes (length (b.buf ++ d)))) [
      | inl t ↦ rw t (append_assoc b.buf d (received es))
      | inr t ↦ rw t (accounted-recv_buffered (extend b d) es ∙ append_assoc b.buf d (received es))
    ]
accounted-recv_buffered b (lagged ∷ es) = accounted-recv_buffered b es
accounted-recv_buffered b (closed ∷ es) = elim (Bool-cases (is_empty b.buf)) [
  | inl t ↦ rw t
  | inr t ↦ rw t
]
accounted-recv_buffered b (timer ∷ es) = elim (Bool-cases (is_empty b.buf)) [
  | inl t ↦ rw t (accounted-recv_buffered b es)
  | inr t ↦ rw t
]

-- Nothing is lost, made up or moved by one `recv`: the blob that it returns, then what it left in
-- the buffer, then what is still to come, are the bytes that were buffered and those broadcast
-- until the close. (Without a window nothing is ever buffered.)
pub accounted-recv :
    (b : BufferedOutput) (es : List Event)
    → (b.window ≡ 0 → b.buf ≡ [])
    → accounted (recv b es) ≡ b.buf ++ received es
unfolding recv
accounted-recv b es h = elim (Bool-cases (b.window == 0)) [
  | inl t ↦
      let e = h (ground arith) in rw (t, e) (accounted-recv_raw (record b { buf = [] }) es refl)
  | inr t ↦ rw t (accounted-recv_buffered b es)
]
