-- ===== src/Core/Pump/Delivery.antt =====
-- hermytt-core/src/session.rs and hermytt-core/src/buffer.rs: what is read from a PTY, on its way over
-- the broadcast channel to a client.
use hermytt.Prelude.{
  ℕ, ◌<◌, ◌≡◌, refl, sym, ap, ◌∙◌, Bool, true, false, List, [], ◌∷◌, ◌++◌, keep, length, map,
  Bool-cases, inl, inr, append_assoc, append-nil,
}
use hermytt.Prelude.Text.{Text}
use hermytt.Prelude.Utf8.{is_utf8}
use hermytt.Core.Scrollback.{ScrollbackBuffer}
use hermytt.Core.Scrollback.Laws.{push_all}
use hermytt.Core.Sessions.{pty_exit_sentinel}
use hermytt.Core.Pump.{Read, eof, failed, chunk, pump, remember}
use hermytt.Core.Buffer.{Event, bytes, lagged, closed, timer, new}
use hermytt.Core.Buffer.Stream.{received}
use hermytt.Core.Buffer.Drain.{drain, drain_complete, concat, closes}

abbrev pub is_end : Read → Bool
is_end eof = true
is_end failed = true
is_end (chunk b) = false

-- What a receiver of a tokio broadcast channel, subscribed from the start, sees of the messages that
-- are sent: each in order, or, when it has fallen behind the channel's 256, an error in place of the
-- oldest; then that the channel is closed. A client's timer may go off in between.
pub data Delivery : List Text → List Event → Type 0 where
  closes_after : {es : List Event} → Delivery [] (closed ∷ es)
  arrives :
      {m : Text} {ms : List Text} {es : List Event}
      → Delivery ms es
      → Delivery (m ∷ ms) (bytes m ∷ es)
  falls_behind :
      {ms : List Text} {es : List Event} (skipped : List Text)
      → Delivery ms es
      → Delivery (skipped ++ ms) (lagged ∷ es)
  goes_off : {ms : List Text} {es : List Event} → Delivery ms es → Delivery ms (timer ∷ es)

-- The receiver never falls behind.
abbrev pub KeepsUp : List Event → Type 0
KeepsUp [] = Unit
KeepsUp (bytes d ∷ es) = KeepsUp es
KeepsUp (lagged ∷ es) = ⊥
KeepsUp (closed ∷ es) = Unit
KeepsUp (timer ∷ es) = KeepsUp es

received_delivered :
    {ms : List Text} {es : List Event} → Delivery ms es → KeepsUp es → received es ≡ concat ms
received_delivered closes_after k = refl
received_delivered (arrives {m = m} d) k = ap (λ t. m ++ t) (received_delivered d k)
received_delivered (falls_behind skipped d) k = elim k [ ]
received_delivered (goes_off d) k = received_delivered d k

closes_delivered : {ms : List Text} {es : List Event} → Delivery ms es → closes es ≡ true
closes_delivered closes_after = refl
closes_delivered (arrives d) = closes_delivered d
closes_delivered (falls_behind skipped d) = closes_delivered d
closes_delivered (goes_off d) = closes_delivered d

pump_out :
    (sb : ScrollbackBuffer) (cs : List Text) (stop : Read) (rs : List Read)
    → is_end stop ≡ true
    → (pump sb (map chunk cs ++ stop ∷ rs)).1 ≡ cs ++ pty_exit_sentinel ∷ []
unfolding pump
pump_out sb [] eof rs e = refl
pump_out sb [] failed rs e = refl
pump_out sb [] (chunk b) rs e = cc
pump_out sb (c ∷ cs) stop rs e = ap (◌∷◌ c) (pump_out (remember sb c) cs stop rs e)

pump_kept :
    (sb : ScrollbackBuffer) (cs : List Text) (stop : Read) (rs : List Read)
    → is_end stop ≡ true
    → (pump sb (map chunk cs ++ stop ∷ rs)).0 ≡ push_all sb (keep is_utf8 cs)
unfolding pump
pump_kept sb [] eof rs e = refl
pump_kept sb [] failed rs e = refl
pump_kept sb [] (chunk b) rs e = cc
pump_kept sb (c ∷ cs) stop rs e = elim (Bool-cases (is_utf8 c)) [
  | inl t ↦ pump_kept (remember sb c) cs stop rs e ∙ rw t refl
  | inr t ↦ pump_kept (remember sb c) cs stop rs e ∙ rw t refl
]

concat-append : (ss ts : List Text) → concat (ss ++ ts) ≡ concat ss ++ concat ts
concat-append [] ts = refl
concat-append (s ∷ ss) ts =
    ap (λ t. s ++ t) (concat-append ss ts) ∙ sym (append_assoc s (concat ss) (concat ts))

-- When a PTY gives these chunks and then closes or fails, a client that is there from the start, never
-- falls behind the broadcast channel and calls at least once more than it sees events has, whatever its
-- window is and whenever its timer goes off, all their bytes in order and then the exit sentinel, once;
-- and the scrollback gets, in order, those chunks that are valid UTF-8 by themselves: one that ends
-- inside a character is left out whole.
pub pump_delivered :
    (sb : ScrollbackBuffer) (cs : List Text) (stop : Read) (rs : List Read) (es : List Event)
    (window fuel : ℕ)
    → is_end stop ≡ true
    → Delivery (pump sb (map chunk cs ++ stop ∷ rs)).1 es
    → KeepsUp es
    → length es < fuel
    → (concat (drain fuel (new window) es) ≡ concat cs ++ pty_exit_sentinel)
      × ((pump sb (map chunk cs ++ stop ∷ rs)).0 ≡ push_all sb (keep is_utf8 cs))
pump_delivered sb cs stop rs es window fuel e d k l = (
  drain_complete window fuel es (closes_delivered d) l
      ∙ received_delivered d k
      ∙ ap concat (pump_out sb cs stop rs e)
      ∙ concat-append cs (pty_exit_sentinel ∷ [])
      ∙ ap (λ t. concat cs ++ t) (append-nil pty_exit_sentinel),
  pump_kept sb cs stop rs e,
)
