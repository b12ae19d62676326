-- ===== src/Bridge/Turns/Stacking.antt =====
-- Interleavings of the listener and its threads, `run` of pyttch-bridge/src/bot.rs.
use hermytt.Prelude.{ℕ, zero, suc, ◌+◌, ◌<◌, ◌≡◌, true, Option, none, some, is_some, arith, subst}
use hermytt.Prelude.Text.{Text}
use hermytt.Bridge.Bots.{BotConfig}
use hermytt.Bridge.Turns.{
  InFlight, World, Step, Reach, turn, dropped, handed_off, in_flight_of, hands_off, keeps, begins,
  ends, begin, then_,
}

-- The ask in flight is that of a thread that runs.
abbrev Owned : World → Type 0
Owned w = is_some w.in_flight ≡ true → 0 < w.running

step-Owned : (bot : BotConfig) (v w : World) → Step bot v w → Owned v → Owned w
step-Owned bot v w (hands_off text t) h = h
step-Owned bot v w (keeps text t) h = h
step-Owned bot v w begins h = λ e. omega arith
step-Owned bot v w ends h = λ e. cc

Reach-Owned : (bot : BotConfig) (w : World) → Reach bot w → Owned w
Reach-Owned bot w begin = λ e. cc
Reach-Owned bot w (then_ r s) = step-Owned bot _ w s (Reach-Owned bot _ r)

dropped-occupied :
    (slot : Option InFlight) (text : Text) → turn slot text ≡ dropped → is_some slot ≡ true
unfolding turn
dropped-occupied slot text h = ground (arith, h)

-- A message is dropped only while the handler of another one runs, however the listener and the
-- handlers are interleaved.
pub dropped-running :
    (bot : BotConfig) (w : World) (text : Text)
    → Reach bot w
    → turn w.in_flight text ≡ dropped
    → 0 < w.running
dropped-running bot w text r h = Reach-Owned bot w r (dropped-occupied w.in_flight text h)

waiting :
    (bot : BotConfig) (text : Text) (n : ℕ)
    → turn none text ≡ handed_off
    → Reach bot (record { in_flight = none; spawned = n; running = 0 })
waiting bot text zero h = begin
waiting bot text (suc n) h = then_ (waiting bot text n h) (hands_off text h)

all_begun :
    (bot : BotConfig) (n m : ℕ) (slot : Option InFlight) (k : ℕ)
    → Reach bot (record { in_flight = slot; spawned = suc n; running = m })
    → suc n + m ≡ k
    → Reach bot (record { in_flight = some (in_flight_of bot); spawned = 0; running = k })
all_begun bot zero m slot k r e =
    subst
      (λ j. Reach bot (record { in_flight = some (in_flight_of bot); spawned = 0; running = j }))
      (sum e) (then_ r begins)
  where
    sum : suc zero + m ≡ k → suc m ≡ k
    sum q = omega (arith, q)
all_begun bot (suc n) m slot k r e =
    all_begun bot n (suc m) (some (in_flight_of bot)) k (then_ r begins) (omega (arith, e))

-- Any number of handlers can come to run at once: messages that are no commands are handed off as
-- long as no thread has written the slot yet, and the check of the slot then keeps none of them
-- back.
pub handlers_stack :
    (bot : BotConfig) (text : Text) (n : ℕ)
    → turn none text ≡ handed_off
    → Reach bot (record { in_flight = some (in_flight_of bot); spawned = 0; running = suc n })
handlers_stack bot text n h =
    all_begun bot n 0 none (suc n) (waiting bot text (suc n) h) (omega arith)
