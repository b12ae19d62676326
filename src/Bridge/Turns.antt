-- ===== src/Bridge/Turns.antt =====
-- pyttch-bridge/src/bot.rs: the listener of one chat, `run`, and the threads it hands messages to.
-- They share the slot of the ask in flight; every step below is one of their accesses to it.
pub mod Stacking
pub mod Tests
use hermytt.Prelude.{
  ℕ, suc, ◌+◌, Bool, true, false, List, Option, none, some, is_some, if◌then◌else◌, unwrap_or, ◌≡◌,
  ◌≢◌,
}
use hermytt.Prelude.Text.{Text, codes, starts_with, trim}
use hermytt.Bridge.Bots.{BotConfig}

pub record InFlight : Type 0 where
  pub session_id : Option Text
  pub backend : Text

-- What the listener does with a message.
pub data Turn : Type 0 where
  killall kill dropped handed_off : Turn

unfoldable pub turn : Option InFlight → Text → Turn
turn in_flight text =
    let raw_text = trim text in
    if starts_with (codes "/killall") raw_text
    then killall
    else if starts_with (codes "/kill") raw_text
    then kill
    else if is_some in_flight
    then dropped
    else handed_off

-- What `/kill` asks of apytti: nothing, or to cancel a session of a backend.
unfoldable pub handle_kill : Option InFlight → Option (Text × Text)
handle_kill none = none
handle_kill (some info) = elim info.session_id [ some sid ↦ some (info.backend, sid) | none ↦ none ]

unfoldable pub in_flight_of : BotConfig → InFlight
in_flight_of bot = record {
  session_id = bot.session_id;
  backend = unwrap_or bot.backend (codes "claude");
}

-- `spawned`: threads that have not written the slot yet; `running`: those that handle a message.
pub record World : Type 0 where
  pub in_flight : Option InFlight
  pub spawned : ℕ
  pub running : ℕ

abbrev pub start : World
start = record { in_flight = none; spawned = 0; running = 0 }

pub data Step (bot : BotConfig) : World → World → Type 0 where
  -- The listener reads the slot and spawns a thread.
  hands_off :
      {w : World} (text : Text)
      → turn w.in_flight text ≡ handed_off
      → Step bot w (record w { spawned = suc w.spawned })
  -- The listener drops the message, or handles a command.
  keeps : {w : World} (text : Text) → turn w.in_flight text ≢ handed_off → Step bot w w
  -- A thread writes the slot and begins to handle its message.
  begins :
      {slot : Option InFlight} {n m : ℕ}
      → Step bot
          (record { in_flight = slot; spawned = suc n; running = m })
          (record { in_flight = some (in_flight_of bot); spawned = n; running = suc m })
  -- A thread is done and empties the slot.
  ends :
      {slot : Option InFlight} {n m : ℕ}
      → Step bot
          (record { in_flight = slot; spawned = n; running = suc m })
          (record { in_flight = none; spawned = n; running = m })

pub data Reach (bot : BotConfig) : World → Type 0 where
  begin : Reach bot start
  then_ : {v w : World} → Reach bot v → Step bot v w → Reach bot w
