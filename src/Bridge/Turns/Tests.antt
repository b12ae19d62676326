-- ===== src/Bridge/Turns/Tests.antt =====
-- Runs on concrete values: the listener of a chat.
use hermytt.Prelude.{refl, [], none, some}
use hermytt.Prelude.Text.{codes, trim, trim_end_by, trim_start_by, starts_with}
use hermytt.Bridge.Bots.{BotConfig}
use hermytt.Bridge.Turns.{Reach, in_flight_of, turn}
use hermytt.Bridge.Turns.Stacking.{handlers_stack}

abbrev ann : BotConfig
ann = record {
  id = codes "ann";
  token = codes "123";
  allowed_chat_ids = [];
  apytti = codes "a";
  backend = none;
  model = none;
  effort = none;
  dir = none;
  media_dir = none;
  session_id = none;
  parse_mode = none;
  verbosity = none;
}

handlers_stack_example :
    Reach ann (record { in_flight = some (in_flight_of ann); spawned = 0; running = 3 })
unfolding turn trim trim_end_by trim_start_by starts_with
handlers_stack_example = handlers_stack ann (codes "hello") 2 refl
