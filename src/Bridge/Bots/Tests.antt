-- ===== src/Bridge/Bots/Tests.antt =====
-- Runs on concrete values: the control surface of the bots.
use hermytt.Prelude.{◌≡◌, refl, Bool, true, List, [], ◌∷◌, ◌++◌, Option, none, some}
use hermytt.Prelude.Text.{Text, codes}
use hermytt.Bridge.Bots.{BotConfig, State, handle, Request}
use hermytt.Bridge.Bots.Laws.{handle-forged_cookie, serve, serve-Inv, UniqueIds}

abbrev ann : BotConfig
ann = record {
  id = codes "ann";
  token = codes "123";
  allowed_chat_ids = [];
  apytti = codes "a";
  backend = none;
  model = some (codes "m");
  effort = none;
  dir = none;
  media_dir = none;
  session_id = none;
  parse_mode = none;
  verbosity = none;
}

abbrev state : State
state = record { bots = ann ∷ []; file = ann ∷ []; auth_token = codes "key" }

handle-forged_cookie_example :
    handle state []
      (some (codes "a=1; " ++ (codes "hermytt_session=" ++ codes "x")))
      (Request.delete_one (codes "ann"))
      true
    ≡ handle state (codes "key" ∷ []) none (Request.delete_one (codes "ann")) true
handle-forged_cookie_example =
    handle-forged_cookie state (codes "a=1; ") (codes "x") (Request.delete_one (codes "ann")) true

abbrev asked : List (List Text × Option Text × Request × Bool)
asked = (codes "key" ∷ [], none, Request.delete_one (codes "ann"), true) ∷ []

serve-Inv_example :
    UniqueIds (serve state asked).bots × ((serve state asked).file ≡ (serve state asked).bots)
serve-Inv_example = serve-Inv state asked (refl, tt) refl
