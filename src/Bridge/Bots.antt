-- ===== src/Bridge/Bots.antt =====
-- pyttch-bridge/src/control.rs: the control surface for the bots. JSON and TOML are outside: a body
-- is what it parses to, and whether the configuration could be saved is an argument.
pub mod Laws
pub mod Tests
use hermytt.Prelude.{
  ℕ, Bool, true, false, not, ◌||◌, ◌&&◌, List, [], ◌∷◌, ◌++◌, Option, none, some, is_some,
  if◌then◌else◌, length, is_empty, any, keep, find_by, ◌==◌, map,
}
use hermytt.Prelude.Text.{Text, codes, eq_text, contains}

-- Chat ids are texts of their digits.
pub record BotConfig : Type 0 where
  pub id : Text
  pub token : Text
  pub allowed_chat_ids : List Text
  pub apytti : Text
  pub backend : Option Text
  pub model : Option Text
  pub effort : Option Text
  pub dir : Option Text
  pub media_dir : Option Text
  pub session_id : Option Text
  pub parse_mode : Option Text
  pub verbosity : Option Text

-- `bots` of the configuration in memory, and of the file.
pub record State : Type 0 where
  pub bots : List BotConfig
  pub file : List BotConfig
  pub auth_token : Text

pub record BotPayload : Type 0 where
  pub id : Option Text
  pub token : Option Text
  pub allowed_chat_ids : List Text
  pub apytti : Option Text
  pub backend : Option Text
  pub model : Option Text
  pub effort : Option Text
  pub dir : Option Text
  pub media_dir : Option Text
  pub session_id : Option Text
  pub parse_mode : Option Text
  pub verbosity : Option Text

pub data Outcome : Type 0 where
  ok bad not_found conflict server unauthorized : Outcome
  bots : List BotConfig → Outcome
  bot : BotConfig → Outcome
  healthy : ℕ → Outcome

abbrev pub redacted : Text
redacted = codes "***"

-- `BotView::from`, which has the fields of a `BotConfig`.
unfoldable pub view : BotConfig → BotConfig
view b = record b { token = if is_empty b.token then [] else redacted }

abbrev pub has_id : Text → BotConfig → Bool
has_id id b = eq_text b.id id

abbrev pub views : List BotConfig → List BotConfig
views [] = []
views (b ∷ bs) = view b ∷ views bs

unfoldable pub list_bots : State → Outcome
list_bots s = bots (views s.bots)

abbrev seen : Option BotConfig → Outcome
seen none = not_found
seen (some b) = bot (view b)

unfoldable pub get_bot : State → Text → Outcome
get_bot s id = seen (find_by (has_id id) s.bots)

-- `new_cfg.save`, after which the configuration in memory is the new one.
unfoldable pub save : State → List BotConfig → Bool → State × Outcome
save s new saves = if saves then (record s { bots = new; file = new }, ok) else (s, server)

-- A value that is there and not empty.
abbrev pub filled : Option Text → Option Text
filled none = none
filled (some t) = if is_empty t then none else some t

abbrev pub real_token : Option Text → Option Text
real_token none = none
real_token (some t) = if is_empty t || eq_text t redacted then none else some t

add_valid : State → BotPayload → Option Text → Option Text → Option Text → Bool → State × Outcome
unfolding save
add_valid s p (some id) (some token) (some apytti) saves =
    if any (has_id id) s.bots
    then (s, conflict)
    else save s
        (s.bots
          ++ record {
            id = id;
            token = token;
            allowed_chat_ids = p.allowed_chat_ids;
            apytti = apytti;
            backend = p.backend;
            model = p.model;
            effort = p.effort;
            dir = p.dir;
            media_dir = p.media_dir;
            session_id = p.session_id;
            parse_mode = p.parse_mode;
            verbosity = p.verbosity;
          }
            ∷ [])
        saves
add_valid s p _ _ _ saves = (s, bad)

unfoldable pub add_bot : State → Option BotPayload → Bool → State × Outcome
unfolding add_valid
add_bot s none saves = (s, bad)
add_bot s (some p) saves = add_valid s p (filled p.id) (real_token p.token) (filled p.apytti) saves

abbrev pub set : Option Text → Option Text → Option Text
set none old = old
set (some t) old = some t

abbrev pub set_text : Option Text → Text → Text
set_text none old = old
set_text (some t) old = t

unfoldable pub apply_payload : BotPayload → BotConfig → BotConfig
apply_payload p b = record b {
  token = set_text (real_token p.token) b.token;
  allowed_chat_ids = if is_empty p.allowed_chat_ids then b.allowed_chat_ids else p.allowed_chat_ids;
  apytti = set_text (filled p.apytti) b.apytti;
  backend = set p.backend b.backend;
  model = set p.model b.model;
  effort = set p.effort b.effort;
  dir = set p.dir b.dir;
  media_dir = set p.media_dir b.media_dir;
  session_id = set p.session_id b.session_id;
  parse_mode = set p.parse_mode b.parse_mode;
  verbosity = set p.verbosity b.verbosity;
}

abbrev pub update_first : Text → (BotConfig → BotConfig) → List BotConfig → List BotConfig
update_first id f [] = []
update_first id f (b ∷ bs) = if has_id id b then f b ∷ bs else b ∷ update_first id f bs

unfoldable pub update_bot : State → Text → Option BotPayload → Bool → State × Outcome
unfolding save
update_bot s id none saves = (s, bad)
update_bot s id (some p) saves =
    if any (has_id id) s.bots
    then save s (update_first id (apply_payload p) s.bots) saves
    else (s, not_found)

unfoldable pub delete_bot : State → Text → Bool → State × Outcome
unfolding save
delete_bot s id saves =
    let rest = keep (λ b. not (has_id id b)) s.bots in
    if length rest == length s.bots then (s, not_found) else save s rest saves

-- A request by its method and path, with what its body parses to.
pub data Request : Type 0 where
  health get_bots other : Request
  post_bots : Option BotPayload → Request
  get_one delete_one : Text → Request
  put_one : Text → Option BotPayload → Request

pub answer : State → Request → Bool → State × Outcome
answer s health saves = (s, healthy (length s.bots))
answer s get_bots saves = (s, list_bots s)
answer s (post_bots p) saves = add_bot s p saves
answer s (get_one id) saves = (s, get_bot s id)
answer s (put_one id p) saves = update_bot s id p saves
answer s (delete_one id) saves = delete_bot s id saves
answer s other saves = (s, not_found)

abbrev pub cookie_trusted : Option Text → Bool
cookie_trusted none = false
cookie_trusted (some header) = contains (codes "hermytt_session=") header

abbrev is_health : Request → Bool
is_health health = true
is_health _ = false

-- `handle`; `keys` are the values of its X-Hermytt-Key headers.
unfoldable pub handle : State → List Text → Option Text → Request → Bool → State × Outcome
unfolding answer
handle s keys cookie r saves =
    let auth_ok = any (λ k. eq_text k s.auth_token) keys in
    if is_health r || (auth_ok || cookie_trusted cookie)
    then answer s r saves
    else (s, unauthorized)
