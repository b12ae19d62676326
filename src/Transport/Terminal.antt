-- ===== src/Transport/Terminal.antt =====
-- hermytt-transport/src/rest.rs: the loop of a terminal's WebSocket (`handle_ws_socket`) and of a
-- host's pipe (`handle_internal_pipe`). What the `select!` sees comes as a sequence, with how each
-- send ends. JSON, base64 and the reading of bytes as UTF-8 with losses are parameters.
pub mod Typed
pub mod Tests
use hermytt.Prelude.{
  ℕ, ◌%◌, ◌^◌, Bool, true, false, not, ◌&&◌, List, [], ◌∷◌, ◌++◌, Option, none, some, is_some,
  if◌then◌else◌, is_empty, unwrap_or, ◌==◌,
}
use hermytt.Prelude.Text.{Text, codes, eq_text, split, join, starts_with}
use hermytt.Prelude.Json.{Json, Items, get, as_str, as_u64, as_array, item_0, item_1}
use hermytt.Prelude.Map
use hermytt.Prelude.Map.{Map}
use hermytt.Core.Sessions.{pty_exit_sentinel}

-- What the client says: a text, bytes, the end, or a ping or pong.
pub data Message : Type 0 where
  text binary : Text → Message
  close other : Message

-- Output of the session with the fate of its send to the client; a lag or the end of the channel; a
-- message with the fate of its send to the shell, and the time and the fate of a write to the disk.
pub data Seen : Type 0 where
  output : Text → Bool → Seen
  no_output : Seen
  message : Message → Bool → Text → Bool → Seen

-- What the client is sent: text of the terminal, the notice of its exit, or of a saved image.
pub data Notice : Type 0 where
  said : Text → Notice
  exit : Notice
  image_saved : Text → Notice

-- What was sent to the client and to the shell, the sizes that were set, and the directory of files.
pub record Terminal : Type 0 where
  pub to_client : List Notice
  pub to_stdin : List Text
  pub sizes : List (ℕ × ℕ)
  pub files : Map Text

abbrev pub and_then {ℓ κ} : {A : Type ℓ} {B : Type κ} → Option A → (A → Option B) → Option B
and_then none f = none
and_then (some a) f = f a

abbrev last_piece : List Text → Text
last_piece [] = []
last_piece (p ∷ []) = p
last_piece (p ∷ q ∷ ps) = last_piece (q ∷ ps)

-- The piece of the name after its last dot, or the whole name.
abbrev pub extension : Option Text → Text
extension none = codes "png"
extension (some name) = last_piece (split b'.' name)

abbrev pub paste_name : Text → Option Text → Text
paste_name ts name = codes "paste-" ++ (ts ++ (b'.' ∷ extension name))

abbrev pub is_json_start : Text → Bool
is_json_start t = starts_with (codes "{") t

-- `as u16`
abbrev pub u16 : ℕ → ℕ
u16 n = n % 2 ^ 16

abbrev pub add_size : Option ℕ → Option ℕ → Terminal → Terminal
add_size (some cols) (some rows) s = record s { sizes = s.sizes ++ (u16 cols, u16 rows) ∷ [] }
add_size (some cols) none s = s
add_size none rows s = s

unfoldable pub resize_by : Json → Terminal → Terminal
resize_by val s =
    let dims = and_then (get (codes "resize") val) as_array in
    add_size (and_then (and_then dims item_0) as_u64) (and_then (and_then dims item_1) as_u64) s

abbrev pub save_image : Text → Text → Bool → Terminal → Terminal
save_image name bytes ok s =
    if ok
    then record s {
      files = Map.insert name bytes s.files;
      to_client = s.to_client ++ image_saved name ∷ [];
    }
    else s

abbrev pub store_image : Text → Option Text → Bool → Option Text → Terminal → Terminal
store_image ts name ok none s = s
store_image ts name ok (some bytes) s = save_image (paste_name ts name) bytes ok s

-- The control message that a text is, if it is one.
unfoldable pub control_of : (Text → Option Json) → Text → Option Json
control_of from_str t = if is_json_start t then from_str t else none

abbrev pub type_in : Text → Terminal → Terminal
type_in bytes s = record s { to_stdin = s.to_stdin ++ bytes ∷ [] }

abbrev pub show : Notice → Terminal → Terminal
show n s = record s { to_client = s.to_client ++ n ∷ [] }

module _ (from_str : Text → Option Json) (base64 : Text → Option Text) (lossy : Text → Text) where
  abbrev pub paste_from : Bool → Text → Bool → Option Json → Terminal → Terminal
  paste_from has_dir ts ok none s = s
  paste_from has_dir ts ok (some paste) s =
      if has_dir
      then store_image ts (and_then (get (codes "name") paste) as_str) ok
          (and_then (and_then (get (codes "data") paste) as_str) base64) s
      else s

  unfoldable pub paste_by : Bool → Text → Bool → Json → Terminal → Terminal
  paste_by has_dir ts ok val s = paste_from has_dir ts ok (get (codes "paste_image") val) s

  -- A text, when it may be a control message: what is left, and whether the loop goes on.
  abbrev pub on_text : Bool → Text → Bool → Text → Bool → Option Json → Terminal → Terminal × Bool
  on_text has_dir t taken ts ok (some val) s = (paste_by has_dir ts ok val (resize_by val s), true)
  on_text has_dir t taken ts ok none s = (if taken then type_in t s else s, taken)

  unfoldable pub on_message : Bool → Message → Bool → Text → Bool → Terminal → Terminal × Bool
  on_message has_dir (text t) taken ts ok s =
      on_text has_dir t taken ts ok (control_of from_str t) s
  on_message has_dir (binary b) taken ts ok s = (if taken then type_in b s else s, taken)
  on_message has_dir close taken ts ok s = (s, false)
  on_message has_dir other taken ts ok s = (s, true)

  unfoldable pub on_output : Text → Bool → Terminal → Terminal × Bool
  on_output bytes sent s =
      if eq_text bytes pty_exit_sentinel
      then (show exit s, false)
      else if sent
      then (show (said (lossy bytes)) s, true)
      else (s, false)

  unfoldable pub see : Bool → Seen → Terminal → Terminal × Bool
  see has_dir (output bytes sent) s = on_output bytes sent s
  see has_dir no_output s = (s, false)
  see has_dir (message m taken ts ok) s = on_message has_dir m taken ts ok s

  unfoldable pub socket_loop : Bool → List Seen → Terminal → Terminal
  socket_loop has_dir [] s = s
  socket_loop has_dir (e ∷ es) s =
      let (s', go_on) = see has_dir e s in
      let rest = socket_loop has_dir es s' in if go_on then rest else s'

  -- The history first, if there is any.
  unfoldable pub handle_ws_socket : List Text → Map Text → Bool → List Seen → Terminal
  handle_ws_socket history files has_dir es =
      let lines = join (codes "\n") history in
      let s : Terminal = record {
        to_client = if is_empty lines then [] else said lines ∷ [];
        to_stdin = [];
        sizes = [];
        files = files;
      } in
      socket_loop has_dir es s
