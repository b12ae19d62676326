-- ===== src/Bridge/Prompts.antt =====
-- pyttch-bridge/src/bot.rs: what is asked of apytti for a message (`prepare_payload`,
-- `build_ask_body`). The download of a file and base64 are outside: the one's outcome and the
-- other's function are arguments. The copy that is kept for debugging is left out.
pub mod Bodies
use hermytt.Prelude.{
  ℕ, ◌-◌, Bool, true, false, List, [], ◌∷◌, ◌++◌, Option, none, some, is_empty, if◌then◌else◌,
  length, drop, unwrap_or,
}
use hermytt.Prelude.Text.{Text, codes}
use hermytt.Prelude.Map
use hermytt.Prelude.Map.{Map}
use hermytt.Bridge.Bots.{BotConfig}

-- The files that a message can carry, each with its id; a document has a name, perhaps.
pub data Media : Type 0 where
  photo voice video : Media
  document : Option Text → Media

pub data Content : Type 0 where
  text : Text → Content
  sticker : Option Text → Content
  media : Media → Text → Content
  callback_query other : Content

-- `date` is its decimal text, `caption` what `text_or_caption` gives, or nothing.
pub record Message : Type 0 where
  pub content : Content
  pub caption : Text
  pub date : Text

pub record Attachment : Type 0 where
  pub encoded : Text
  pub kind : Text
  pub name : Option Text

pub data Download : Type 0 where
  bytes : Text → Download
  refused : Text → Download

abbrev pub kind_of : Media → Text
kind_of photo = codes "image"
kind_of voice = codes "voice"
kind_of video = codes "video"
kind_of (document n) = codes "document"

-- The extension when the message names no file; with a name, the extension stays in it.
abbrev pub default_ext : Media → Text
default_ext photo = codes "jpg"
default_ext voice = codes "ogg"
default_ext video = codes "mp4"
default_ext (document n) = codes "bin"

abbrev pub default_prompt : Media → Text
default_prompt photo = codes "What's in this image?"
default_prompt voice = codes "Transcribe this voice note."
default_prompt video = codes "Describe this video."
default_prompt (document n) = codes "What's in this document?"

-- The last 12 characters of a file's id.
abbrev pub file_id_tail : Text → Text
file_id_tail file_id = drop (length file_id - 12) file_id

abbrev pub name_of : Media → Text → Text → Text
name_of (document (some n)) date file_id = n
name_of (document none) date file_id =
    date ++ codes "_" ++ file_id_tail file_id ++ codes "." ++ default_ext (document none)
name_of m date file_id = date ++ codes "_" ++ file_id_tail file_id ++ codes "." ++ default_ext m

abbrev pub refusal : Media → Text → Text → Text
refusal m err caption =
    if is_empty caption
    then codes "[user attached " ++ kind_of m ++ codes " but download failed: " ++ err ++ codes "]"
    else codes "[attachment download failed: " ++ err ++ codes "]\n" ++ caption

module _ (encode : Text → Text) (download : Text → Download) where
  abbrev pub attach : Media → Text → Message → Download → Text × List Attachment
  attach m file_id msg (bytes b) = (
    (if is_empty msg.caption then default_prompt m else msg.caption),
    (record { encoded = encode b; kind = kind_of m; name = some (name_of m msg.date file_id) })
        ∷ [],
  )
  attach m file_id msg (refused err) = (refusal m err msg.caption, [])

  abbrev pub payload_of : Message → Content → Option (Text × List Attachment)
  payload_of msg (text t) = some (t, [])
  payload_of msg (sticker emoji) =
      some (codes "[sticker: " ++ unwrap_or emoji (codes "?") ++ codes "]", [])
  payload_of msg (media m file_id) = some (attach m file_id msg (download file_id))
  payload_of msg callback_query = none
  payload_of msg other = none

  unfoldable pub prepare_payload : Message → Option (Text × List Attachment)
  prepare_payload msg = payload_of msg msg.content

-- The values of the body that `build_ask_body` makes.
pub data Value : Type 0 where
  string : Text → Value
  bool : Bool → Value
  array : List Attachment → Value

abbrev pub put_some : Text → Option Text → Map Value → Map Value
put_some k none m = m
put_some k (some t) m = Map.insert k (string t) m

unfoldable pub build_ask_body : BotConfig → Text → List Attachment → Bool → Map Value
build_ask_body bot prompt attachments stream =
    let body = (codes "prompt", string prompt) ∷ [] in
    let body = if stream then Map.insert (codes "stream") (bool true) body else body in
    let body =
      (if is_empty attachments
        then body
        else Map.insert (codes "attachments") (array attachments) body) in
    let body = put_some (codes "backend") bot.backend body in
    let body = put_some (codes "model") bot.model body in
    let body = put_some (codes "effort") bot.effort body in
    let body = put_some (codes "dir") bot.dir body in
    put_some (codes "session_id") bot.session_id body
