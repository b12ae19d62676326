-- ===== src/Bridge/Prompts/Bodies.antt =====
-- pyttch-bridge/src/bot.rs: the prompts and the bodies of requests to apytti.
use hermytt.Prelude.{
  ◌≡◌, ◌≢◌, ◌⊎◌, inl, inr, refl, Bool, true, false, List, [], ◌∷◌, Option, none, some, is_empty,
  if◌then◌else◌, arith, length,
}
use hermytt.Prelude.Text.{Text, codes, eq_text}
use hermytt.Prelude.Map
use hermytt.Prelude.Map.{Map, lookup-insert}
use hermytt.Bridge.Bots.{BotConfig}
use hermytt.Bridge.Prompts.{
  Media, photo, voice, video, document, Content, text, sticker, media, callback_query, other,
  Message, Attachment, Download, bytes, refused, attach, payload_of, default_prompt, refusal,
  prepare_payload, put_some, build_ask_body, Value, string, bool, array,
}

-- The string of an option, over what was there.
abbrev over : Option Text → Option Value → Option Value
over none v = v
over (some t) v = some (string t)

lookup-put_some :
    (j k : Text) (o : Option Text) (m : Map Value)
    → Map.lookup j (put_some k o m)
      ≡ (if eq_text k j then over o (Map.lookup j m) else Map.lookup j m)
lookup-put_some j k none m = ground arith
lookup-put_some j k (some t) m = lookup-insert k j (string t) m

abbrev pub strings : Option Text → Option Value
strings o = over o none

-- The body holds the prompt, the attachments if there are any, a mark that the answer be streamed
-- if that is wanted, and each of the settings that the bot has; none overwrites another.
pub build_ask_body-fields :
    (bot : BotConfig) (prompt : Text) (atts : List Attachment) (stream : Bool)
    → let body = build_ask_body bot prompt atts stream in
      (Map.lookup (codes "prompt") body ≡ some (string prompt))
      × (Map.lookup (codes "attachments") body
          ≡ (if is_empty atts then none else some (array atts)))
      × (Map.lookup (codes "stream") body ≡ (if stream then some (bool true) else none))
      × (Map.lookup (codes "backend") body ≡ strings bot.backend)
      × (Map.lookup (codes "model") body ≡ strings bot.model)
      × (Map.lookup (codes "effort") body ≡ strings bot.effort)
      × (Map.lookup (codes "dir") body ≡ strings bot.dir)
      × (Map.lookup (codes "session_id") body ≡ strings bot.session_id)
unfolding build_ask_body eq_text Map.lookup Map.insert
build_ask_body-fields bot prompt [] true =
    simp lookup-put_some (refl, refl, refl, refl, refl, refl, refl, refl)
build_ask_body-fields bot prompt [] false =
    simp lookup-put_some (refl, refl, refl, refl, refl, refl, refl, refl)
build_ask_body-fields bot prompt (a ∷ as_) true =
    simp lookup-put_some (refl, refl, refl, refl, refl, refl, refl, refl)
build_ask_body-fields bot prompt (a ∷ as_) false =
    simp lookup-put_some (refl, refl, refl, refl, refl, refl, refl, refl)

-- Whether the message carries a file that could be fetched.
abbrev pub fetched : (Text → Download) → Content → Bool
fetched download (media m file_id) = elim (download file_id) [ bytes b ↦ true | refused e ↦ false ]
fetched download (text t) = false
fetched download (sticker e) = false
fetched download callback_query = false
fetched download other = false

-- What a message with some content is turned into.
abbrev pub Asks : (Text → Download) → Content → Option (Text × List Attachment) → Type 0
Asks download c none = (c ≡ callback_query) ⊎ (c ≡ other)
Asks download c (some (prompt, atts)) =
    ((c ≡ text []) ⊎ (prompt ≢ [])) × (length atts ≡ (if fetched download c then 1 else 0))

default_prompt-nonempty : (m : Media) → default_prompt m ≢ []
default_prompt-nonempty photo = λ e. cc
default_prompt-nonempty voice = λ e. cc
default_prompt-nonempty video = λ e. cc
default_prompt-nonempty (document n) = λ e. cc

module _ (encode : Text → Text) (download : Text → Download) where
  attach-prompt :
      (m : Media) (file_id : Text) (msg : Message) (d : Download)
      → (attach encode download m file_id msg d).0 ≢ []
  attach-prompt m file_id msg (bytes b) = prompt m msg.caption
    where
      prompt : (m : Media) (c : Text) → (if is_empty c then default_prompt m else c) ≢ []
      prompt m [] = default_prompt-nonempty m
      prompt m (x ∷ xs) = λ e. cc
  attach-prompt m file_id msg (refused err) = by_caption msg.caption
    where
      by_caption : (c : Text) → refusal m err c ≢ []
      by_caption [] = λ e. cc
      by_caption (x ∷ xs) = λ e. cc

  -- Every message but a button press or one of an unknown kind is asked about: with a prompt that
  -- is not empty, which apytti demands, unless the message is an empty text; and with one attachment
  -- if the message carries a file that could be downloaded, and else with none.
  pub prepare_payload-Asks :
      (msg : Message) → Asks download msg.content (prepare_payload encode download msg)
  unfolding prepare_payload
  prepare_payload-Asks msg = by_content msg.content
    where
      text_or : (t : Text) → (text t ≡ text []) ⊎ (t ≢ [])
      text_or [] = inl refl
      text_or (x ∷ xs) = inr (λ e. cc)

      by_download :
          (m : Media) (i : Text) (d : Download)
          → download i ≡ d
          → Asks download (media m i) (some (attach encode download m i msg d))
      by_download m i (bytes b) e = (inr (attach-prompt m i msg (bytes b)), rw (e, fetched) refl)
      by_download m i (refused err) e =
          (inr (attach-prompt m i msg (refused err)), rw (e, fetched) refl)

      by_content : (c : Content) → Asks download c (payload_of encode download msg c)
      by_content (text t) = (text_or t, refl)
      by_content (sticker emoji) = (inr (λ e. cc), refl)
      by_content (media m file_id) = by_download m file_id (download file_id) refl
      by_content callback_query = inl refl
      by_content other = inr refl
