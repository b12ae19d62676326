-- ===== src/Bridge/Replies.antt =====
-- pyttch-bridge/src/bot.rs and status.rs: what goes out to Telegram for an answer. A call of
-- Telegram is a value; which calls it accepts is a parameter.
pub mod Delivery
pub mod Tests
use hermytt.Prelude.{
  ℕ, Bool, true, false, List, [], ◌∷◌, ◌++◌, Option, none, some, if◌then◌else◌, leb, is_empty,
  length, take, map, ltb,
}
use hermytt.Prelude.Text.{Text, codes, eq_text, lower}
use hermytt.Bridge.Status.{split_response, telegram_max}
use hermytt.Bridge.Stream.{Reply, answered, failed}

pub data ParseMode : Type 0 where
  html markdown markdown_v2 : ParseMode

unfoldable pub parse_mode : Text → Option ParseMode
parse_mode s =
    let t = map lower s in
    if eq_text t (codes "html")
    then some html
    else if eq_text t (codes "markdown")
    then some markdown
    else if eq_text t (codes "markdownv2")
    then some markdown_v2
    else none

-- `edit` is of the status message, `send` a new message.
pub data Call : Type 0 where
  edit : Text → Option ParseMode → Call
  send : Text → Option ParseMode → Call

-- What was called, in order, and whether it ended well.
pub record Sent : Type 0 where
  pub calls : List Call
  pub ok : Bool

abbrev pub first : Call → Sent → Sent
first c s = record s { calls = c ∷ s.calls }

-- The text of `send_reply`.
unfoldable pub truncated : Text → Text
truncated text =
    if ltb 4000 (length text) then take 4000 text ++ codes "\n\n... (truncated)" else text

module _ (accepts : Call → Bool) where
  unfoldable pub send_reply : Option ParseMode → Text → Sent
  send_reply mode text =
      let c = send (truncated text) mode in record { calls = c ∷ []; ok = accepts c }

  unfoldable pub send_chunks : Option ParseMode → List Text → Sent
  send_chunks mode [] = record { calls = []; ok = true }
  send_chunks mode (chunk ∷ chunks) =
      let rest = first (send chunk mode) (send_chunks mode chunks) in
      if accepts (send chunk mode)
      then rest
      else record { calls = send chunk mode ∷ []; ok = false }

  unfoldable pub send_split : Option ParseMode → Text → Sent
  send_split mode text = send_chunks mode (split_response text telegram_max)

  abbrev pub done_note : Call
  done_note = edit (codes "✓ done") none

  unfoldable pub finalize : Text → Option ParseMode → Sent
  finalize response mode =
      if is_empty response
      then record { calls = edit (codes "(empty response)") none ∷ []; ok = true }
      else if leb (length response) telegram_max
      then if accepts (edit response mode)
        then record { calls = edit response mode ∷ []; ok = true }
        else first (edit response mode)
            (first done_note (record (send_split mode response) { ok = false }))
      else first done_note (send_split mode response)

  -- The end of `handle_message`: whether there is a status message, and apytti's reply.
  unfoldable pub deliver : Bool → Option ParseMode → Reply → Sent
  deliver true mode (answered reply) = finalize reply mode
  deliver true mode (failed e) = finalize (codes "(brain unreachable: " ++ e ++ codes ")") none
  deliver false mode (answered reply) = send_reply mode reply
  deliver false mode (failed e) = send_reply mode (codes "(brain unreachable: " ++ e ++ codes ")")
