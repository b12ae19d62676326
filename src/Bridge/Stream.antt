-- ===== src/Bridge/Stream.antt =====
-- pyttch-bridge/src/bot.rs: asking apytti, whose answer is a stream of server-sent events
-- (`forward_streaming`, `handle_sse_event`). `serde_json` is a parameter: it gives the string fields
-- of a JSON text. A line that could not be read is `none`.
pub mod Fields
pub mod Events
pub mod Tests
use hermytt.Prelude.{
  Bool, true, false, not, List, [], ◌∷◌, ◌++◌, Option, none, some, if◌then◌else◌, is_empty,
  unwrap_or, ◌==◌,
}
use hermytt.Prelude.Text.{Text, codes, eq_text, contains, strip_prefix, trim, trim_start_by}
use hermytt.Bridge.Status.{ProgressState, on_tool_use, on_tool_result, newline}

-- The string fields of a JSON value.
abbrev pub Json : Type 0
Json = Text → Option Text

-- What `forward_streaming` holds while it reads, with the status that it informs, if there is one.
pub record Reading : Type 0 where
  pub event : Text
  pub payload : Text
  pub final_response : Text
  pub got_done : Bool
  pub status : Option ProgressState

pub data Reply : Type 0 where
  answered : Text → Reply
  failed : Text → Reply

abbrev pub tell : (ProgressState → ProgressState) → Option ProgressState → Option ProgressState
tell f none = none
tell f (some s) = some (f s)

abbrev pub error_text : Text → Text
error_text err = codes "[error] " ++ err

-- The text of a `done` event, given what was there before.
abbrev pub done_text : Text → Option Text → Option Text → Text
done_text before response none = unwrap_or response before
done_text before response (some err) =
    if is_empty err then unwrap_or response before else error_text err

unfoldable pub handle_value : Text → Json → Reading → Reading
handle_value event val r =
    if eq_text event (codes "tool_use")
    then record r {
      status =
          tell
            (λ s.
              on_tool_use s (unwrap_or (val (codes "name")) (codes "?"))
                (unwrap_or (val (codes "input_summary")) []))
            r.status;
    }
    else if eq_text event (codes "tool_result")
    then record r { status = tell on_tool_result r.status }
    else if eq_text event (codes "done")
    then record r {
      got_done = true;
      final_response = done_text r.final_response (val (codes "response")) (val (codes "error"));
    }
    else if eq_text event (codes "error")
    then record r {
      got_done = true;
      final_response = error_text (unwrap_or (val (codes "error")) (codes "upstream error"));
    }
    else r

abbrev pub or_skip : (Json → Reading → Reading) → Option Json → Reading → Reading
or_skip f none r = r
or_skip f (some val) r = f val r

unfoldable pub begin : Option ProgressState → Reading
begin status = record {
  event = [];
  payload = [];
  final_response = [];
  got_done = false;
  status = status;
}

abbrev set_event : Text → Reading → Reading
set_event rest r = record r { event = trim rest }

abbrev add_payload : Text → Reading → Reading
add_payload rest r = record r {
  payload =
      (if is_empty r.payload then [] else r.payload ++ newline ∷ [])
      ++ trim_start_by (λ c. c == b' ') rest;
}

abbrev after_event : Option Text → Option Text → Reading → Reading
after_event (some rest) other r = set_event rest r
after_event none (some rest) r = add_payload rest r
after_event none none r = r

unfoldable pub field_line : Text → Reading → Reading
field_line line r =
    after_event (strip_prefix (codes "event:") line) (strip_prefix (codes "data:") line) r

abbrev pub ended : Reading → Reply
ended r =
    if r.got_done
    then answered r.final_response
    else failed (codes "stream ended without a done event")

-- A body that is no stream is parsed whole: `AskResponse`, with its error and its response.
abbrev one_shot : Option (Option Text × Text) → Reply
one_shot none = failed (codes "not an answer")
one_shot (some (some err, response)) = failed (codes "apytti error: " ++ err)
one_shot (some (none, response)) = answered response

module _ (from_str : Text → Option Json) where
  unfoldable pub handle_sse_event : Text → Text → Reading → Reading
  handle_sse_event event payload r = or_skip (handle_value event) (from_str payload) r

  -- An empty line ends an event.
  unfoldable pub end_event : Reading → Reading
  end_event r =
      if is_empty r.payload
      then r
      else record (handle_sse_event r.event r.payload r) { event = []; payload = [] }

  -- The loop over the lines, up to the end of the first event that is the last.
  unfoldable pub read_lines : List (Option Text) → Reading → Reading
  read_lines [] r = r
  read_lines (none ∷ ls) r = read_lines ls r
  read_lines (some [] ∷ ls) r =
      let r' = end_event r in let rest = read_lines ls r' in if r'.got_done then r' else rest
  read_lines (some (c ∷ cs) ∷ ls) r = read_lines ls (field_line (c ∷ cs) r)

  unfoldable pub forward_streaming :
      Text
      → Option (Option Text × Text)
      → List (Option Text)
      → Option ProgressState
      → Reply × Option ProgressState
  forward_streaming content_type whole lines status =
      let r = read_lines lines (begin status) in
      if contains (codes "event-stream") content_type
      then (ended r, r.status)
      else (one_shot whole, status)
