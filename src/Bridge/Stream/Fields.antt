-- ===== src/Bridge/Stream/Fields.antt =====
-- pyttch-bridge/src/bot.rs: `forward_streaming` on a stream that a sender wrote.
use hermytt.Prelude.{
  ℕ, ◌≡◌, ◌≢◌, refl, ap, ◌∙◌, true, false, List, [], ◌∷◌, ◌++◌, Option, none, some, if◌then◌else◌,
  ◌==◌, All, map, is_empty, append_assoc, Bool-cases, inl, inr, arith,
}
use hermytt.Prelude.Text.{Text, codes, eq_text, trim, trim_start_by, join, strip_prefix, contains}
use hermytt.Bridge.Status.{newline, ProgressState}
use hermytt.Bridge.Status.Progress.{ToolEvent, on_event, on_events}
use hermytt.Bridge.Stream.{
  Json, Reading, Reply, tell, handle_value, or_skip, handle_sse_event, end_event, field_line,
  read_lines, ended, begin, forward_streaming,
}
use hermytt.Bridge.Stream.Events.{
  Event, payload, event_line, payload_line, lines_of, encode, IsPlain, Meaning, nothing, says, ends,
  value_option, meaning, reply_of, tools_of, reply_after, tools_after,
}

join-append : (sep a b : Text) (ms : List Text) → join sep ((a ++ b) ∷ ms) ≡ a ++ join sep (b ∷ ms)
unfolding join
join-append sep a b [] = refl
join-append sep a b (m ∷ ms) =
    ap (λ w. w ++ join sep (m ∷ ms)) (append_assoc a b sep)
    ∙ append_assoc a (b ++ sep) (join sep (m ∷ ms))

-- Reading with the fields of an unfinished event.
abbrev partial : Reading → Text → Text → Reading
partial r event text = record r { event = event; payload = text }

-- How the loop goes on after an event.
abbrev go_on : (Option ProgressState → Reading) → Option ProgressState → Meaning → Reading
go_on rest st nothing = rest st
go_on rest st (says t) = rest (tell (λ s. on_event s t) st)
go_on rest st (ends t) = record (begin st) { got_done = true; final_response = t }

trim-space : (s : Text) → trim (b' ' ∷ s) ≡ trim s
unfolding trim trim_start_by
trim-space s = refl

is_empty-append : (a : Text) (c : ℕ) (b : Text) → is_empty ((a ++ c ∷ []) ++ b) ≡ false
is_empty-append [] c b = refl
is_empty-append (x ∷ a) c b = refl

is_empty-join :
    (sep s : Text) (ss : List Text) → is_empty s ≡ false → is_empty (join sep (s ∷ ss)) ≡ false
unfolding join
is_empty-join sep [] ss h = absurd (ground (arith, h))
is_empty-join sep (c ∷ cs) [] h = refl
is_empty-join sep (c ∷ cs) (t ∷ ts) h = refl

nonempty : (s : Text) → s ≢ [] → is_empty s ≡ false
nonempty [] h = absurd (h refl)
nonempty (c ∷ s) h = refl

-- An empty line, by what the text before it is read as.
value-go_on :
    (rest : Reading → Reading) (o : Option Json) (e text : Text) (st : Option ProgressState)
    → let r = record (or_skip (handle_value e) o (partial (begin st) e text)) {
      event = [];
      payload = [];
    } in
      (if r.got_done then r else rest r) ≡ go_on (λ s. rest (begin s)) st (value_option e o)
unfolding handle_value begin on_event
value-go_on rest none e text st = refl
value-go_on rest (some val) e text st = elim (Bool-cases (eq_text e (codes "tool_use"))) [
  | inl a ↦ rw a refl
  | inr a ↦ elim (Bool-cases (eq_text e (codes "tool_result"))) [
    | inl b ↦ rw (a, b) refl
    | inr b ↦ elim (Bool-cases (eq_text e (codes "done"))) [
      | inl c ↦ rw (a, b, c) refl
      | inr c ↦ elim (Bool-cases (eq_text e (codes "error"))) [
        | inl d ↦ rw (a, b, c, d) refl
        | inr d ↦ rw (a, b, c, d) refl
      ]
    ]
  ]
]

tell-on_events :
    (t : ToolEvent) (ts : List ToolEvent) (st : Option ProgressState)
    → tell (λ s. on_events s ts) (tell (λ s. on_event s t) st) ≡ tell (λ s. on_events s (t ∷ ts)) st
unfolding on_events
tell-on_events t ts none = refl
tell-on_events t ts (some s) = refl

tell-nothing : (st : Option ProgressState) → st ≡ tell (λ s. on_events s []) st
unfolding on_events
tell-nothing none = refl
tell-nothing (some s) = refl

-- A reading has the reply and the tools.
abbrev Has : Reply → List ToolEvent → Option ProgressState → Reading → Type 0
Has reply ts st r = (ended r ≡ reply) × (r.status ≡ tell (λ s. on_events s ts) st)

go_on-Has :
    (rest : Option ProgressState → Reading) (reply : Reply) (ts : List ToolEvent)
    → ((s : Option ProgressState) → Has reply ts s (rest s))
    → (m : Meaning) (st : Option ProgressState)
    → Has (reply_after m reply) (tools_after m ts) st (go_on rest st m)
unfolding begin
go_on-Has rest reply ts h nothing st = h st
go_on-Has rest reply ts h (says t) st =
    let (r, k) = h (tell (λ s. on_event s t) st) in (r, k ∙ tell-on_events t ts st)
go_on-Has rest reply ts h (ends t) st = (refl, tell-nothing st)

module _ (from_str : Text → Option Json) where
  read-event_line :
      (name : Text) (ls : List (Option Text)) (r : Reading)
      → trim name ≡ name
      → read_lines from_str (event_line name ∷ ls) r
        ≡ read_lines from_str ls (record r { event = name })
  unfolding read_lines field_line strip_prefix
  read-event_line name ls r h =
      ap (λ n. read_lines from_str ls (record r { event = n })) (trim-space name ∙ h)

  read-payload_line :
      (l : Text) (ls : List (Option Text)) (r : Reading)
      → trim_start_by (λ c. c == b' ') l ≡ l
      → read_lines from_str (payload_line l ∷ ls) r
        ≡ read_lines from_str ls (record r {
          payload = (if is_empty r.payload then [] else r.payload ++ newline ∷ []) ++ l;
        })
  unfolding read_lines field_line strip_prefix trim_start_by
  read-payload_line l ls r h = rw h refl

  -- The further lines of an event's text, when some of it is there.
  read-more :
      (ms : List Text) (ls : List (Option Text)) (st : Option ProgressState) (e text : Text)
      → is_empty text ≡ false
      → All (λ l. trim_start_by (λ c. c == b' ') l ≡ l) ms
      → read_lines from_str (map payload_line ms ++ ls) (partial (begin st) e text)
        ≡ read_lines from_str ls (partial (begin st) e (join (newline ∷ []) (text ∷ ms)))
  unfolding join begin
  read-more [] ls st e text n h = refl
  read-more (m ∷ ms) ls st e text n h =
      read-payload_line m (map payload_line ms ++ ls) (partial (begin st) e text) h.0
      ∙ rw n (
          read-more ms ls st e (text ++ newline ∷ [] ++ m) (is_empty-append text newline m) h.1
          ∙ ap (λ w. read_lines from_str ls (partial (begin st) e w))
              (join-append (newline ∷ []) (text ++ newline ∷ []) m ms))

  -- The empty line after it.
  end_event-meaning :
      (e text : Text) (ls : List (Option Text)) (st : Option ProgressState)
      → is_empty text ≡ false
      → read_lines from_str (some [] ∷ ls) (partial (begin st) e text)
        ≡ go_on (λ s. read_lines from_str ls (begin s)) st (value_option e (from_str text))
  unfolding read_lines end_event handle_sse_event
  end_event-meaning e text ls st n =
      rw n (value-go_on (read_lines from_str ls) (from_str text) e text st)

  read-event :
      (e : Event) (ls : List (Option Text)) (st : Option ProgressState)
      → IsPlain e
      → read_lines from_str (lines_of e ++ ls) (begin st)
        ≡ go_on (λ s. read_lines from_str ls (begin s)) st (meaning from_str e)
  unfolding begin
  read-event e ls st (t, n, h) =
      let rest : List (Option Text) = map payload_line e.more ++ some [] ∷ [] ++ ls in
      read-event_line e.event (payload_line e.first ∷ rest) (begin st) t
      ∙ read-payload_line e.first rest (partial (begin st) e.event []) h.0
      ∙ ap (λ w. read_lines from_str w (partial (begin st) e.event e.first))
          (append_assoc (map payload_line e.more) (some [] ∷ []) ls)
      ∙ read-more e.more (some [] ∷ ls) st e.event e.first (nonempty e.first n) h.1
      ∙ end_event-meaning e.event (payload e) ls st
          (is_empty-join (newline ∷ []) e.first e.more (nonempty e.first n))

  read-events :
      (es : List Event)
      → All IsPlain es
      → (st : Option ProgressState)
      → Has
          (reply_of from_str es)
          (tools_of from_str es)
          st
          (read_lines from_str (encode es) (begin st))
  unfolding reply_of tools_of read_lines begin
  read-events [] h st = (refl, tell-nothing st)
  read-events (e ∷ es) (p, h) st = rw (read-event e (encode es) st p) (
      go_on-Has (λ s. read_lines from_str (encode es) (begin s)) (reply_of from_str es)
        (tools_of from_str es) (read-events es h) (meaning from_str e) st)

  -- A stream that spells out events, their texts cut into lines of which none begins with a space
  -- and the first is not empty, is read back as those events: the reply is the text of the first
  -- `done` or `error` among them, or the failure that there was none, and the status has been told
  -- of the uses and results of tools before it, and of nothing else.
  pub forward_streaming-encode :
      (es : List Event) (content_type : Text) (whole : Option (Option Text × Text))
      (st : Option ProgressState)
      → All IsPlain es
      → contains (codes "event-stream") content_type ≡ true
      → (forward_streaming from_str content_type whole (encode es) st).0 ≡ reply_of from_str es
        × ((forward_streaming from_str content_type whole (encode es) st).1
            ≡ tell (λ s. on_events s (tools_of from_str es)) st)
  unfolding forward_streaming
  forward_streaming-encode es content_type whole st h c =
      elim (Bool-cases (contains (codes "event-stream") content_type)) [
        | inl q ↦ rw q (read-events es h st)
        | inr q ↦ absurd (ground (arith, c, q))
      ]
