-- ===== src/Bridge/Status.antt =====
-- pyttch-bridge/src/status.rs: what a live status message shows, and the division of a long answer
-- into messages. Texts are characters here.
pub mod Chunks
pub mod Content
pub mod Progress
pub mod Tests
use hermytt.Prelude.{
  ℕ, ◌+◌, ◌-◌, Bool, true, false, not, ◌&&◌, List, [], ◌∷◌, ◌++◌, Option, none, some, if◌then◌else◌,
  leb, ◌==◌, length, is_empty, take, drop, unwrap_or,
}
use hermytt.Prelude.Text.{Text, codes, eq_text, split, trim_end_by, is_space}

abbrev pub telegram_max : ℕ
telegram_max = 4000

abbrev pub newline : ℕ
newline = 10

-- The pieces of `text.split("\n\n")`; the first one is grown at its end.
unfoldable pub split_double : Text → Text → List Text
split_double cur [] = cur ∷ []
split_double cur (c ∷ []) = (cur ++ c ∷ []) ∷ []
split_double cur (c ∷ d ∷ cs) =
    let closed = cur ∷ split_double [] cs in
    let longer = split_double (cur ++ c ∷ []) (d ∷ cs) in
    if c == newline && d == newline then closed else longer

-- The chunks that are ready, and the one that grows.
pub record Split : Type 0 where
  pub chunks : List Text
  pub current : Text

abbrev pub flush : Split → Split
flush s =
    if is_empty s.current then s else record { chunks = s.chunks ++ s.current ∷ []; current = [] }

abbrev pub separator : Text → Text → Text
separator sep current = if is_empty current then [] else sep

-- The cut of a line that is longer than a chunk.
unfoldable pub hard_cut : ℕ → List Text → Text → Text → Split
hard_cut max chunks buf [] = record { chunks = chunks; current = buf }
hard_cut max chunks buf (c ∷ cs) =
    let full = hard_cut max (chunks ++ buf ∷ []) (c ∷ []) cs in
    let more = hard_cut max chunks (buf ++ c ∷ []) cs in if length buf == max then full else more

unfoldable pub add_line : ℕ → Split → Text → Split
add_line max s line =
    let sep = separator (newline ∷ []) s.current in
    if leb (length s.current + length sep + length line) max
    then record s { current = s.current ++ sep ++ line }
    else if leb (length line) max
    then record (flush s) { current = line }
    else hard_cut max (flush s).chunks [] line

unfoldable pub add_lines : ℕ → Split → List Text → Split
add_lines max s [] = s
add_lines max s (line ∷ lines) = add_lines max (add_line max s line) lines

unfoldable pub add_paragraph : ℕ → Split → Text → Split
add_paragraph max s paragraph =
    let para = trim_end_by (λ c. c == newline) paragraph in
    let sep = separator (newline ∷ newline ∷ []) s.current in
    if leb (length s.current + length sep + length para) max
    then record s { current = s.current ++ sep ++ para }
    else if leb (length para) max
    then record (flush s) { current = para }
    else add_lines max (flush s) (split newline para)

unfoldable pub add_paragraphs : ℕ → Split → List Text → Split
add_paragraphs max s [] = s
add_paragraphs max s (p ∷ ps) = add_paragraphs max (add_paragraph max s p) ps

unfoldable pub split_response : Text → ℕ → List Text
split_response text max =
    (flush
      (add_paragraphs max (record { chunks = []; current = [] }) (split_double [] text))).chunks

pub data Verbosity : Type 0 where
  minimal kind kind_and_arg progressive : Verbosity

unfoldable pub parse : Option Text → Verbosity
parse s =
    let v = unwrap_or s (codes "kind_and_arg") in
    if eq_text v (codes "minimal")
    then minimal
    else if eq_text v (codes "kind")
    then kind
    else if eq_text v (codes "progressive")
    then progressive
    else kind_and_arg

-- Tools are their name with a summary of their input.
pub record ProgressState : Type 0 where
  pub completed : List (Text × Text)
  pub current : Option (Text × Text)

unfoldable pub clip : Text → ℕ → Text
clip s max = if leb (length s) max then s else take max s ++ codes "…"

abbrev pub thinking : Text
thinking = codes "🔧 thinking…"

abbrev running_line : ℕ → Text × Text → Text
running_line max (n, a) =
    if is_empty a
    then codes "🔧 " ++ n ++ codes "…"
    else codes "🔧 " ++ n ++ codes ": " ++ clip a max ++ codes "…"

abbrev done_line : ℕ → Text × Text → Text
done_line max (n, a) =
    if is_empty a then codes "✓ " ++ n else codes "✓ " ++ n ++ codes ": " ++ clip a max

abbrev last_done : List (Text × Text) → Option (Text × Text)
last_done [] = none
last_done (t ∷ []) = some t
last_done (t ∷ u ∷ ts) = last_done (u ∷ ts)

abbrev done_lines : List (Text × Text) → Text
done_lines [] = []
done_lines (t ∷ ts) = done_line 50 t ++ newline ∷ done_lines ts

abbrev either_line :
    (Text × Text → Text) → (Text × Text → Text) → Option (Text × Text) → Option (Text × Text) → Text
either_line running done (some t) o = running t
either_line running done none (some t) = done t
either_line running done none none = thinking

abbrev close_lines : Text → Option (Text × Text) → Text
close_lines s (some t) = s ++ running_line 50 t
close_lines s none = if is_empty s then thinking else trim_end_by is_space s

unfoldable pub render : ProgressState → Verbosity → Text
render p minimal = thinking
render p kind =
    either_line (λ t. codes "🔧 " ++ t.0 ++ codes "…") (λ t. codes "✓ " ++ t.0) p.current
      (last_done p.completed)
render p kind_and_arg =
    either_line (running_line 60) (done_line 60) p.current (last_done p.completed)
render p progressive =
    close_lines (done_lines (drop (length p.completed - 20) p.completed)) p.current

abbrev finished : List (Text × Text) → Option (Text × Text) → List (Text × Text)
finished done none = done
finished done (some prev) = done ++ prev ∷ []

unfoldable pub on_tool_use : ProgressState → Text → Text → ProgressState
on_tool_use s name input_summary = record {
  completed = finished s.completed s.current;
  current = some (name, input_summary);
}

unfoldable pub on_tool_result : ProgressState → ProgressState
on_tool_result s = record { completed = finished s.completed s.current; current = none }
