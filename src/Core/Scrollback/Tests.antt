-- ===== src/Core/Scrollback/Tests.antt =====
-- Runs on concrete values: the scrollback buffer.
use hermytt.Prelude.{◌≡◌, List, [], ◌∷◌, arith}
use hermytt.Prelude.Text.{Text, codes}
use hermytt.Core.Scrollback.{new, get_all}
use hermytt.Core.Scrollback.Laws.{get_all-push_all, push_all, last, history}

abbrev texts : List Text
texts = codes "one\ntwo\n" ∷ codes "three" ∷ []

get_all-push_all_example : get_all (push_all (new 2) texts) ≡ last 2 (history texts)
get_all-push_all_example = get_all-push_all 2 texts (omega arith)
