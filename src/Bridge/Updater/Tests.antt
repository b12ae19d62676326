-- ===== src/Bridge/Updater/Tests.antt =====
-- Runs on concrete values: the updater of a status message.
use hermytt.Prelude.{◌≡◌, refl, true, none, some, arith}
use hermytt.Prelude.Text.{codes}
use hermytt.Bridge.Updater.{World, Step, Reaches}
use hermytt.Bridge.Updater.Overwrite.{finalize_overwritten}

abbrev waiting : World
waiting = record {
  shown = codes "thinking";
  last_text = codes "thinking";
  alive = true;
  last_edit = 0;
  editing = none;
  finalized = none;
}

finalize_overwritten_example :
    (end : World) × Reaches waiting end
    × (end.finalized ≡ some (codes "hi"))
    × (end.shown ≡ codes "ls")
    × ((after : World) → Step end after → ⊥)
finalize_overwritten_example =
    finalize_overwritten waiting 2000 (codes "ls") (codes "hi") refl refl refl (omega arith)
      (λ e. cc)
