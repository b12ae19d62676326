-- ===== src/Bridge/Updater.antt =====
-- pyttch-bridge/src/status.rs: the thread that edits a status message (`spawn_updater`) beside
-- `finalize`. Every step below is one access to what they share, or one call of Telegram.
pub mod Overwrite
pub mod Tests
use hermytt.Prelude.{ℕ, ◌+◌, ◌-◌, ◌≤◌, Bool, true, false, Option, none, some, ◌≡◌, ◌≢◌}
use hermytt.Prelude.Text.{Text}

-- `EDIT_DEBOUNCE` in milliseconds.
abbrev pub edit_debounce : ℕ
edit_debounce = 1000

-- The message as the chat shows it, the shared text and flag, when the thread last edited, the text
-- of an edit that it has under way, and whether `finalize` has made its edit.
pub record World : Type 0 where
  pub shown : Text
  pub last_text : Text
  pub alive : Bool
  pub last_edit : ℕ
  pub editing : Option Text
  pub finalized : Option Text

-- The thread looks: it is alive, the time has come, and the text to be shown is another one.
-- The edit is taken, refused as too many, refused as nothing new, or fails otherwise.
-- `finalize` clears the flag, and then edits.
pub data Step : World → World → Type 0 where
  looks :
      (w : World) (now : ℕ) (desired : Text)
      → w.alive ≡ true
      → w.editing ≡ none
      → edit_debounce ≤ now - w.last_edit
      → desired ≢ w.last_text
      → Step w (record w { editing = some desired })
  edits :
      (w : World) (now : ℕ) (desired : Text)
      → w.editing ≡ some desired
      → Step w (record w { shown = desired; last_text = desired; last_edit = now; editing = none })
  too_many :
      (w : World) (now : ℕ) (desired : Text)
      → w.editing ≡ some desired
      → Step w (record w { last_edit = now + 1000; editing = none })
  not_modified :
      (w : World) (now : ℕ) (desired : Text)
      → w.editing ≡ some desired
      → Step w (record w { last_text = desired; last_edit = now; editing = none })
  fails :
      (w : World) (now : ℕ) (desired : Text)
      → w.editing ≡ some desired
      → Step w (record w { last_edit = now; editing = none })
  stops : (w : World) → w.alive ≡ true → Step w (record w { alive = false })
  finalizes :
      (w : World) (response : Text)
      → w.alive ≡ false
      → w.finalized ≡ none
      → Step w (record w { shown = response; finalized = some response })

pub data Reaches : World → World → Type 0 where
  here : (w : World) → Reaches w w
  then_ : {u v w : World} → Step u v → Reaches v w → Reaches u w
