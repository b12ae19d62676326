-- ===== src/Bridge/Replies/Tests.antt =====
-- Runs on concrete values: what goes out to Telegram.
use hermytt.Prelude.{◌≡◌, refl, Bool, true, false, some}
use hermytt.Prelude.Text.{codes}
use hermytt.Bridge.Status.Content.{ink, inks}
use hermytt.Bridge.Stream.{answered}
use hermytt.Bridge.Replies.{Call, edit, send, html, finalize, deliver}
use hermytt.Bridge.Replies.Delivery.{AreAllowed, sent_texts, finalize-shows, deliver-AreAllowed}

-- A chat whose status message can no longer be edited.
abbrev accepts : Call → Bool
accepts (edit t m) = false
accepts (send t m) = true

finalize-shows_example :
    inks (sent_texts (finalize accepts (codes "a\nb") (some html)).calls) ≡ ink (codes "a\nb")
finalize-shows_example =
    (finalize-shows accepts (codes "a\nb") (some html) (λ e. cc) (λ t m. refl)).0

deliver-AreAllowed_example :
    AreAllowed (deliver accepts true (some html) (answered (codes "a\nb"))).calls
deliver-AreAllowed_example = deliver-AreAllowed accepts true (some html) (answered (codes "a\nb"))
