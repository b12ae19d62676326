-- ===== src/Bridge/Replies/Delivery.antt =====
-- pyttch-bridge/src/status.rs and bot.rs: what the user sees of an answer.
use hermytt.Prelude.{
  ◌≡◌, ◌≤◌, refl, ap, ◌∙◌, Bool, true, false, List, [], ◌∷◌, Option, none, if◌then◌else◌, leb,
  is_empty, length, take, All, ◌&&◌, ◌||◌, arith, Bool-cases, inl, inr, ◌≢◌, ltb, length-append,
  length-take,
}
use hermytt.Prelude.Text.{Text}
use hermytt.Bridge.Status.{split_response, telegram_max}
use hermytt.Bridge.Status.Chunks.{IsShort, split_response-IsShort}
use hermytt.Bridge.Status.Content.{ink, inks, split_response-ink}
use hermytt.Bridge.Stream.{Reply, answered, failed}
use hermytt.Bridge.Replies.{
  Call, edit, send, ParseMode, truncated, send_reply, send_chunks, send_split, finalize, deliver,
}

abbrev pub text_of : Call → Text
text_of (edit t m) = t
text_of (send t m) = t

-- The texts that reached the chat as messages of their own.
abbrev pub sent_texts : List Call → List Text
sent_texts [] = []
sent_texts (edit t m ∷ cs) = sent_texts cs
sent_texts (send t m ∷ cs) = t ∷ sent_texts cs

-- Telegram takes every new message.
abbrev pub TakesAll : (Call → Bool) → Type 0
TakesAll accepts = (t : Text) (m : Option ParseMode) → accepts (send t m) ≡ true

-- No call of more characters than Telegram allows.
abbrev pub AreAllowed : List Call → Type 0
AreAllowed = All (λ c. length (text_of c) ≤ 4096)

nonempty : (s : Text) → s ≢ [] → is_empty s ≡ false
nonempty [] h = absurd (h refl)
nonempty (c ∷ s) h = refl

module _ (accepts : Call → Bool) where
  send_chunks-all :
      (mode : Option ParseMode) (chunks : List Text)
      → TakesAll accepts
      → (sent_texts (send_chunks accepts mode chunks).calls ≡ chunks)
        × ((send_chunks accepts mode chunks).ok ≡ true)
  unfolding send_chunks
  send_chunks-all mode [] h = (refl, refl)
  send_chunks-all mode (c ∷ cs) h =
      let (t, o) = send_chunks-all mode cs h in rw (h c mode) (ap (λ w. c ∷ w) t, o)

  send_chunks-AreAllowed :
      (mode : Option ParseMode) (chunks : List Text)
      → All (IsShort telegram_max) chunks
      → AreAllowed (send_chunks accepts mode chunks).calls
  unfolding send_chunks
  send_chunks-AreAllowed mode [] h = tt
  send_chunks-AreAllowed mode (c ∷ cs) (s, h) = elim (Bool-cases (accepts (send c mode))) [
    | inl q ↦ rw q (omega (arith, s), send_chunks-AreAllowed mode cs h)
    | inr q ↦ rw q (omega (arith, s), tt)
  ]

  finalize-AreAllowed :
      (response : Text) (mode : Option ParseMode)
      → AreAllowed (finalize accepts response mode).calls
  unfolding finalize send_split
  finalize-AreAllowed response mode =
      let split =
        send_chunks-AreAllowed mode (split_response response telegram_max)
          (split_response-IsShort response telegram_max (omega arith)) in
      elim (Bool-cases (is_empty response)) [
        | inl e ↦ rw e (omega arith, tt)
        | inr e ↦ elim (Bool-cases (leb (length response) telegram_max)) [
          | inl l ↦
              let short : length response ≤ 4096 = ground (arith, l) in
              elim (Bool-cases (accepts (edit response mode))) [
                | inl a ↦ rw (e, l, a) (short, tt)
                | inr a ↦ rw (e, l, a) (short, (omega arith, split))
              ]
          | inr l ↦ rw (e, l) (omega arith, split)
        ]
      ]

  truncated-short : (text : Text) → length (truncated text) ≤ 4096
  unfolding truncated
  truncated-short text = elim (Bool-cases (ltb 4000 (length text))) [
    | inl l ↦ rw (l, length-append (take 4000 text) _, length-take 4000 text) (omega arith)
    | inr l ↦ rw l (ground (arith, l))
  ]

  -- Whatever the reply is, whether there is a status message or not, and whichever calls Telegram
  -- refuses, no text handed to it is longer than the 4096 characters it allows.
  pub deliver-AreAllowed :
      (status : Bool) (mode : Option ParseMode) (reply : Reply)
      → AreAllowed (deliver accepts status mode reply).calls
  unfolding deliver send_reply
  deliver-AreAllowed true mode (answered reply) = finalize-AreAllowed reply mode
  deliver-AreAllowed true mode (failed e) = finalize-AreAllowed _ none
  deliver-AreAllowed false mode (answered reply) = (truncated-short reply, tt)
  deliver-AreAllowed false mode (failed e) = (truncated-short _, tt)

  send_split-ink :
      (mode : Option ParseMode) (text : Text)
      → TakesAll accepts
      → (inks (sent_texts (send_split accepts mode text).calls) ≡ ink text)
        × ((send_split accepts mode text).ok ≡ true)
  unfolding send_split
  send_split-ink mode text h =
      let (t, o) = send_chunks-all mode (split_response text telegram_max) h in
      (ap inks t ∙ split_response-ink text telegram_max, o)

  -- An answer that is not empty is shown whole if Telegram takes every new message, whether or not
  -- it takes edits: a short one in place of the status if that edit is taken, and any other in
  -- messages of its own, which have all its characters but line breaks, in order. The only answer
  -- that counts as failed then is the short one whose edit was refused.
  pub finalize-shows :
      (response : Text) (mode : Option ParseMode)
      → response ≢ []
      → TakesAll accepts
      → let s = finalize accepts response mode in
        let in_place = leb (length response) telegram_max && accepts (edit response mode) in
        (if in_place
          then s.calls ≡ edit response mode ∷ []
          else inks (sent_texts s.calls) ≡ ink response)
        × (s.ok ≡ (in_place || ltb telegram_max (length response)))
  unfolding finalize
  finalize-shows response mode n h =
      let (t, o) = send_split-ink mode response h in
      let e = nonempty response n in
      elim (Bool-cases (leb (length response) telegram_max)) [
        | inl l ↦ elim (Bool-cases (accepts (edit response mode))) [
          | inl a ↦ rw (e, l, a) (refl, refl)
          | inr a ↦ rw (e, l, a) (t, ground (arith, l))
        ]
        | inr l ↦ rw (e, l) (t, o ∙ ground (arith, l))
      ]
