-- ===== src/Transport/Mqtt/Topics.antt =====
-- The topics of hermytt-transport/src/mqtt.rs and hermytt-transport/src/mqtt_pty.rs.
use hermytt.Prelude.{
  ℕ, ◌≡◌, ◌≢◌, refl, ap, ◌∙◌, Bool, true, false, ◌&&◌, List, [], ◌∷◌, ◌++◌, Option, none, some,
  if◌then◌else◌, arith, Bool-cases, Option-cases, inl, inr, all, ◌==◌, append_assoc, drop,
}
use hermytt.Prelude.Text.{
  Text, codes, eq_text, eq_text_iff, split, join, starts_with, is_alphanumeric,
}
use hermytt.Prelude.Pieces.{Lacks, split-join}
use hermytt.Transport.Mqtt.{
  parse_input_topic, input_parts, parse_pty_input_topic, pty_input_parts, plain_id, is_id_char,
  replace_from, out_topic,
}

input_parts-only :
    (ps : List Text) (id : Text)
    → input_parts ps ≡ some id
    → (ps ≡ codes "hermytt" ∷ id ∷ codes "in" ∷ []) × (pty_input_parts ps ≡ none)
unfolding input_parts pty_input_parts plain_id
input_parts-only [] id h = cc
input_parts-only (a ∷ []) id h = cc
input_parts-only (a ∷ b ∷ []) id h = cc
input_parts-only (a ∷ b ∷ c ∷ []) id h =
    (ground (arith, eq_text_iff a (codes "hermytt"), eq_text_iff c (codes "in"), h), refl)
input_parts-only (a ∷ b ∷ c ∷ d ∷ ps) id h = cc

-- The topic on which commands for this session arrive.
abbrev pub topic_in : Text → Text
topic_in id = join (b'/' ∷ []) (codes "hermytt" ∷ id ∷ codes "in" ∷ [])

abbrev pub topic_pty_in : Text → Text
topic_pty_in id = join (b'/' ∷ []) (codes "hermytt" ∷ id ∷ codes "pty" ∷ codes "in" ∷ [])

chars-Lacks : (p : ℕ → Bool) (s : Text) → p b'/' ≡ false → all p s ≡ true → Lacks b'/' s
chars-Lacks p [] n h = tt
chars-Lacks p (c ∷ cs) n h =
    (λ e. differ (p c) (ground (arith, h)) (ap p e ∙ n), chars-Lacks p cs n (ground (arith, h)))
  where
    differ : (b : Bool) → b ≡ true → b ≡ false → ⊥
    differ b k l = cc

-- A session id of letters and digits is read back from its command topic, and one that may also
-- have dashes from its terminal topic.
pub topics_round_trip :
    (id : Text)
    → (all is_alphanumeric id ≡ true → parse_input_topic (topic_in id) ≡ some id)
      × (all is_id_char id ≡ true → parse_pty_input_topic (topic_pty_in id) ≡ some id)
unfolding parse_input_topic input_parts parse_pty_input_topic pty_input_parts plain_id eq_text
topics_round_trip id = (
  λ h.
      ap input_parts (
        split-join b'/' (codes "hermytt") (id ∷ codes "in" ∷ [])
          (chars-Lacks is_alphanumeric (codes "hermytt") refl refl)
          (
            chars-Lacks is_alphanumeric id refl h,
            (chars-Lacks is_alphanumeric (codes "in") refl refl, tt),
          ))
      ∙ ground (arith, h),
  λ h.
      ap pty_input_parts (
        split-join b'/' (codes "hermytt") (id ∷ codes "pty" ∷ codes "in" ∷ [])
          (chars-Lacks is_alphanumeric (codes "hermytt") refl refl)
          (
            chars-Lacks is_id_char id refl h,
            (
              chars-Lacks is_alphanumeric (codes "pty") refl refl,
              (chars-Lacks is_alphanumeric (codes "in") refl refl, tt),
            ),
          ))
      ∙ ground (arith, h),
)

-- No topic is read by both transports: one that the command transport reads is not one of a
-- terminal's input, nor the other way round.
pub topics_disjoint :
    (topic id : Text)
    → (parse_input_topic topic ≡ some id → parse_pty_input_topic topic ≡ none)
      × (parse_pty_input_topic topic ≡ some id → parse_input_topic topic ≡ none)
unfolding parse_input_topic parse_pty_input_topic
topics_disjoint topic id =
    (λ h. (input_parts-only (split b'/' topic) id h).1, pty_only (split b'/' topic))
  where
    clash : (o : Option Text) → o ≡ some id → o ≡ none → ⊥
    clash o k l = cc

    pty_only : (ps : List Text) → pty_input_parts ps ≡ some id → input_parts ps ≡ none
    pty_only ps h = elim (Option-cases (input_parts ps)) [
      | inl e ↦ e
      | inr (other, e) ↦ absurd (clash (pty_input_parts ps) h (input_parts-only ps other e).1)
    ]

replace-passes :
    (s rest : Text)
    → Lacks b'/' s
    → replace_from 0 (codes "/in") (codes "/out") (s ++ rest)
      ≡ s ++ replace_from 0 (codes "/in") (codes "/out") rest
unfolding replace_from starts_with
replace-passes [] rest h = refl
replace-passes (c ∷ cs) rest h = rw (unequal h.0, replace-passes cs rest h.1) refl
  where
    unequal : c ≢ b'/' → (b'/' == c) ≡ false
    unequal k = ground (arith, k)

-- A session id as it reads in the topic of the answers.
abbrev pub redirected : Text → Text
redirected id = if starts_with (codes "in") id then codes "out" ++ drop 2 id else id

replace-id :
    (id : Text)
    → Lacks b'/' id
    → replace_from 0 (codes "/in") (codes "/out") (b'/' ∷ (id ++ codes "/in"))
      ≡ b'/' ∷ (redirected id ++ codes "/out")
unfolding replace_from starts_with
replace-id [] h = refl
replace-id (c ∷ []) h = ground (arith, h.0)
replace-id (c ∷ d ∷ cs) h = elim (Bool-cases (b'i' == c && b'n' == d)) [
  | inl t ↦ ground (arith, t, h.1.0, replace-passes cs (codes "/in") h.1.1)
  | inr t ↦ ground (arith, t, h.0, h.1.0, replace-passes cs (codes "/in") h.1.1)
]

-- The answers to a command for a session of letters and digits are published under the id
-- itself, unless the id begins with "in": then those two letters become "out" in the topic of the
-- answers, and they miss the session.
pub out_topic-exact :
    (id : Text)
    → all is_alphanumeric id ≡ true
    → out_topic (topic_in id) ≡ codes "hermytt/" ++ (redirected id ++ codes "/out")
unfolding out_topic replace_from starts_with join
out_topic-exact id h =
    ap (replace_from 0 (codes "/in") (codes "/out")) (flat id)
    ∙ replace-passes (codes "hermytt") (b'/' ∷ (id ++ codes "/in"))
        (chars-Lacks is_alphanumeric (codes "hermytt") refl refl)
    ∙ ap (λ w. codes "hermytt" ++ w) (replace-id id (chars-Lacks is_alphanumeric id refl h))
  where
    flat : (s : Text) → topic_in s ≡ codes "hermytt" ++ (b'/' ∷ (s ++ codes "/in"))
    flat s = ap (λ w. codes "hermytt/" ++ w) (append_assoc s (b'/' ∷ []) (codes "in"))
