-- ===== src/Transport/Mqtt/Attach.antt =====
-- hermytt-transport/src/mqtt_pty.rs: the loop of `serve` that attaches forwarders to sessions. A
-- session is its id with the number of its output channel; what a poll lists and then finds of each
-- session is an argument.
pub mod Once
use hermytt.Prelude.{
  ℕ, ◌≡◌, refl, sym, ap, ◌∙◌, subst, Bool, true, false, List, [], ◌∷◌, ◌++◌, Option, none, some,
  if◌then◌else◌, any, keep, All, arith, Bool-cases, inl, inr, append_assoc, append-nil, keep-append,
}
use hermytt.Prelude.Text.{Text, codes, eq_text, eq_text_iff, eq_text_refl}

-- The ids that count as attached, the forwarders that were spawned, and what was announced.
pub record Attached : Type 0 where
  pub attached : List Text
  pub forwarders : List (Text × ℕ)
  pub announced : List Text

-- One round: the listed ids, and the channel of each session that is still there.
pub record Poll : Type 0 where
  pub current_ids : List Text
  pub get_session : Text → Option ℕ

abbrev pub member : Text → List Text → Bool
member id = any (λ j. eq_text j id)

unfoldable pub attach_one : Option ℕ → Text → Attached → Attached
attach_one none id s = s
attach_one (some channel) id s = record {
  attached = id ∷ s.attached;
  forwarders = s.forwarders ++ (id, channel) ∷ [];
  announced = s.announced ++ id ∷ [];
}

-- The body of the `for`.
unfoldable pub visit : (Text → Option ℕ) → Text → Attached → Attached
visit get_session id s = if member id s.attached then s else attach_one (get_session id) id s

unfoldable pub attach_new : (Text → Option ℕ) → List Text → Attached → Attached
attach_new get_session [] s = s
attach_new get_session (id ∷ ids) s = attach_new get_session ids (visit get_session id s)

unfoldable pub poll : Attached → Poll → Attached
poll s p =
    let t = attach_new p.get_session p.current_ids s in
    record t { attached = keep (λ id. member id p.current_ids) t.attached }

unfoldable pub polls : Attached → List Poll → Attached
polls s [] = s
polls s (p ∷ ps) = polls (poll s p) ps
