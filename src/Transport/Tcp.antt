-- ===== src/Transport/Tcp.antt =====
-- hermytt-transport/src/tcp.rs: the two tasks of `handle_connection`, after the first line has been
-- accepted. What they see comes as a sequence, with the fate of each send; the end of one task ends
-- the other.
use hermytt.Prelude.{
  Bool, List, [], ◌∷◌, ◌++◌, if◌then◌else◌, ◌≡◌, sym, ◌∙◌, append_assoc, append-nil, Bool-cases,
  inl, inr,
}
use hermytt.Prelude.Text.{Text}

pub data Seen : Type 0 where
  output : Text → Bool → Seen
  output_ends : Seen
  read : Text → Bool → Seen
  read_ends read_fails : Seen

pub record Connection : Type 0 where
  pub to_client : List Text
  pub to_stdin : List Text

abbrev to_client : Text → Connection → Connection
to_client bytes c = record c { to_client = c.to_client ++ bytes ∷ [] }

abbrev to_stdin : Text → Connection → Connection
to_stdin bytes c = record c { to_stdin = c.to_stdin ++ bytes ∷ [] }

unfoldable pub copy_loop : List Seen → Connection → Connection
copy_loop [] c = c
copy_loop (output bytes sent ∷ es) c =
    let rest = copy_loop es (to_client bytes c) in if sent then rest else c
copy_loop (output_ends ∷ es) c = c
copy_loop (read bytes taken ∷ es) c =
    let rest = copy_loop es (to_stdin bytes c) in if taken then rest else c
copy_loop (read_ends ∷ es) c = c
copy_loop (read_fails ∷ es) c = c

abbrev outputs : List Seen → List Text
outputs [] = []
outputs (output bytes sent ∷ es) = if sent then bytes ∷ outputs es else []
outputs (read bytes taken ∷ es) = if taken then outputs es else []
outputs (output_ends ∷ es) = []
outputs (read_ends ∷ es) = []
outputs (read_fails ∷ es) = []

abbrev inputs : List Seen → List Text
inputs [] = []
inputs (output bytes sent ∷ es) = if sent then inputs es else []
inputs (read bytes taken ∷ es) = if taken then bytes ∷ inputs es else []
inputs (output_ends ∷ es) = []
inputs (read_ends ∷ es) = []
inputs (read_fails ∷ es) = []

-- Both directions are copied whole and in order, until either of them ends.
pub copy_loop-outputs :
    (es : List Seen) (c : Connection)
    → ((copy_loop es c).to_client ≡ c.to_client ++ outputs es)
      × ((copy_loop es c).to_stdin ≡ c.to_stdin ++ inputs es)
unfolding copy_loop
copy_loop-outputs [] c = (sym (append-nil c.to_client), sym (append-nil c.to_stdin))
copy_loop-outputs (output_ends ∷ es) c = (sym (append-nil c.to_client), sym (append-nil c.to_stdin))
copy_loop-outputs (read_ends ∷ es) c = (sym (append-nil c.to_client), sym (append-nil c.to_stdin))
copy_loop-outputs (read_fails ∷ es) c = (sym (append-nil c.to_client), sym (append-nil c.to_stdin))
copy_loop-outputs (output bytes sent ∷ es) c =
    let (o, i) = copy_loop-outputs es (to_client bytes c) in
    elim (Bool-cases sent) [
      | inl q ↦ rw q (o ∙ append_assoc c.to_client (bytes ∷ []) (outputs es), i)
      | inr q ↦ rw q (sym (append-nil c.to_client), sym (append-nil c.to_stdin))
    ]
copy_loop-outputs (read bytes taken ∷ es) c =
    let (o, i) = copy_loop-outputs es (to_stdin bytes c) in
    elim (Bool-cases taken) [
      | inl q ↦ rw q (o, i ∙ append_assoc c.to_stdin (bytes ∷ []) (inputs es))
      | inr q ↦ rw q (sym (append-nil c.to_client), sym (append-nil c.to_stdin))
    ]
