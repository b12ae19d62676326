-- ===== src/Core/Registry/Laws.antt =====
-- hermytt-core/src/registry.rs: roles and their names.
use hermytt.Prelude.{ℕ, ◌≡◌, refl, [], ◌∷◌, map, arith}
use hermytt.Prelude.Text.{Text, lower, eq_text}
use hermytt.Core.Registry.{
  ServiceRole, shell, renderer, highlighter, sandbox, bot, parser, gateway, messenger, unknown,
  role_name, deserialize_role_case_insensitive,
}

lower_idem : (c : ℕ) → lower (lower c) ≡ lower c
lower_idem c = ground arith

map-lower_idem : (s : Text) → map lower (map lower s) ≡ map lower s
map-lower_idem [] = refl
map-lower_idem (c ∷ s) = rw (lower_idem c, map-lower_idem s)

-- A role's serialized name is read back as that role, and names that differ only in the case of
-- their letters are read alike.
pub role_round_trip :
    ((r : ServiceRole) → deserialize_role_case_insensitive (role_name r) ≡ r)
    × ((s t : Text)
        → map lower s ≡ map lower t
        → deserialize_role_case_insensitive s ≡ deserialize_role_case_insensitive t)
unfolding deserialize_role_case_insensitive role_name eq_text
role_round_trip = (names, λ s t e. rw e)
  where
    names : (r : ServiceRole) → deserialize_role_case_insensitive (role_name r) ≡ r
    names shell = refl
    names renderer = refl
    names highlighter = refl
    names sandbox = refl
    names bot = refl
    names parser = refl
    names gateway = refl
    names messenger = refl
    names unknown = refl
