-- ===== src/Prelude/Map.antt =====
-- A `HashMap` with text keys, as the list of its entries in iteration order. The program relies on
-- no particular order, and no statement below does.
use Prim.Native.Nat.{◌+◌, ◌≤◌}
use mathlib.Core.Path.{◌≡◌, refl}
use mathlib.Core.Bool.{Bool}
use mathlib.Core.Option.{Option, none, some}
use mathlib.Core.List.{List, [], ◌∷◌}
use native.Mathlib.Omega.{arith}
use hermytt.Prelude.Tests.{if◌then◌else◌, is_some}
use hermytt.Prelude.Lists.{length}
use hermytt.Prelude.Text.{Text, eq_text, eq_text_iff}

abbrev pub Map {ℓ} : Type ℓ → Type ℓ
Map V = List (Text × V)

module _ {ℓ} {V : Type ℓ} where
  unfoldable pub lookup : Text → Map V → Option V
  lookup k [] = none
  lookup k ((j, v) ∷ m) = if eq_text j k then some v else lookup k m

  unfoldable pub remove : Text → Map V → Map V
  remove k [] = []
  remove k ((j, v) ∷ m) = if eq_text j k then remove k m else (j, v) ∷ remove k m

  -- A present key keeps its place.
  unfoldable pub insert : Text → V → Map V → Map V
  insert k v [] = (k, v) ∷ []
  insert k v ((j, w) ∷ m) = if eq_text j k then (j, v) ∷ m else (j, w) ∷ insert k v m

  -- `retain`, by a test on the value
  unfoldable pub retain : (V → Bool) → Map V → Map V
  retain p [] = []
  retain p ((k, v) ∷ m) = if p v then (k, v) ∷ retain p m else retain p m

  -- A change of the value in place, through `get_mut` or a shared pointer.
  unfoldable pub update : Text → (V → V) → Map V → Map V
  update k f [] = []
  update k f ((j, v) ∷ m) = if eq_text j k then (j, f v) ∷ m else (j, v) ∷ update k f m

  abbrev pub map_option : (V → V) → Option V → Option V
  map_option f none = none
  map_option f (some v) = some (f v)

  abbrev pub keys : Map V → List Text
  keys [] = []
  keys ((k, v) ∷ m) = k ∷ keys m

  abbrev pub values : Map V → List V
  values [] = []
  values ((k, v) ∷ m) = v ∷ values m

  -- No key stands twice.
  abbrev pub UniqueKeys : Map V → Type ℓ
  UniqueKeys [] = Unit
  UniqueKeys ((k, v) ∷ m) = (lookup k m ≡ none) × UniqueKeys m

  pub lookup-insert :
      (k j : Text) (v : V) (m : Map V)
      → lookup j (insert k v m) ≡ (if eq_text k j then some v else lookup j m)
  unfolding lookup insert
  lookup-insert k j v [] = refl
  lookup-insert k j v ((i, w) ∷ m) =
      ground (arith, eq_text_iff k j, eq_text_iff i k, eq_text_iff i j, lookup-insert k j v m)

  pub lookup-remove :
      (k j : Text) (m : Map V) → lookup j (remove k m) ≡ (if eq_text k j then none else lookup j m)
  unfolding lookup remove
  lookup-remove k j [] = ground arith
  lookup-remove k j ((i, w) ∷ m) =
      ground (arith, eq_text_iff k j, eq_text_iff i k, eq_text_iff i j, lookup-remove k j m)

  pub lookup-update :
      (k j : Text) (f : V → V) (m : Map V)
      → lookup j (update k f m) ≡ (if eq_text k j then map_option f (lookup j m) else lookup j m)
  unfolding lookup update
  lookup-update k j f [] = ground arith
  lookup-update k j f ((i, w) ∷ m) =
      ground (arith, eq_text_iff k j, eq_text_iff i k, eq_text_iff i j, lookup-update k j f m)

  pub length-update : (k : Text) (f : V → V) (m : Map V) → length (update k f m) ≡ length m
  unfolding update
  length-update k f [] = refl
  length-update k f ((i, w) ∷ m) = ground (arith, length-update k f m)

  pub lookup-retain-none :
      (p : V → Bool) (k : Text) (m : Map V) → lookup k m ≡ none → lookup k (retain p m) ≡ none
  unfolding lookup retain
  lookup-retain-none p k [] h = refl
  lookup-retain-none p k ((j, v) ∷ m) h = ground (arith, lookup-retain-none p k m)

  abbrev pub keep_if : (V → Bool) → Option V → Option V
  keep_if p none = none
  keep_if p (some v) = if p v then some v else none

  pub lookup-retain :
      (p : V → Bool) (k : Text) (m : Map V)
      → UniqueKeys m
      → lookup k (retain p m) ≡ keep_if p (lookup k m)
  unfolding lookup retain
  lookup-retain p k [] u = refl
  lookup-retain p k ((j, v) ∷ m) u =
      ground (arith, eq_text_iff j k, lookup-retain p k m u.1, lookup-retain-none p j m u.0)

  pub insert-UniqueKeys : (k : Text) (v : V) (m : Map V) → UniqueKeys m → UniqueKeys (insert k v m)
  unfolding lookup insert
  insert-UniqueKeys k v [] u = (refl, tt)
  insert-UniqueKeys k v ((j, w) ∷ m) u =
      ground (
        arith,
        eq_text_iff j k,
        eq_text_iff k j,
        insert-UniqueKeys k v m u.1,
        lookup-insert k j v m,
      )

  pub remove-UniqueKeys : (k : Text) (m : Map V) → UniqueKeys m → UniqueKeys (remove k m)
  unfolding lookup remove
  remove-UniqueKeys k [] u = tt
  remove-UniqueKeys k ((j, w) ∷ m) u =
      ground (arith, remove-UniqueKeys k m u.1, lookup-remove k j m)

  pub retain-UniqueKeys : (p : V → Bool) (m : Map V) → UniqueKeys m → UniqueKeys (retain p m)
  unfolding lookup retain
  retain-UniqueKeys p [] u = tt
  retain-UniqueKeys p ((j, w) ∷ m) u =
      ground (arith, retain-UniqueKeys p m u.1, lookup-retain-none p j m)

  pub update-UniqueKeys :
      (k : Text) (f : V → V) (m : Map V) → UniqueKeys m → UniqueKeys (update k f m)
  unfolding lookup update
  update-UniqueKeys k f [] u = tt
  update-UniqueKeys k f ((j, w) ∷ m) u =
      ground (arith, update-UniqueKeys k f m u.1, lookup-update k j f m)

  pub length-insert :
      (k : Text) (v : V) (m : Map V)
      → length (insert k v m) ≡ (if is_some (lookup k m) then length m else length m + 1)
  unfolding lookup insert
  length-insert k v [] = omega arith
  length-insert k v ((j, w) ∷ m) = ground (arith, length-insert k v m)

  pub length-remove-le : (k : Text) (m : Map V) → length (remove k m) ≤ length m
  unfolding remove
  length-remove-le k [] = omega arith
  length-remove-le k ((j, w) ∷ m) = ground (arith, length-remove-le k m)

pub ruleset map_laws = (lookup-insert, lookup-remove, lookup-update)
