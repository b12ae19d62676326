-- ===== src/Core/Recording/Listing.antt =====
-- hermytt-core/src/recording.rs: the order of `list_recordings`.
use hermytt.Prelude.{
  ℕ, ◌≡◌, refl, ◌∙◌, Bool, true, false, List, [], ◌∷◌, Option, none, some, if◌then◌else◌, All,
  arith, Bool-cases, inl, inr, keep, ◌==◌,
}
use hermytt.Core.Recording.{
  RecordingInfo, Entry, older, insert_sorted, sort, read_entries, list_recordings,
}

-- Nothing that follows an entry is newer than it.
abbrev pub IsNewestFirst : List RecordingInfo → Type 0
IsNewestFirst [] = Unit
IsNewestFirst (x ∷ xs) = All (λ y. older x.modified y.modified ≡ false) xs × IsNewestFirst xs

abbrev pub same_time : Option ℕ → Option ℕ → Bool
same_time none none = true
same_time none (some b) = false
same_time (some a) none = false
same_time (some a) (some b) = a == b

abbrev pub at_time : Option ℕ → RecordingInfo → Bool
at_time t x = same_time t x.modified

older_trans : (a b c : Option ℕ) → older a b ≡ false → older b c ≡ false → older a c ≡ false
unfolding older
older_trans none none c h k = k
older_trans none (some b) c h k = absurd (ground (arith, h))
older_trans (some a) none none h k = refl
older_trans (some a) none (some c) h k = absurd (ground (arith, k))
older_trans (some a) (some b) none h k = refl
older_trans (some a) (some b) (some c) h k = ground (arith, h, k)

older-asym : (a b : Option ℕ) → older a b ≡ true → older b a ≡ false
unfolding older
older-asym none none h = refl
older-asym none (some b) h = refl
older-asym (some a) none h = absurd (ground (arith, h))
older-asym (some a) (some b) h = ground (arith, h)

older-times : (t a b : Option ℕ) → older a b ≡ true → same_time t a ≡ true → same_time t b ≡ false
unfolding older
older-times t none none h k = absurd (ground (arith, h))
older-times none none (some b) h k = refl
older-times (some s) none (some b) h k = absurd (ground (arith, k))
older-times t (some a) none h k = absurd (ground (arith, h))
older-times none (some a) (some b) h k = refl
older-times (some s) (some a) (some b) h k = ground (arith, h, k)

weaken :
    (x y : RecordingInfo) (zs : List RecordingInfo)
    → older x.modified y.modified ≡ false
    → All (λ z. older y.modified z.modified ≡ false) zs
    → All (λ z. older x.modified z.modified ≡ false) zs
weaken x y [] h a = tt
weaken x y (z ∷ zs) h a = (older_trans x.modified y.modified z.modified h a.0, weaken x y zs h a.1)

insert_sorted-All :
    (P : RecordingInfo → Type 0) (x : RecordingInfo) (ys : List RecordingInfo)
    → P x
    → All P ys
    → All P (insert_sorted x ys)
unfolding insert_sorted
insert_sorted-All P x [] p a = (p, tt)
insert_sorted-All P x (y ∷ ys) p a = elim (Bool-cases (older x.modified y.modified)) [
  | inl q ↦ rw q (a.0, insert_sorted-All P x ys p a.1)
  | inr q ↦ rw q (p, a)
]

insert_sorted-IsNewestFirst :
    (x : RecordingInfo) (ys : List RecordingInfo)
    → IsNewestFirst ys
    → IsNewestFirst (insert_sorted x ys)
unfolding insert_sorted
insert_sorted-IsNewestFirst x [] s = (tt, tt)
insert_sorted-IsNewestFirst x (y ∷ ys) s = elim (Bool-cases (older x.modified y.modified)) [
  | inl q ↦ rw q (
    insert_sorted-All (λ z. older y.modified z.modified ≡ false) x ys
        (older-asym x.modified y.modified q) s.0,
    insert_sorted-IsNewestFirst x ys s.1,
  )
  | inr q ↦ rw q ((q, weaken x y ys q s.0), s)
]

keep-insert_sorted :
    (t : Option ℕ) (x : RecordingInfo) (ys : List RecordingInfo)
    → keep (at_time t) (insert_sorted x ys)
      ≡ (if at_time t x then x ∷ keep (at_time t) ys else keep (at_time t) ys)
unfolding insert_sorted
keep-insert_sorted t x [] = refl
keep-insert_sorted t x (y ∷ ys) = elim (Bool-cases (older x.modified y.modified)) [
  | inl q ↦ ground (arith, q, keep-insert_sorted t x ys, older-times t x.modified y.modified q)
  | inr q ↦ rw q refl
]

sort-IsNewestFirst : (xs : List RecordingInfo) → IsNewestFirst (sort xs)
unfolding sort
sort-IsNewestFirst [] = tt
sort-IsNewestFirst (x ∷ xs) = insert_sorted-IsNewestFirst x (sort xs) (sort-IsNewestFirst xs)

keep-sort :
    (t : Option ℕ) (xs : List RecordingInfo) → keep (at_time t) (sort xs) ≡ keep (at_time t) xs
unfolding sort
keep-sort t [] = refl
keep-sort t (x ∷ xs) = keep-insert_sorted t x (sort xs) ∙ rw (keep-sort t xs) refl

-- The recordings of a directory are listed with the newest first and those without a time last, and
-- those of one time are the `.cast` entries of that time whose metadata could be read, all of them,
-- in the order in which the directory was read.
pub list_recordings-IsNewestFirst :
    (entries : List Entry) (t : Option ℕ)
    → IsNewestFirst (list_recordings entries)
      × (keep (at_time t) (list_recordings entries) ≡ keep (at_time t) (read_entries entries))
unfolding list_recordings
list_recordings-IsNewestFirst entries t =
    (sort-IsNewestFirst (read_entries entries), keep-sort t (read_entries entries))
