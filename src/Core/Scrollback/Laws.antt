-- ===== src/Core/Scrollback/Laws.antt =====
-- `ScrollbackBuffer` of hermytt-core/src/session.rs: what it shows after any pushes.
use hermytt.Prelude.{
  ℕ, zero, suc, ◌-◌, ◌≤◌, ◌<◌, ◌≡◌, refl, ap, sym, ◌∙◌, List, [], ◌∷◌, ◌++◌, map, length,
  length-append, drop, arith, append_assoc, append-nil, length-drop,
}
use hermytt.Prelude.Text.{Text, split}
use hermytt.Core.Scrollback.{
  ScrollbackBuffer, new, clip, pop_front, push_line, push_lines, push, get_all,
}

-- The last `n` entries.
abbrev pub last {ℓ} : {A : Type ℓ} → ℕ → List A → List A
last n xs = drop (length xs - n) xs

-- Every line of a text, as it is stored.
abbrev pub stored_lines : Text → List Text
stored_lines text = map clip (split b'\n' text)

-- Every line that a sequence of pushes ever stored, oldest first.
abbrev pub history : List Text → List Text
history [] = []
history (t ∷ ts) = stored_lines t ++ history ts

abbrev pub push_all : ScrollbackBuffer → List Text → ScrollbackBuffer
push_all b [] = b
push_all b (t ∷ ts) = push_all (push b t) ts

module _ {ℓ} {A : Type ℓ} where
  drop-concat :
      (n : ℕ) (xs : List A) (x : A) → n ≤ length xs → drop n (xs ++ x ∷ []) ≡ drop n xs ++ x ∷ []
  drop-concat zero xs x h = refl
  drop-concat (suc n) [] x h = absurd (omega arith)
  drop-concat (suc n) (y ∷ xs) x h = drop-concat n xs x (omega arith)

  drop-suc : (n : ℕ) (xs : List A) (y : A) (ys : List A) → drop n xs ≡ y ∷ ys → drop (suc n) xs ≡ ys
  drop-suc zero [] y ys h = cc
  drop-suc zero (x ∷ xs) y ys h = cc
  drop-suc (suc n) [] y ys h = cc
  drop-suc (suc n) (x ∷ xs) y ys h = drop-suc n xs y ys h

pop_front-drop : (n : ℕ) (xs : List Text) → pop_front (drop n xs) ≡ drop (suc n) xs
pop_front-drop zero [] = refl
pop_front-drop zero (x ∷ xs) = refl
pop_front-drop (suc n) [] = refl
pop_front-drop (suc n) (x ∷ xs) = pop_front-drop n xs

-- Neither list is empty of room: the oldest line is dropped, and the rest is a longer `drop`.
push_line_full :
    (capacity : ℕ) (h : List Text) (x : Text)
    → 0 < capacity
    → capacity ≤ length h
    → pop_front (last capacity h) ++ x ∷ [] ≡ last capacity (h ++ x ∷ [])
push_line_full capacity h x pos full =
    rw
      (
        pop_front-drop (length h - capacity) h,
        sym (drop-concat (suc (length h - capacity)) h x (omega arith)),
      )
      (ap (λ n. drop n (h ++ x ∷ [])) {x = suc (length h - capacity)}
        (omega (arith, length-append h (x ∷ []))))

push_line_room :
    (capacity : ℕ) (h : List Text) (x : Text)
    → length h < capacity
    → last capacity h ++ x ∷ [] ≡ last capacity (h ++ x ∷ [])
push_line_room capacity h x room =
    let e : length h - capacity ≡ 0 = omega arith in
    let e' : length (h ++ x ∷ []) - capacity ≡ 0 = omega (arith, length-append h (x ∷ [])) in
    rw (e, e')

push_line-last :
    (capacity : ℕ) (h : List Text) (l : Text)
    → 0 < capacity
    → push_line capacity (last capacity h) l ≡ last capacity (h ++ clip l ∷ [])
unfolding push_line
push_line-last capacity h l pos = ground (
  arith,
  length-drop (length h - capacity) h,
  push_line_full capacity h (clip l) pos,
  push_line_room capacity h (clip l),
)

push_lines-last :
    (capacity : ℕ) (h ls : List Text)
    → 0 < capacity
    → push_lines capacity (last capacity h) ls ≡ last capacity (h ++ map clip ls)
unfolding push_lines
push_lines-last capacity h [] pos = rw (append-nil h)
push_lines-last capacity h (l ∷ ls) pos =
    rw (push_line-last capacity h l pos, push_lines-last capacity (h ++ clip l ∷ []) ls pos)
      (ap (last capacity) (append_assoc h (clip l ∷ []) (map clip ls)))

push_all-last :
    (b : ScrollbackBuffer) (h : List Text) (ts : List Text)
    → 0 < b.capacity
    → b.lines ≡ last b.capacity h
    → (push_all b ts).lines ≡ last b.capacity (h ++ history ts)
unfolding push
push_all-last b h [] pos e = rw (append-nil h) e
push_all-last b h (t ∷ ts) pos e =
    push_all-last (push b t) (h ++ stored_lines t) ts pos
      (rw e (push_lines-last b.capacity h (split b'\n' t) pos))
    ∙ ap (last b.capacity) (append_assoc h (stored_lines t) (history ts))

-- From a new buffer with room for at least one line, whatever texts are pushed, the buffer shows
-- exactly the last `capacity` lines of all the lines pushed, each clipped, oldest first.
pub get_all-push_all :
    (capacity : ℕ) (ts : List Text)
    → 0 < capacity
    → get_all (push_all (new capacity) ts) ≡ last capacity (history ts)
unfolding get_all new
get_all-push_all capacity ts pos = push_all-last (new capacity) [] ts pos (ground arith)
