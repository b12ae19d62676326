-- ===== src/Core/Exec/Laws.antt =====
-- hermytt-core/src/exec.rs: the part of a command's output that is kept.
use hermytt.Prelude.{
  ℕ, zero, suc, ◌-◌, ◌≤◌, ◌≡◌, refl, sym, ap, ◌∙◌, ◌||◌, List, [], ◌∷◌, ◌++◌, Option, none, some,
  if◌then◌else◌, arith, Bool-cases, inl, inr, leb, length, take, is_empty, length-append,
  length-take, append-nil, append_assoc, min,
}
use hermytt.Prelude.Text.{Text}
use hermytt.Core.Exec.{read_stream, exec, exited, max_output}

-- What a stream holds until its end or a failed read.
abbrev pub held : List (Option Text) → Text
held [] = []
held (none ∷ reads) = []
held (some t ∷ reads) = if is_empty t then [] else t ++ held reads

take-full : (n : ℕ) (s t : Text) → n ≤ length s → take n (s ++ t) ≡ take n s
take-full zero s t h = refl
take-full (suc n) [] t h = absurd (omega (arith, h))
take-full (suc n) (c ∷ cs) t h = ap (λ w. c ∷ w) (take-full n cs t (omega (arith, h)))

take-all : (n : ℕ) (s : Text) → length s ≤ n → take n s ≡ s
take-all zero [] h = refl
take-all zero (c ∷ cs) h = absurd (omega (arith, h))
take-all (suc n) [] h = refl
take-all (suc n) (c ∷ cs) h = ap (λ w. c ∷ w) (take-all n cs (omega (arith, h)))

take-append : (n : ℕ) (s t : Text) → length s ≤ n → take n (s ++ t) ≡ s ++ take (n - length s) t
take-append n [] t h = ap (λ k. take k t) (omega arith)
take-append zero (c ∷ cs) t h = absurd (omega (arith, h))
take-append (suc n) (c ∷ cs) t h =
    ap (λ w. c ∷ w) (take-append n cs t (omega (arith, h)) ∙ ap (λ k. cs ++ take k t) (omega arith))

take-twice : (n : ℕ) (s t : Text) → take n (take n s ++ t) ≡ take n (s ++ t)
take-twice zero s t = refl
take-twice (suc n) [] t = refl
take-twice (suc n) (c ∷ cs) t = ap (λ w. c ∷ w) (take-twice n cs t)

whole : (max : ℕ) (buf : Text) → length buf ≤ max → take max (buf ++ []) ≡ buf
whole max buf h = ap (take max) (append-nil buf) ∙ take-all max buf h

read_stream-held :
    (max : ℕ) (buf : Text) (reads : List (Option Text))
    → length buf ≤ max
    → read_stream max buf reads ≡ take max (buf ++ held reads)
unfolding read_stream
read_stream-held max buf [] h = sym (whole max buf h)
read_stream-held max buf (none ∷ reads) h = sym (whole max buf h)
read_stream-held max buf (some t ∷ reads) h = elim (Bool-cases (leb max (length buf))) [
  | inl full ↦
      rw full (sym (take-full max buf (held (some t ∷ reads)) (ground arith) ∙ take-all max buf h))
  | inr more ↦ rw more (elim (Bool-cases (is_empty t)) [
    | inl done ↦ rw done (sym (whole max buf h))
    | inr some_bytes ↦ rw some_bytes (
        read_stream-held max (buf ++ take (max - length buf) t) reads (
          rw (length-append buf (take (max - length buf) t), length-take (max - length buf) t)
            (omega (arith, h)))
        ∙ ap (take max) (append_assoc buf (take (max - length buf) t) (held reads))
        ∙ take-append max buf (take (max - length buf) t ++ held reads) h
        ∙ ap (λ w. buf ++ w) (take-twice (max - length buf) t (held reads))
        ∙ sym (take-append max buf (t ++ held reads) h))
  ])
]

-- A command that ends in time gives, from each of its streams, exactly the first 1048576 bytes that
-- the stream held before its end or a failed read, decoded, and it is marked as truncated exactly
-- when one of the streams had that many bytes or more.
pub exec-exact :
    (lossy : Text → Text) (out err : List (Option Text)) (code : Option ℕ)
    → exec lossy out err (exited code)
      ≡ some (record {
        stdout = lossy (take max_output (held out));
        stderr = lossy (take max_output (held err));
        exit_code = code;
        truncated = leb max_output (length (held out)) || leb max_output (length (held err));
      })
unfolding exec
exec-exact lossy out err code =
    rw
      (
        read_stream-held max_output [] out (omega arith),
        read_stream-held max_output [] err (omega arith),
        length-take max_output (held out),
        length-take max_output (held err),
        full (length (held out)),
        full (length (held err)),
      )
      refl
  where
    full : (n : ℕ) → leb max_output (min max_output n) ≡ leb max_output n
    full n = ground arith
