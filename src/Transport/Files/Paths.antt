-- ===== src/Transport/Files/Paths.antt =====
-- `sanitize_filename` of hermytt-transport/src/rest.rs: where a name leads.
use hermytt.Prelude.{
  ℕ, ◌≡◌, ◌≢◌, refl, sym, ap, ◌∙◌, false, [], ◌∷◌, ◌++◌, none, some, arith, Bool-cases, inl, inr,
  any, ◌==◌, append-nil, subst,
}
use hermytt.Prelude.Text.{Text, codes, contains, split, split_from, starts_with}
use hermytt.Prelude.Pieces.{Lacks, split_from-piece}
use hermytt.Transport.Files.{sanitize_filename}

-- `dir.join(name)` for a relative name.
abbrev pub path : Text → Text → Text
path dir name = dir ++ b'/' ∷ name

split_from-slash :
    (cur dir name : Text)
    → split_from b'/' cur (path dir name) ≡ split_from b'/' cur dir ++ split_from b'/' [] name
unfolding split_from
split_from-slash cur [] name = refl
split_from-slash cur (c ∷ cs) name = elim (Bool-cases (c == b'/')) [
  | inl t ↦ rw (t, split_from-slash [] cs name) refl
  | inr t ↦ rw (t, split_from-slash (cur ++ c ∷ []) cs name) refl
]

any-Lacks : (sep : ℕ) (s : Text) → any (λ c. c == sep) s ≡ false → Lacks sep s
any-Lacks sep [] h = tt
any-Lacks sep (c ∷ cs) h = (ground arith, any-Lacks sep cs (ground arith))

-- A name that passes the check, joined to the directory, is a path whose components are those of
-- the directory and then the name alone, which is neither empty nor "..".
pub sanitize_filename-inside :
    (dir name : Text)
    → sanitize_filename name ≡ some name
    → (split b'/' (path dir name) ≡ split b'/' dir ++ name ∷ [])
      × ((name ≢ []) × (name ≢ codes ".."))
unfolding sanitize_filename split contains starts_with
sanitize_filename-inside dir name h = (
  split_from-slash [] dir name
      ∙ ap (λ w. split_from b'/' [] dir ++ w) (whole (any-Lacks b'/' name (ground (arith, h)))),
  (λ e. refused [] refl (subst passes e h), λ e. refused (codes "..") refl (subst passes e h)),
)
  where
    passes : Text → Type 0
    passes n = sanitize_filename n ≡ some n

    refused : (n : Text) → sanitize_filename n ≡ none → sanitize_filename n ≡ some n → ⊥
    refused n k l = cc

    whole : Lacks b'/' name → split_from b'/' [] name ≡ name ∷ []
    whole k = ap (split_from b'/' []) (sym (append-nil name)) ∙ split_from-piece b'/' [] name [] k
