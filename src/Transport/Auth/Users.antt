-- ===== src/Transport/Auth/Users.antt =====
-- hermytt-transport/src/auth.rs: the list of users under changes, deletion and addition.
use hermytt.Prelude.{
  ◌≡◌, refl, ◌∙◌, Bool, true, false, not, ◌||◌, List, [], ◌∷◌, ◌++◌, some, if◌then◌else◌, arith,
  Bool-cases, inl, inr, length, any, find_by, length-keep-le,
}
use hermytt.Prelude.Text.{Text, eq_text, eq_text_iff, eq_text_refl}
use hermytt.Transport.Auth.{User, is_named, others, change_first}

-- There is a user of this name.
abbrev pub has_user : Text → List User → Bool
has_user username = any (is_named username)

abbrev pub UniqueNames : List User → Type 0
UniqueNames [] = Unit
UniqueNames (u ∷ us) = (has_user u.username us ≡ false) × UniqueNames us

pub has_user-change_first :
    (k : Text) (p : User → Bool) (f : User → User) (us : List User)
    → ((u : User) → (f u).username ≡ u.username)
    → has_user k (change_first p f us) ≡ has_user k us
has_user-change_first k p f [] same = refl
has_user-change_first k p f (u ∷ us) same = elim (Bool-cases (p u)) [
  | inl t ↦ rw (t, same u)
  | inr t ↦ rw (t, has_user-change_first k p f us same)
]

pub change_first-UniqueNames :
    (p : User → Bool) (f : User → User) (us : List User)
    → ((u : User) → (f u).username ≡ u.username)
    → UniqueNames us
    → UniqueNames (change_first p f us)
change_first-UniqueNames p f [] same n = tt
change_first-UniqueNames p f (u ∷ us) same n = elim (Bool-cases (p u)) [
  | inl t ↦ rw (t, same u) n
  | inr t ↦
      rw t (
        has_user-change_first u.username p f us same ∙ n.0,
        change_first-UniqueNames p f us same n.1,
      )
]

pub has_user-others :
    (k name : Text) (us : List User)
    → has_user k (others name us) ≡ (if eq_text name k then false else has_user k us)
has_user-others k name [] = ground arith
has_user-others k name (u ∷ us) = ground (
  arith,
  has_user-others k name us,
  eq_text_iff u.username name,
  eq_text_iff u.username k,
  eq_text_iff name k,
)

pub others-UniqueNames :
    (name : Text) (us : List User) → UniqueNames us → UniqueNames (others name us)
others-UniqueNames name [] n = tt
others-UniqueNames name (u ∷ us) n =
    ground (arith, others-UniqueNames name us n.1, has_user-others u.username name us)

pub others_none :
    (name : Text) (us : List User) → length (others name us) ≡ length us → others name us ≡ us
others_none name [] h = refl
others_none name (u ∷ us) h =
    ground (arith, others_none name us, length-keep-le (λ v. not (is_named name v)) us)

pub has_user-concat :
    (k : Text) (us : List User) (u : User)
    → has_user k (us ++ u ∷ []) ≡ (has_user k us || is_named k u)
has_user-concat k [] u = ground arith
has_user-concat k (v ∷ us) u = ground (arith, has_user-concat k us u)

pub concat-UniqueNames :
    (us : List User) (u : User)
    → has_user u.username us ≡ false
    → UniqueNames us
    → UniqueNames (us ++ u ∷ [])
concat-UniqueNames [] u h n = (refl, tt)
concat-UniqueNames (v ∷ us) u h n = ground (
  arith,
  concat-UniqueNames us u,
  has_user-concat v.username us u,
  eq_text_iff u.username v.username,
  eq_text_iff v.username u.username,
)

pub find_by_has :
    (k : Text) (us : List User) (u : User)
    → find_by (is_named k) us ≡ some u
    → has_user u.username us ≡ true
find_by_has k [] u e = cc
find_by_has k (v ∷ us) u e = ground (arith, find_by_has k us u, eq_text_refl u.username)
