-- ===== src/Transport/Guard/Tests.antt =====
-- Runs on concrete values: the guards.
use hermytt.Prelude.{◌≡◌, ◌↔◌, refl, true, false, [], ◌∷◌, none, some}
use hermytt.Prelude.Text.{codes, trim, trim_start_by, trim_end_by}
use hermytt.Transport.Auth.{User, AuthState}
use hermytt.Transport.Guard.{auth_middleware, tcp_auth, provided, read_line}
use hermytt.Transport.Guard.Laws.{auth_middleware-exact, Admitted, sockets_ignore_users, IsUnseen}

abbrev ann : User
ann = record {
  username = codes "ann";
  password_hash = codes "pw";
  created_at = 1;
  last_login = none;
}

abbrev state : AuthState
state = record { users = ann ∷ []; sessions = []; users_file = [] }

auth_middleware-exact_example :
    ((auth_middleware (some (codes "key")) state none (some (codes "key")) none 5).1 ≡ true)
    ↔ Admitted (some (codes "key")) state none (provided (some (codes "key")) none) 5
auth_middleware-exact_example =
    auth_middleware-exact (some (codes "key")) state none (some (codes "key")) none 5

sockets_ignore_users_example :
    ((tcp_auth none (codes "hi\nls\n") ≡ true)
      × ((auth_middleware none state none (some (codes "hi")) none 5).1 ≡ false))
    ↔ IsUnseen none state none 5
unfolding trim trim_start_by trim_end_by read_line
sockets_ignore_users_example =
    (sockets_ignore_users none state none none (codes "hi") (codes "hi\nls\n") 5 refl).1
