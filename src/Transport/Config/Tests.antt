-- ===== src/Transport/Config/Tests.antt =====
-- Runs on concrete values: the configuration handlers.
use hermytt.Prelude.{◌≡◌, refl, sym, true, Option, some, if◌then◌else◌}
use hermytt.Prelude.Text.{Text, codes, eq_text}
use hermytt.Prelude.Json.{
  Json, object, string, number, Fields, field, no_fields, field_of, remove_field, insert_field,
}
use hermytt.Transport.Config.{Printed, printed, written, save_config, existing_auth, prepared}
use hermytt.Transport.Config.Auth.{save_config-auth}
use hermytt.Transport.Config.Validation.{save_config-IsValid, IsValid}

abbrev rest_section : Json
rest_section =
    object (
      field (codes "rest") (object (field (codes "port") (number (some 7777)) no_fields)) no_fields)

-- A body that tries to set a token.
abbrev body : Fields
body =
    field (codes "auth") (string (codes "mine")) (field (codes "transport") rest_section no_fields)

abbrev old : Json
old = object (field (codes "auth") (string (codes "secret")) no_fields)

abbrev new : Json
new = object (
    field (codes "transport") rest_section
      (field (codes "auth") (string (codes "secret")) no_fields))

abbrev read_toml : Text → Option Json
read_toml t = if eq_text t (codes "old") then some old else some new

abbrev print_toml : Json → Printed
print_toml j = printed (codes "new")

save_config-auth_example :
    existing_auth read_toml
      (save_config read_toml print_toml true (some (codes "old")) (object body) written).0
    ≡ existing_auth read_toml (some (codes "old"))
unfolding prepared eq_text field_of remove_field insert_field
save_config-auth_example =
    save_config-auth read_toml print_toml true (some (codes "old")) body
      (λ t e. rw (sym (printed_new t e)) refl)
  where
    printed_new : (t : Text) → printed (codes "new") ≡ printed t → codes "new" ≡ t
    printed_new t e = cc

save_config-IsValid_example : IsValid rest_section
unfolding save_config prepared eq_text field_of remove_field insert_field
save_config-IsValid_example =
    (save_config-IsValid read_toml print_toml (some (codes "old")) body written rest_section refl).0
      refl
