-- ===== src/Transport/Config/Auth.antt =====
-- hermytt-transport/src/rest.rs: `[auth]` over a save of the configuration.
use hermytt.Prelude.{◌≡◌, refl, Bool, true, false, Option, none, some, Bool-cases, inl, inr}
use hermytt.Prelude.Text.{Text, codes, eq_text, eq_text_refl}
use hermytt.Prelude.Json.{
  Json, Fields, object, get, field_of, field_of-insert, field_of-remove, remove_field,
}
use hermytt.Transport.Config.{
  Printed, invalid, unserializable, printed, written, transport_ok, put_auth, existing_auth,
  prepared, store, save_config,
}

module _ (read_toml : Text → Option Json) where
  prepared-auth :
      (content : Option Text) (fs : Fields)
      → get (codes "auth") (prepared read_toml content (object fs))
        ≡ existing_auth read_toml content
  unfolding prepared
  prepared-auth content fs = by_auth (existing_auth read_toml content)
    where
      by_auth :
          (o : Option Json)
          → get (codes "auth") (put_auth o (object (remove_field (codes "auth") fs))) ≡ o
      by_auth none =
          rw (field_of-remove (codes "auth") (codes "auth") fs, eq_text_refl (codes "auth")) refl
      by_auth (some a) =
          rw
            (
              field_of-insert (codes "auth") (codes "auth") a (remove_field (codes "auth") fs),
              eq_text_refl (codes "auth"),
            )
            refl

  -- Every other setting is the one that was sent.
  pub prepared-others :
      (content : Option Text) (fs : Fields) (k : Text)
      → eq_text (codes "auth") k ≡ false
      → get k (prepared read_toml content (object fs)) ≡ field_of k fs
  unfolding prepared
  prepared-others content fs k n = by_auth (existing_auth read_toml content)
    where
      by_auth :
          (o : Option Json)
          → get k (put_auth o (object (remove_field (codes "auth") fs))) ≡ field_of k fs
      by_auth none = rw (field_of-remove (codes "auth") k fs, n) refl
      by_auth (some a) =
          rw
            (
              field_of-insert (codes "auth") k a (remove_field (codes "auth") fs),
              n,
              field_of-remove (codes "auth") k fs,
              n,
            )
            refl

module _ (read_toml : Text → Option Json) (print_toml : Json → Printed) where
  -- Whatever object is sent, and whether it is accepted or not, the `[auth]` of the configuration
  -- is after the request what it was before, if the disk takes the write and what was printed reads
  -- back. So no body can set or remove it; but a file that does not parse at that time counts as one
  -- without `[auth]`, and a save leaves it without.
  pub save_config-auth :
      (has_path : Bool) (content : Option Text) (fs : Fields)
      → (let body = prepared read_toml content (object fs) in
          (t : Text) → print_toml body ≡ printed t → read_toml t ≡ some body)
      → existing_auth read_toml
          (save_config read_toml print_toml has_path content (object fs) written).0
        ≡ existing_auth read_toml content
  unfolding save_config
  save_config-auth false content fs back = refl
  save_config-auth true content fs back =
      let body = prepared read_toml content (object fs) in
      elim (Bool-cases (transport_ok (get (codes "transport") body))) [
        | inl q ↦ rw q (by_print (print_toml body) refl)
        | inr q ↦ rw q refl
      ]
    where
      by_print :
          (p : Printed)
          → print_toml (prepared read_toml content (object fs)) ≡ p
          → existing_auth read_toml (store read_toml print_toml content written p).0
            ≡ existing_auth read_toml content
      by_print invalid e = refl
      by_print unserializable e = refl
      by_print (printed t) e = rw (back t e) (prepared-auth read_toml content fs)
