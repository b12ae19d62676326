-- ===== src/Prelude/Json.antt =====
-- `serde_json::Value` with the operations that the program calls. A number is the unsigned one that
-- it is, if it is one.
use Prim.Native.Nat.{ℕ}
use mathlib.Core.Path.{◌≡◌, refl}
use mathlib.Core.Bool.{Bool}
use mathlib.Core.Option.{Option, none, some}
use native.Mathlib.Omega.{arith}
use hermytt.Prelude.Tests.{if◌then◌else◌}
use hermytt.Prelude.Text.{Text, eq_text, eq_text_iff}

mutual
  pub data Json : Type 0 where
    null : Json
    bool : Bool → Json
    number : Option ℕ → Json
    string : Text → Json
    array : Items → Json
    object : Fields → Json

  pub data Items : Type 0 where
    no_items : Items
    item : Json → Items → Items

  pub data Fields : Type 0 where
    no_fields : Fields
    field : Text → Json → Fields → Fields

unfoldable pub field_of : Text → Fields → Option Json
field_of k no_fields = none
field_of k (field j v fs) = if eq_text j k then some v else field_of k fs

unfoldable pub remove_field : Text → Fields → Fields
remove_field k no_fields = no_fields
remove_field k (field j v fs) =
    if eq_text j k then remove_field k fs else field j v (remove_field k fs)

unfoldable pub insert_field : Text → Json → Fields → Fields
insert_field k w no_fields = field k w no_fields
insert_field k w (field j v fs) =
    if eq_text j k then field j w fs else field j v (insert_field k w fs)

-- `Value::get` by a key
abbrev pub get : Text → Json → Option Json
get k null = none
get k (bool b) = none
get k (number n) = none
get k (string s) = none
get k (array a) = none
get k (object fs) = field_of k fs

abbrev pub as_str : Json → Option Text
as_str null = none
as_str (bool b) = none
as_str (number n) = none
as_str (string s) = some s
as_str (array a) = none
as_str (object fs) = none

abbrev pub as_u64 : Json → Option ℕ
as_u64 null = none
as_u64 (bool b) = none
as_u64 (number n) = n
as_u64 (string s) = none
as_u64 (array a) = none
as_u64 (object fs) = none

abbrev pub as_array : Json → Option Items
as_array null = none
as_array (bool b) = none
as_array (number n) = none
as_array (string s) = none
as_array (array a) = some a
as_array (object fs) = none

-- `first` and `get(1)` of an array
abbrev pub item_0 : Items → Option Json
item_0 no_items = none
item_0 (item j js) = some j

abbrev pub item_1 : Items → Option Json
item_1 no_items = none
item_1 (item j js) = item_0 js

-- `Value::as_object_mut` followed by a change
abbrev pub on_object : (Fields → Fields) → Json → Json
on_object f null = null
on_object f (bool b) = bool b
on_object f (number n) = number n
on_object f (string s) = string s
on_object f (array a) = array a
on_object f (object fs) = object (f fs)

pub field_of-remove :
    (k j : Text) (fs : Fields)
    → field_of j (remove_field k fs) ≡ (if eq_text k j then none else field_of j fs)
unfolding field_of remove_field
field_of-remove k j no_fields = ground arith
field_of-remove k j (field i v fs) =
    ground (arith, eq_text_iff k j, eq_text_iff i k, eq_text_iff i j, field_of-remove k j fs)

pub field_of-insert :
    (k j : Text) (w : Json) (fs : Fields)
    → field_of j (insert_field k w fs) ≡ (if eq_text k j then some w else field_of j fs)
unfolding field_of insert_field
field_of-insert k j w no_fields = refl
field_of-insert k j w (field i v fs) =
    ground (arith, eq_text_iff k j, eq_text_iff i k, eq_text_iff i j, field_of-insert k j w fs)
