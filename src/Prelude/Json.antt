-- ===== src/Prelude/Json.antt =====
-- The values that `JSON.parse` makes. Numbers are integers: the source sends no others.
use mathlib.Core.Bool.{Bool}
use mathlib.Core.Option.{Option, none, some}
use corner_tasks.Prelude.Tests.{if◌then◌else◌}
use corner_tasks.Prelude.Text.{Text, text_eq}
use corner_tasks.Prelude.Int.{ℤ}

mutual
  pub data Json : Type 0 where
    null : Json
    boolean : Bool → Json
    num : ℤ → Json
    str : Text → Json
    arr : Items → Json
    obj : Fields → Json

  pub data Items : Type 0 where
    nil : Items
    cons : Json → Items → Items

  pub data Fields : Type 0 where
    end : Fields
    field : Text → Json → Fields → Fields

unfoldable pub field_of : Text → Fields → Option Json
field_of k end = none
field_of k (field j v rest) = if text_eq j k then some v else field_of k rest

-- `v.k`, where `v` is neither `null` nor `undefined`; `undefined` is `none`.
abbrev pub get_field : Text → Json → Option Json
get_field k (obj fields) = field_of k fields
get_field k _ = none

-- `typeof v === 'string'`
abbrev pub as_str : Option Json → Option Text
as_str (some (str s)) = some s
as_str _ = none

-- `typeof v === 'number'`
abbrev pub as_num : Option Json → Option ℤ
as_num (some (num n)) = some n
as_num _ = none
