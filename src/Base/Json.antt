-- ===== src/Base/Json.antt =====
-- JSON values as Python holds them. An object is a list of fields whose keys differ, so that the
-- first field of a key is its only one. Fractions are left out: no modelled code computes with one.
use Prim.Native.String.{String}
use mathlib.Core.Bool.{Bool, false}
use mathlib.Core.Path.{◌≡◌, refl, ap}
use mathlib.Core.Option.{Option, none, some}
use mathlib.Core.List.{List, [], ◌∷◌}
use text.Mathlib.Text.{◌==◌ as str_eq}
use aws_foundations.Base.Tests.{if◌then◌else◌}
use aws_foundations.Base.Int.{ℤ}

mutual
  pub data Value : Type 0 where
    str : String → Value
    num : ℤ → Value
    bool : Bool → Value
    null : Value
    obj : Fields → Value
    arr : Items → Value

  pub data Fields : Type 0 where
    end : Fields
    field : String → Value → Fields → Fields

  pub data Items : Type 0 where
    nil : Items
    cons : Value → Items → Items

unfoldable pub items : Items → List Value
items nil = []
items (cons v vs) = v ∷ items vs

-- `list(d)`
unfoldable pub keys : Fields → List String
keys end = []
keys (field k v fs) = k ∷ keys fs

-- `d.get(k)`
unfoldable pub get : String → Fields → Option Value
get k end = none
get k (field j v fs) = if str_eq j k then some v else get k fs

-- `isinstance(v, str)`
abbrev pub as_str : Value → Option String
as_str (str s) = some s
as_str _ = none

-- `value == s` for a text `s`; a missing field is no text
abbrev pub is_text : Option Value → String → Bool
is_text (some (str t)) s = str_eq t s
is_text _ s = false

-- the array of a list of values
unfoldable pub to_items : List Value → Items
to_items [] = nil
to_items (v ∷ vs) = cons v (to_items vs)

pub items-to_items : (vs : List Value) → items (to_items vs) ≡ vs
unfolding items to_items
items-to_items [] = refl
items-to_items (v ∷ vs) = ap (λ (r : List Value). v ∷ r) (items-to_items vs)
