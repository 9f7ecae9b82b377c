-- ===== src/Base/Dicts.antt =====
-- Python's dict update, truth value and equality on JSON values, and `sorted(set(…))` of texts.
use aws_foundations.Base.{
  ℕ, ◌+◌, ◌==◌, ◌≡◌, refl, Bool, true, false, not, ◌&&◌, none, some, String, ltb, str_eq,
  str_eq_sound, str_eq_refl, Bool-cases, inl, inr, arith, if◌then◌else◌,
}
use aws_foundations.Base.Int.{ℤ, pos, negsuc}
use aws_foundations.Base.Json.{
  Value, str, num, bool, null, obj, arr, Items, Fields, field, end, get,
}

-- `d[k] = v`: a key that is there keeps its place
unfoldable pub put : String → Value → Fields → Fields
put k v end = field k v end
put k v (field j w fs) =
    let rest = put k v fs in if str_eq j k then field j v fs else field j w rest

pub get-put : (k : String) (v : Value) (d : Fields) → get k (put k v d) ≡ some v
unfolding put get
get-put k v end = rw (str_eq_refl k) refl
get-put k v (field j w fs) = ground (arith, get-put k v fs)

pub get-put_ne :
    (k j : String) (v : Value) (d : Fields) → str_eq k j ≡ false → get j (put k v d) ≡ get j d
unfolding put get
get-put_ne k j v end h = rw h refl
get-put_ne k j v (field i w fs) h = elim (Bool-cases (str_eq i k)) [
  | inl same ↦ let e = str_eq_sound i k same in let away : str_eq i j ≡ false = cc in ground arith
  | inr differs ↦ ground (arith, get-put_ne k j v fs h)
]

-- `bool(value)`
abbrev pub truthy : Value → Bool
truthy (str s) = not (str_eq s "")
truthy (num (pos n)) = ltb 0 n
truthy (num (negsuc n)) = true
truthy (bool b) = b
truthy null = false
truthy (obj Fields.end) = false
truthy (obj _) = true
truthy (arr Items.nil) = false
truthy (arr _) = true

abbrev pub same_int : ℤ → ℤ → Bool
same_int (pos a) (pos b) = a == b
same_int (negsuc a) (negsuc b) = a == b
same_int _ _ = false

-- `True == 1` and `False == 0`
abbrev int_of : Bool → ℤ
int_of true = pos 1
int_of false = pos 0

unfoldable pub size : Fields → ℕ
size end = 0
size (field k v fs) = 1 + size fs

-- `a == b`, of dicts whatever the order of their keys
unfoldable mutual
  pub same_value : Value → Value → Bool
  same_value (str a) (str b) = str_eq a b
  same_value (num a) (num b) = same_int a b
  same_value (bool a) (num b) = same_int (int_of a) b
  same_value (num a) (bool b) = same_int a (int_of b)
  same_value (bool a) (bool b) = same_int (int_of a) (int_of b)
  same_value null null = true
  same_value (obj a) (obj b) = same_fields a b && size a == size b
  same_value (arr a) (arr b) = same_items a b
  same_value _ _ = false

  pub same_fields : Fields → Fields → Bool
  same_fields end other = true
  same_fields (field k v fs) other =
      elim (get k other) [ none ↦ false | some w ↦ same_value v w ] && same_fields fs other

  pub same_items : Items → Items → Bool
  same_items Items.nil Items.nil = true
  same_items (Items.cons v vs) (Items.cons w ws) = same_value v w && same_items vs ws
  same_items _ _ = false
