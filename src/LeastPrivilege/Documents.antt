-- ===== src/LeastPrivilege/Documents.antt =====
-- The policy documents of agent/least_privilege.py, as the code walks through them: what it does
-- on fields of unexpected types is written out.
use aws_foundations.Base.{
  ℕ, Bool, List, [], ◌∷◌, ◌++◌, map, Option, none, some, String, Result, ok, raised, ◌>>=◌, any,
  codes, has_char, if◌then◌else◌, keep_if, length,
}
use aws_foundations.Base.Json.{
  Value, str, num, bool, null, arr, obj, Fields, items, keys, get, to_items,
}
use aws_foundations.Base.Dicts.{truthy}
use aws_foundations.Iam.Meaning.{texts_of}
use aws_foundations.Failures.{contains}

-- What the code raises: `AnalysisUnavailable` with its code, `ValueError` with its message,
-- `AttributeError` where a mapping is expected and `TypeError` where an iterable is.
pub data Problem : Type 0 where
  unavailable value_error : String → Problem
  no_mapping no_iterable : Problem

-- `_values`, of a field that may be missing; iterating a dict gives its keys
unfoldable pub values_of : Option Value → Result Problem (List String)
values_of none = ok []
values_of (some (str s)) = ok (s ∷ [])
values_of (some (num n)) = if truthy (num n) then raised no_iterable else ok []
values_of (some (bool b)) = if b then raised no_iterable else ok []
values_of (some null) = ok []
values_of (some (obj d)) = ok (keys d)
values_of (some (arr vs)) = ok (texts_of (items vs))

-- the characters of a text, each a text
unfoldable pub letters : String → List Value
letters String.[] = []
letters (String.◌∷◌ c s) = str (String.◌∷◌ c String.[]) ∷ letters s

-- what `for statement in policy.get("Statement") or []` goes through
unfoldable pub rows : Option Value → Result Problem (List Value)
rows none = ok []
rows (some (str s)) = ok (letters s)
rows (some (num n)) = if truthy (num n) then raised no_iterable else ok []
rows (some (bool b)) = if b then raised no_iterable else ok []
rows (some null) = ok []
rows (some (obj d)) = ok (map str (keys d))
rows (some (arr vs)) = ok (items vs)

-- `statement.get(…)` and `dict(statement)` need a mapping
unfoldable pub mapping : Value → Result Problem Fields
mapping (obj d) = ok d
mapping _ = raised no_mapping

-- the loop of `_values_for`
unfoldable pub values_in : String → List Value → Result Problem (List String)
values_in key [] = ok []
values_in key (v ∷ vs) = do
  s ← mapping v
  found ← values_of (get key s)
  rest ← values_in key vs
  ok (found ++ rest)

unfoldable pub values_for : String → Fields → Result Problem (List String)
values_for key policy = do statements ← rows (get "Statement" policy); values_in key statements

abbrev pub action_values : Fields → Result Problem (List String)
action_values = values_for "Action"

abbrev pub resource_values : Fields → Result Problem (List String)
resource_values = values_for "Resource"

-- `any(char in pattern for char in WILDCARD)`
unfoldable pub is_wildcard : String → Bool
is_wildcard pattern = has_char "*?" (codes pattern)

unfoldable pub over_broad : Fields → Result Problem Bool
over_broad policy = do actions ← action_values policy; ok (any is_wildcard actions)

-- `PLACEHOLDER in resource`
unfoldable pub is_placeholder : String → Bool
is_placeholder resource = contains (codes "${") (codes resource)

abbrev pub count_if {ℓ} : {A : Type ℓ} → (A → Bool) → List A → ℕ
count_if p xs = length (keep_if p xs)

-- `_contains_placeholder`
unfoldable pub contains_placeholder : Fields → Result Problem ℕ
contains_placeholder policy = do
  resources ← resource_values policy
  ok (count_if is_placeholder resources)

-- one value of a list, and a list of any other length
unfoldable pub one_or_list : List String → Value
one_or_list (s ∷ []) = str s
one_or_list ss = arr (to_items (map str ss))
