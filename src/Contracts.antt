-- ===== src/Contracts.antt =====
-- The run request contract of agent/orchestration/contracts.py: `validate_request` and its patterns.
-- `str.isprintable` is a parameter: Python's Unicode tables are not restated. Hashes are not modelled.
pub mod Accepted
mod Shapes
pub mod Tests
use aws_foundations.Base.{
  ℕ, ◌+◌, ◌==◌, Bool, true, false, not, ◌&&◌, ◌||◌, List, [], ◌∷◌, Option, none, some, String,
  Result, ok, raised, ◌>>=◌, ◌>>◌, raise_if, ltb, leb, length, any, all, one_of, codes, has_char,
  text_eq, str_eq, if◌then◌else◌,
}
use aws_foundations.Base.Int.{pos, negsuc}
use aws_foundations.Base.Json.{Value, null, bool, num, str, arr, obj, Items, Fields, items, get}
use Prim.Native.String.{compare}
use Prim.Native.Nat.{Ordering}

abbrev pub max_generations : ℕ
max_generations = 5

abbrev environment_names : List String
environment_names = "development" ∷ "staging" ∷ "production" ∷ []

abbrev audiences : List String
audiences = "beginner" ∷ "developer" ∷ []

abbrev between : ℕ → ℕ → ℕ → Bool
between lo hi c = leb lo c && leb c hi

-- `[A-Za-z0-9]`
unfoldable pub is_alnum : ℕ → Bool
is_alnum c = between b'A' b'Z' c || between b'a' b'z' c || between b'0' b'9' c

-- `[0-9a-f]`
unfoldable pub is_hex : ℕ → Bool
is_hex c = between b'0' b'9' c || between b'a' b'f' c

abbrev one_of_chars : String → ℕ → Bool
one_of_chars marks c = any (λ m. m == c) (codes marks)

-- an alphanumeric, then at most 127 more of a class
unfoldable pub named : (ℕ → Bool) → List ℕ → Bool
named more [] = false
named more (c ∷ t) = is_alnum c && all (λ d. is_alnum d || more d) t && leb (length t) 127

-- `PRINCIPAL.fullmatch`
unfoldable pub is_principal : String → Bool
is_principal s = named (one_of_chars "_.@:+-") (codes s)

-- the rest of a text behind a prefix
unfoldable pub after_prefix : List ℕ → List ℕ → Option (List ℕ)
after_prefix [] t = some t
after_prefix (c ∷ p) [] = none
after_prefix (c ∷ p) (d ∷ t) = if c == d then after_prefix p t else none

-- the text before a suffix
unfoldable pub before_suffix : List ℕ → List ℕ → Option (List ℕ)
before_suffix suffix [] = if text_eq suffix [] then some [] else none
before_suffix suffix (c ∷ t) =
    let rest = before_suffix suffix t in
    if text_eq (c ∷ t) suffix
    then some []
    else elim rest [ none ↦ none | some front ↦ some (c ∷ front) ]

unfoldable pub hex_32 : Option (List ℕ) → Bool
hex_32 none = false
hex_32 (some t) = all is_hex t && length t == 32

-- `RUN_ID.fullmatch`
unfoldable pub is_run_id : String → Bool
is_run_id s = hex_32 (after_prefix (codes "run-") (codes s))

unfoldable pub archive_name : Option (List ℕ) → Bool
archive_name none = false
archive_name (some t) = elim (before_suffix (codes ".zip") t) [
  | none ↦ false
  | some front ↦ named (one_of_chars "_.-") front
]

-- `UPLOAD_KEY.fullmatch`
unfoldable pub is_upload_key : String → Bool
is_upload_key s = archive_name (after_prefix (codes "upload:") (codes s))

-- `source.startswith("https://")`
unfoldable pub is_https : String → Bool
is_https s = elim (after_prefix (codes "https://") (codes s)) [ none ↦ false | some _ ↦ true ]

-- The request that the pipeline runs on.
pub record Request : Type 0 where
  pub tenant_id : String
  pub user_id : String
  pub run_id : String
  pub source_ref : String
  pub environments : List String
  pub audience : String
  pub generation : ℕ
  pub refresh : Bool

unfoldable pub insert_name : String → List String → List String
insert_name s [] = s ∷ []
insert_name s (t ∷ ts) = elim (compare s t) [
  | Ordering.lt ↦ s ∷ t ∷ ts
  | Ordering.eq ↦ t ∷ ts
  | Ordering.gt ↦ t ∷ insert_name s ts
]

-- `sorted(set(…))`
unfoldable pub sorted_set : List String → List String
sorted_set [] = []
sorted_set (s ∷ ss) = insert_name s (sorted_set ss)

-- `isinstance(v, str) and test(v)`, of a field that may be missing
unfoldable pub text_where : (String → Bool) → String → Option Value → Result String String
text_where test code (some (str s)) = if test s then ok s else raised code
text_where test code _ = raised code

-- The members of `environments`; an unhashable one is a `TypeError`.
unfoldable pub environment_list : List Value → Result String (List String)
environment_list [] = ok []
environment_list (str s ∷ vs) = do
  rest ← environment_list vs
  raise_if (not (one_of s environment_names)) "invalid_environments"
  ok (s ∷ rest)
environment_list (arr _ ∷ vs) = raised "TypeError"
environment_list (obj _ ∷ vs) = raised "TypeError"
environment_list (_ ∷ vs) = do rest ← environment_list vs; raised "invalid_environments"

unfoldable pub valid_environments : Option Value → Result String (List String)
valid_environments none = ok []
valid_environments (some (arr vs)) = do
  raise_if (ltb 3 (length (items vs))) "invalid_environments"
  environment_list (items vs)
valid_environments (some _) = raised "invalid_environments"

unfoldable pub valid_audience : Option Value → Result String String
valid_audience none = ok "beginner"
valid_audience (some v) = text_where (λ s. one_of s audiences) "invalid_audience" (some v)

unfoldable pub bounded_generation : ℕ → Result String ℕ
bounded_generation n = if leb n max_generations then ok n else raised "invalid_generation"

-- In Python a Boolean is an `int`.
unfoldable pub valid_generation : Option Value → Result String ℕ
valid_generation none = ok 0
valid_generation (some (num (pos n))) = bounded_generation n
valid_generation (some (bool true)) = ok 1
valid_generation (some (bool false)) = ok 0
valid_generation (some _) = raised "invalid_generation"

unfoldable pub is_true : Option Value → Bool
is_true (some (bool b)) = b
is_true _ = false

module _ (is_printable : String → Bool) where
  unfoldable pub is_source : String → Bool
  is_source s = leb 1 (length (codes s)) && leb (length (codes s)) 2048 && is_printable s

  unfoldable pub validate_fields : String → Fields → Result String Request
  validate_fields mode r = do
    tenant ← text_where is_principal "invalid_principal" (get "tenant_id" r)
    user ← text_where is_principal "invalid_principal" (get "user_id" r)
    run_id ← text_where is_run_id "invalid_run_id" (get "run_id" r)
    source ← text_where is_source "invalid_source_ref" (get "source_ref" r)
    raise_if (str_eq mode "aws" && not (is_https source || is_upload_key source))
        "unsupported_source_ref"
    environments ← valid_environments (get "environments" r)
    audience ← valid_audience (get "audience" r)
    generation ← valid_generation (get "generation" r)
    ok (record {
      tenant_id = tenant;
      user_id = user;
      run_id = run_id;
      source_ref = source;
      environments = sorted_set environments;
      audience = audience;
      generation = generation;
      refresh = is_true (get "refresh" r);
    })

  -- `validate_request`; `raised` carries the reason code
  unfoldable pub validate_request : Value → String → Result String Request
  validate_request (obj r) mode = validate_fields mode r
  validate_request _ mode = raised "invalid_request"
