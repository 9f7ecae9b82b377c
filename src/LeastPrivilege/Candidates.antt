-- ===== src/LeastPrivilege/Candidates.antt =====
-- The candidates of agent/least_privilege.py: from the calls that the source makes, and from the
-- activity that AWS observed.
use aws_foundations.Base.{
  is_empty, ℕ, Bool, true, false, not, ◌&&◌, List, [], ◌∷◌, ◌++◌, map, Option, none, some, String,
  Result, ok, ◌>>=◌, ◌>>◌, raise_if, any, keep_if, one_of, codes, text_eq, str_eq, if◌then◌else◌,
}
use aws_foundations.Base.Json.{Value, str, arr, obj, Fields, field, end, get, to_items}
use aws_foundations.Base.Dicts.{put, truthy}
use aws_foundations.Base.Sorting.{sorted_set}
use aws_foundations.Iam.{covered_by}
use aws_foundations.LeastPrivilege.Documents.{
  Problem, value_error, values_of, rows, mapping, is_wildcard, one_or_list,
}

abbrev pub default_version : Value
default_version = str "2012-10-17"

abbrev pub document : Value → List Value → Fields
document version statements =
    field "Version" version (field "Statement" (arr (to_items statements)) end)

-- `before.get("Version", "2012-10-17")`
abbrev pub version_of : Option Value → Value
version_of none = default_version
version_of (some v) = v

-- `generated.get("Version") or "2012-10-17"`
abbrev pub version_or : Option Value → Value
version_or none = default_version
version_or (some v) = if truthy v then v else default_version

module _ (lower : List ℕ → List ℕ) where
  -- `value.lower() in _lower(values)`
  unfoldable pub in_lower : List String → String → Bool
  in_lower values value = any (λ v. text_eq (lower (codes value)) (lower (codes v))) values

module _ (lower : List ℕ → List ℕ) (fnmatch : List ℕ → List ℕ → Bool) where
  -- `_granted_by`
  unfoldable pub granted_by : String → String → Bool
  granted_by action pattern = fnmatch (lower (codes action)) (lower (codes pattern))

  -- the actions of a list that one of the patterns grants
  unfoldable pub needed_of : List String → List String → List String
  needed_of patterns actions = keep_if (λ a. any (granted_by a) patterns) actions

  -- one statement: what is kept of it, and the wanted actions that remain
  unfoldable pub narrow_statement : List String → Fields → List String → List Value × List String
  narrow_statement remaining s granted =
      let broad = keep_if is_wildcard granted in
      let needed = needed_of broad remaining in
      if is_empty broad
      then (obj s ∷ [], keep_if (λ a. not (in_lower lower granted a)) remaining)
      else (
        if is_empty needed then [] else obj (put "Action" (one_or_list needed) s) ∷ [],
        keep_if (λ a. not (one_of a needed)) remaining,
      )

  unfoldable pub narrow_all : List String → List Value → Result Problem (List Value × List String)
  narrow_all remaining [] = ok ([], remaining)
  narrow_all remaining (v ∷ vs) = do
    s ← mapping v
    granted ← values_of (get "Action" s)
    let one = narrow_statement remaining s granted
    rest ← narrow_all one.1 vs
    ok (one.0 ++ rest.0, rest.1)

  unfoldable pub static_candidate : Fields → List String → Result Problem (Fields × List String)
  static_candidate before wanted = do
    raise_if (is_empty wanted) (value_error "no_static_actions")
    statements ← rows (get "Statement" before)
    narrowed ← narrow_all wanted statements
    raise_if (is_empty narrowed.0) (value_error "no_reducible_actions")
    ok (document (version_of (get "Version" before)) narrowed.0, narrowed.1)

-- all statements of some documents
unfoldable pub all_rows : List Fields → Result Problem (List Value)
all_rows [] = ok []
all_rows (p ∷ ps) = do found ← rows (get "Statement" p); rest ← all_rows ps; ok (found ++ rest)

-- the first `Version` that is set
unfoldable pub first_version : List Fields → Value
first_version [] = default_version
first_version (p ∷ ps) =
    let rest = first_version ps in
    elim (get "Version" p) [ none ↦ rest | some v ↦ if truthy v then v else rest ]

unfoldable pub activity_candidate : List Fields → Result Problem Fields
activity_candidate policies = do
  statements ← all_rows policies
  raise_if (is_empty statements) (value_error "no_activity_history")
  ok (document (first_version policies) statements)

-- `[(a, r) for a in actions for r in resources]`
unfoldable pub product : List String → List String → List (String × String)
product [] rs = []
product (a ∷ more) rs = map (λ r. (a, r)) rs ++ product more rs

-- the pairs of one statement; its resources are looked at only if it has an action
unfoldable pub statement_pairs : Fields → Result Problem (List (String × String))
statement_pairs s = do
  actions ← values_of (get "Action" s)
  if is_empty actions
      then ok []
      else (do resources ← values_of (get "Resource" s); ok (product actions resources))

unfoldable pub allowed_pairs : List Value → Result Problem (List (String × String))
allowed_pairs [] = ok []
allowed_pairs (v ∷ vs) = do
  s ← mapping v
  pairs ← statement_pairs s
  rest ← allowed_pairs vs
  ok (pairs ++ rest)

abbrev pub has_action : List (String × String) → String → Bool
has_action pairs action = any (λ (p : String × String). str_eq action p.0) pairs

abbrev pub has_resource : List (String × String) → String → Bool
has_resource pairs resource = any (λ (p : String × String). str_eq resource p.1) pairs

module _ (lower : List ℕ → List ℕ) where
  unfoldable pub is_within : List (String × String) → String × String → Bool
  is_within allowed pair =
      any
        (λ (p : String × String).
          covered_by lower true pair.0 p.0 && covered_by lower false pair.1 p.1)
        allowed

  -- one generated statement: what is kept of it, and the actions that are outside
  unfoldable pub scope_statement :
      List (String × String) → Fields → List String → List String → List Value × List String
  scope_statement allowed s actions resources =
      let pairs = keep_if (is_within allowed) (product actions resources) in
      if is_empty pairs then ([], actions) else (
        obj (
              put "Resource" (one_or_list (keep_if (has_resource pairs) resources))
                (put "Action" (one_or_list (keep_if (has_action pairs) actions)) s))
            ∷ [],
        keep_if (λ a. not (has_action pairs a)) actions,
      )

  unfoldable pub scope_all :
      List (String × String) → List Value → Result Problem (List Value × List String)
  scope_all allowed [] = ok ([], [])
  scope_all allowed (v ∷ vs) = do
    s ← mapping v
    actions ← values_of (get "Action" s)
    resources ← values_of (get "Resource" s)
    let one = scope_statement allowed s actions resources
    rest ← scope_all allowed vs
    ok (one.0 ++ rest.0, one.1 ++ rest.1)

  unfoldable pub scope_to_target : Fields → Fields → Result Problem (Fields × List String)
  scope_to_target before generated = do
    permitted ← rows (get "Statement" before)
    allowed ← allowed_pairs permitted
    statements ← rows (get "Statement" generated)
    scoped ← scope_all allowed statements
    raise_if (is_empty scoped.0) (value_error "generated_policy_outside_target_scope")
    ok (document (version_or (get "Version" generated)) scoped.0, sorted_set scoped.1)
