-- ===== src/Iam.antt =====
-- The containment proof of agent/iam.py: a candidate identity policy grants nothing that the
-- original did not. `lower` is Python's `str.lower`, whose Unicode table is not restated here.
pub mod Glob
pub mod Meaning
pub mod Reading
pub mod Containment
pub mod Unchanged
pub mod Evidence
pub mod Plain
mod Tests
use aws_foundations.Base.{
  ℕ, Bool, true, false, not, ◌&&◌, ◌||◌, List, [], ◌∷◌, map, Option, none, some, String, Result, ok,
  raised, ◌>>=◌, ◌>>◌, raise_if, ltb, length, any, all, one_of, codes, has_char, text_eq, str_eq,
  if◌then◌else◌,
}
use aws_foundations.Base.Json.{
  Value, str, arr, obj, Items, Fields, field, end, items, keys, get, is_text,
}
use Glob.{fnmatchcase}

pub data AccessStatus : Type 0 where
  safe expansion inconclusive : AccessStatus

pub record AccessCheck : Type 0 where
  pub status : AccessStatus
  pub reason : String

abbrev no_values : String
no_values = "expected non-empty string or string array"

-- the non-empty texts of a list, if it holds nothing else
unfoldable pub texts : List Value → Result String (List String)
texts [] = ok []
texts (str s ∷ vs) = do raise_if (str_eq s "") no_values; rest ← texts vs; ok (s ∷ rest)
texts (v ∷ vs) = raised no_values

-- `_values`, of a field that may be missing
unfoldable pub values : Option Value → Result String (List String)
values (some (str s)) = texts (str s ∷ [])
values (some (arr Items.nil)) = raised no_values
values (some (arr vs)) = texts (items vs)
values _ = raised no_values

abbrev outside : List String → Fields → Bool
outside allowed d = any (λ k. not (one_of k allowed)) (keys d)

unfoldable pub check_statement : Value → Result String Fields
check_statement (obj s) = do
  raise_if (outside ("Sid" ∷ "Effect" ∷ "Action" ∷ "Resource" ∷ []) s)
      "Condition/NotAction/NotResource/Principal require AWS review"
  raise_if (not (is_text (get "Effect" s) "Allow")) "Deny semantics require AWS review"
  values (get "Action" s)
  values (get "Resource" s)
  ok s
check_statement v = raised "Condition/NotAction/NotResource/Principal require AWS review"

unfoldable pub check_statements : List Value → Result String (List Fields)
check_statements [] = ok []
check_statements (v ∷ vs) = do s ← check_statement v; rest ← check_statements vs; ok (s ∷ rest)

abbrev statement_count : String
statement_count = "expected 1–100 statements"

unfoldable pub statement_list : Option Value → Result String (List Value)
statement_list (some (obj s)) = ok (obj s ∷ [])
statement_list (some (arr Items.nil)) = raised statement_count
statement_list (some (arr vs)) = do
  raise_if (ltb 100 (length (items vs))) statement_count
  ok (items vs)
statement_list _ = raised statement_count

unfoldable pub statements : Value → Result String (List Fields)
statements (obj policy) = do
  raise_if (outside ("Version" ∷ "Id" ∷ "Statement" ∷ []) policy) "unsupported policy document"
  raise_if (not (is_text (get "Version" policy) "2012-10-17")) "unsupported policy version"
  found ← statement_list (get "Statement" policy)
  check_statements found
statements v = raised "unsupported policy document"

-- `_values(statement[key])` after `statements` has accepted the statement: it does not raise then.
unfoldable pub listed : String → Fields → List String
listed key s = elim (values (get key s)) [ ok vs ↦ vs | raised _ ↦ [] ]

-- `_covered` on texts that are folded already
unfoldable pub covered_folded : List ℕ → List ℕ → Bool
covered_folded candidate existing =
    if text_eq candidate existing || text_eq existing (codes "*")
    then true
    else if has_char "*?${}" candidate || has_char "[]${}" existing
    then false
    else fnmatchcase existing candidate

module _ (lower : List ℕ → List ℕ) where
  -- `_covered` and `covered_by`; the flag is `action`
  unfoldable pub covered_by : Bool → String → String → Bool
  covered_by action candidate existing =
      if action
      then covered_folded (lower (codes candidate)) (lower (codes existing))
      else covered_folded (codes candidate) (codes existing)

  unfoldable pub covers_pair : String → String → Fields → Bool
  covers_pair action resource existing =
      any (λ a. covered_by true action a) (listed "Action" existing)
      && any (λ r. covered_by false resource r) (listed "Resource" existing)

  unfoldable pub contained : List Fields → List Fields → Bool
  contained old new =
      all
        (λ s.
          all
            (λ action.
              all (λ resource. any (covers_pair action resource) old) (listed "Resource" s))
            (listed "Action" s))
        new

  unfoldable pub check_no_expansion : Value → Value → AccessCheck
  check_no_expansion before after = elim (statements before) [
    | raised error ↦ record { status = inconclusive; reason = error }
    | ok old ↦ elim (statements after) [
      | raised error ↦ record { status = inconclusive; reason = error }
      | ok new ↦
          if contained old new
          then record {
            status = safe;
            reason = "Every candidate action/resource pair is contained in the original";
          }
          else record { status = expansion; reason = "Candidate access is not provably contained" }
    ]
  ]
