-- ===== src/Iam/Evidence.antt =====
-- `policy_from_evidence` of agent/iam.py: a policy from reviewed, exact operations.
pub mod Built
pub mod Grants
use aws_foundations.Base.{
  ℕ, suc, ◌==◌, ◌≡◌, ◌∙◌, ◌+◌, refl, sym, ap, Bool, true, false, not, ◌&&◌, ◌||◌, List, [], ◌∷◌,
  ◌++◌, Option, none, some, String, subst, Result, ok, raised, >>=-eq-ok, raise_if, ◌>>=◌, ◌>>◌,
  any, all, all_intro, any_intro, has_char, text_eq, text_eq_refl, str_eq, eq_iff, codes, ltb,
  length, Bool-cases, inl, inr, arith, if◌then◌else◌, one_of, str_eq_refl,
}
use aws_foundations.Base.Json.{
  Value, str, arr, obj, Items, Fields, field, end, items, get, keys, is_text, to_items,
  items-to_items,
}
use aws_foundations.Iam.{
  AccessStatus, AccessCheck, safe, texts, values, outside, check_statement, check_statements,
  statement_list, statements, listed, covered_folded, covered_by, covers_pair, contained,
  check_no_expansion,
}

abbrev exact_message : String
exact_message = "Exact action and ARN required; wildcards and variables are unsupported"

abbrev count_message : String
count_message = "Provide 1–100 reviewed action/resource operations"

-- `text.startswith(prefix)`
unfoldable pub starts_with : List ℕ → List ℕ → Bool
starts_with [] t = true
starts_with (c ∷ p) [] = false
starts_with (c ∷ p) (d ∷ t) = c == d && starts_with p t

-- a wildcard, a variable, a bracket or a line break
unfoldable pub inexact : List ℕ → Bool
inexact t = has_char "*?${}[]" t || any (λ c. c == 10 || c == 13) t

unfoldable pub text_operation : Option Value → Option Value → Result String Value
text_operation (some (str action)) (some (str resource)) = do
  raise_if
      (not (has_char ":" (codes action))
        || not (starts_with (codes "arn:") (codes resource))
        || inexact (codes action)
        || inexact (codes resource))
      exact_message
  ok (
      obj (
        field "Effect" (str "Allow")
          (field "Action" (str action) (field "Resource" (str resource) end))))
text_operation _ _ = raised "Operations must contain strings"

unfoldable pub exact_operation : Fields → Result String Value
exact_operation d = do
  raise_if
      (not (
        all (λ k. one_of k ("action" ∷ "resource" ∷ [])) (keys d)
        && one_of "action" (keys d)
        && one_of "resource" (keys d)))
      "Each operation needs exactly action and resource"
  text_operation (get "action" d) (get "resource" d)

unfoldable pub exact_operations : List Fields → Result String (List Value)
exact_operations [] = ok []
exact_operations (d ∷ ds) = do v ← exact_operation d; vs ← exact_operations ds; ok (v ∷ vs)

unfoldable pub policy_from_evidence : List Fields → Result String Value
policy_from_evidence operations = do
  raise_if (length operations == 0 || ltb 100 (length operations)) count_message
  result ← exact_operations operations
  ok (obj (field "Version" (str "2012-10-17") (field "Statement" (arr (to_items result)) end)))

-- the statement of one exact operation
abbrev pub grant_of : String → String → Fields
grant_of action resource =
    field "Effect" (str "Allow") (field "Action" (str action) (field "Resource" (str resource) end))

-- An operation that is accepted, with what its two texts are known to satisfy.
pub record Operation (d : Fields) (v : Value) : Type 0 where
  pub action : String
  pub resource : String
  pub from_action : get "action" d ≡ some (str action)
  pub from_resource : get "resource" d ≡ some (str resource)
  pub exact_action : inexact (codes action) ≡ false
  pub exact_resource : inexact (codes resource) ≡ false
  pub colon : has_char ":" (codes action) ≡ true
  pub arn : starts_with (codes "arn:") (codes resource) ≡ true
  pub statement : v ≡ obj (grant_of action resource)

text_operation-Operation :
    (d : Fields) (v : Value) (a r : Option Value)
    → get "action" d ≡ a
    → get "resource" d ≡ r
    → text_operation a r ≡ ok v
    → Operation d v
unfolding text_operation
text_operation-Operation d v (some (str a)) (some (str r)) ea er h = record {
  action = a;
  resource = r;
  from_action = ea;
  from_resource = er;
  exact_action = ground arith;
  exact_resource = ground arith;
  colon = ground arith;
  arn = ground arith;
  statement = ground arith;
}
text_operation-Operation d v (some (str a)) _ ea er h = cc
text_operation-Operation d v _ _ ea er h = cc

pub exact_operation-Operation : (d : Fields) (v : Value) → exact_operation d ≡ ok v → Operation d v
unfolding exact_operation
exact_operation-Operation d v h =
    text_operation-Operation d v (get "action" d) (get "resource" d) refl refl (ground arith)
