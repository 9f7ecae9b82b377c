-- ===== src/Iam/Evidence/Built.antt =====
-- A policy that is built from evidence is read back as one statement for each operation.
use aws_foundations.Base.{
  ℕ, suc, ◌==◌, ◌≡◌, refl, ap, Bool, true, false, ◌||◌, List, [], ◌∷◌, some, String, subst, ok,
  >>=-eq-ok, raise_if, ◌>>=◌, any, has_char, str_eq, eq_iff, codes, ltb, length, Bool-cases, inl,
  inr, arith, one_of,
}
use aws_foundations.Base.Json.{
  Value, str, arr, obj, Items, Fields, field, end, items, get, keys, to_items, items-to_items,
}
use aws_foundations.Iam.{
  texts, values, check_statement, check_statements, statement_list, statements,
}
use aws_foundations.Iam.Evidence.{
  starts_with, exact_operation, exact_operations, policy_from_evidence, count_message, grant_of,
  Operation, exact_operation-Operation,
}

-- A text that passes a test which the empty text fails is not empty.
not_empty :
    (s : String) (p : List ℕ → Bool) → p [] ≡ false → p (codes s) ≡ true → str_eq s "" ≡ false
unfolding codes
not_empty s p none_empty h = elim (Bool-cases (str_eq s "")) [
  | inr filled ↦ filled
  | inl empty ↦
      cc (subst (λ (t : String). p (codes t) ≡ true) ((eq_iff s "").0 empty) h, none_empty)
]

check_statement-grant_of :
    (a r : String)
    → str_eq a "" ≡ false
    → str_eq r "" ≡ false
    → check_statement (obj (grant_of a r)) ≡ ok (grant_of a r)
unfolding check_statement values texts any one_of keys get
check_statement-grant_of a r ha hr = ground arith

Operation-checked :
    (d : Fields) (v : Value) (o : Operation d v)
    → check_statement v ≡ ok (grant_of o.action o.resource)
Operation-checked d v o = rw o.statement (
    check_statement-grant_of o.action o.resource
      (not_empty o.action (has_char ":") (unfold has_char any in refl) o.colon)
      (not_empty o.resource (starts_with (codes "arn:")) (unfold codes starts_with in refl) o.arn))

-- The statements of a policy that was built, one for each operation.
pub data Built : List Fields → List Fields → Type 0 where
  none_left : Built [] []
  built :
      {d : Fields} {v : Value} {ds ss : List Fields} (o : Operation d v)
      → Built ds ss
      → Built (d ∷ ds) (grant_of o.action o.resource ∷ ss)

check_statements-cons :
    (v : Value) (s : Fields) (vs : List Value) (ss : List Fields)
    → check_statement v ≡ ok s
    → check_statements vs ≡ ok ss
    → check_statements (v ∷ vs) ≡ ok (s ∷ ss)
unfolding check_statements
check_statements-cons v s vs ss h k = rw h (rw k)

exact_operations-Built :
    (ds : List Fields) (vs : List Value)
    → exact_operations ds ≡ ok vs
    → (ss : List Fields) × (check_statements vs ≡ ok ss) × Built ds ss
unfolding exact_operations
exact_operations-Built [] [] h = ([], unfold check_statements in refl, none_left)
exact_operations-Built [] (v ∷ vs) h = cc
exact_operations-Built (d ∷ ds) vs h =
    let (v, e, k) = >>=-eq-ok (exact_operation d) _ h in
    let (rest, r, final) = >>=-eq-ok (exact_operations ds) _ k in
    let (ss, checked, b) = exact_operations-Built ds rest r in
    let o : Operation d v = exact_operation-Operation d v e in
    let same : v ∷ rest ≡ vs = cc in
    (
      grant_of o.action o.resource ∷ ss,
      subst (λ (ws : List Value). check_statements ws ≡ ok (grant_of o.action o.resource ∷ ss)) same
          (check_statements-cons v (grant_of o.action o.resource) rest ss (Operation-checked d v o)
            checked),
      built o b,
    )

length-exact_operations :
    (ds : List Fields) (vs : List Value) → exact_operations ds ≡ ok vs → length vs ≡ length ds
unfolding exact_operations
length-exact_operations [] [] h = refl
length-exact_operations [] (v ∷ vs) h = cc
length-exact_operations (d ∷ ds) vs h =
    let (v, e, k) = >>=-eq-ok (exact_operation d) _ h in
    let (rest, r, final) = >>=-eq-ok (exact_operations ds) _ k in
    let same : v ∷ rest ≡ vs = cc in
    subst (λ (ws : List Value). length ws ≡ suc (length ds)) same
      (ap suc (length-exact_operations ds rest r))

statement_list-to_items :
    (vs : List Value)
    → (length vs == 0) ≡ false
    → ltb 100 (length vs) ≡ false
    → statement_list (some (arr (to_items vs))) ≡ ok vs
unfolding statement_list to_items items
statement_list-to_items [] h k = cc
statement_list-to_items (v ∷ vs) h k = rw items-to_items (rw k)

abbrev document : Items → Fields
document found = field "Version" (str "2012-10-17") (field "Statement" (arr found) end)

statements-document :
    (found : Items) (vs : List Value) (ss : List Fields)
    → statement_list (some (arr found)) ≡ ok vs
    → check_statements vs ≡ ok ss
    → statements (obj (document found)) ≡ ok ss
unfolding statements any one_of keys get
statements-document found vs ss h k = rw h k

-- A policy that was built from evidence is one that the check can read.
pub policy_from_evidence-Built :
    (ds : List Fields) (policy : Value)
    → policy_from_evidence ds ≡ ok policy
    → (ss : List Fields) × (statements policy ≡ ok ss) × Built ds ss
unfolding policy_from_evidence
policy_from_evidence-Built ds policy h =
    let (_, counted, k) =
      >>=-eq-ok (raise_if (length ds == 0 || ltb 100 (length ds)) count_message)
        (λ _. exact_operations ds >>= λ vs. ok (obj (document (to_items vs)))) h in
    let (vs, e, final) = >>=-eq-ok (exact_operations ds) _ k in
    let (ss, checked, b) = exact_operations-Built ds vs e in
    let same : obj (document (to_items vs)) ≡ policy = cc in
    let size : length vs ≡ length ds = length-exact_operations ds vs e in
    let listed_all : statement_list (some (arr (to_items vs))) ≡ ok vs =
      statement_list-to_items vs (rw size (ground arith)) (rw size (ground arith)) in
    (
      ss,
      subst (λ (p : Value). statements p ≡ ok ss) same
          (statements-document (to_items vs) vs ss listed_all checked),
      b,
    )
