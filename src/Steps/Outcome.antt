-- ===== src/Steps/Outcome.antt =====
-- What an assembled result says of its checks.
use aws_foundations.Base.{
  is_empty, ◌≡◌, ◌∙◌, ◌↔◌, refl, Bool, true, false, not, ◌&&◌, ◌||◌, List, [], ◌∷◌, ◌++◌, Option,
  String, all, any, keep_if, one_of, arith,
}
use aws_foundations.Base.Json.{Value}
use aws_foundations.Base.Sorting.{one_of-sorted_set}
use aws_foundations.Steps.{
  Check, is_planned, is_completed, planned, completed, incomplete, is_error, is_all, Status, failed,
  partial, completed_all, status_and_reason, all_categories, assemble,
}

-- a check that did what it had to do
abbrev pub is_settled : Check → Bool
is_settled c = is_completed c || not (is_planned c)

incomplete-all : (coverage : List Check) → is_empty (incomplete coverage) ≡ all is_settled coverage
unfolding incomplete planned keep_if all
incomplete-all [] = refl
incomplete-all (c ∷ cs) = ground (arith, incomplete-all cs)

-- a category of an incomplete check
abbrev pub is_missing : String → Check → Bool
is_missing category c = not (is_settled c) && one_of category c.categories

one_of-++ : (s : String) (xs ys : List String) → one_of s (xs ++ ys) ≡ (one_of s xs || one_of s ys)
unfolding one_of
one_of-++ s [] ys = refl
one_of-++ s (x ∷ xs) ys = ground (arith, one_of-++ s xs ys)

categories-any :
    (category : String) (coverage : List Check)
    → one_of category (all_categories (incomplete coverage)) ≡ any (is_missing category) coverage
unfolding incomplete planned keep_if all_categories any one_of
categories-any category [] = refl
categories-any category (c ∷ cs) = ground (
  arith,
  categories-any category cs,
  one_of-++ category c.categories (all_categories (incomplete cs)),
)

empty-split :
    (p : Check → Bool) (cs : List Check)
    → is_empty cs ≡ (is_empty (keep_if p cs) && is_empty (keep_if (λ c. not (p c)) cs))
unfolding keep_if
empty-split p [] = refl
empty-split p (c ∷ cs) = ground arith

all-completed : (s : Status) → (not (is_all s) ≡ false) ↔ (s ≡ completed_all)
all-completed failed = (λ h. cc, λ h. cc)
all-completed partial = (λ h. cc, λ h. cc)
all-completed completed_all = (λ h. refl, λ h. refl)

-- The status of an assembled result, with its reason, in every case.
status-cases :
    (coverage : List Check) (policy_status : Option String)
    → ((status_and_reason coverage policy_status).0 ≡ completed_all)
      ↔ ((all is_settled coverage && not (is_error policy_status)) ≡ true)
unfolding status_and_reason completed incomplete
status-cases coverage policy_status =
    let split : is_empty (planned coverage)
        ≡ (is_empty (completed coverage) && is_empty (incomplete coverage)) =
      empty-split is_completed (planned coverage) in
    let settled = incomplete-all coverage in (λ h. ground arith, λ h. ground arith)

-- A result is called completed exactly if every check succeeded or did not apply and the policy did
-- not end in an error, only then it is not resumable, and a category is listed as missing exactly if
-- it is one of a check that applied and did not succeed.
pub assemble-completed :
    (coverage : List Check) (findings : List Value) (policy_status : Option String)
    (explanation : Option Value × Option String) (category : String)
    → let r = assemble coverage findings policy_status explanation in
      ((r.status ≡ completed_all)
        ↔ ((all is_settled coverage && not (is_error policy_status)) ≡ true))
      × ((r.resumable ≡ false) ↔ (r.status ≡ completed_all))
      × (r.coverage.complete ≡ all is_settled coverage)
      × (one_of category r.coverage.missing_categories ≡ any (is_missing category) coverage)
unfolding assemble
assemble-completed coverage findings policy_status explanation category = (
  status-cases coverage policy_status,
  all-completed (status_and_reason coverage policy_status).0,
  incomplete-all coverage,
  one_of-sorted_set category (all_categories (incomplete coverage))
      ∙ categories-any category coverage,
)
