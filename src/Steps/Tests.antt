-- ===== src/Steps/Tests.antt =====
-- Assembled results of small coverages, and the theorem at one.
use aws_foundations.Base.{
  ◌≡◌, ◌↔◌, refl, true, false, not, ◌&&◌, List, [], ◌∷◌, none, some, String, all, any, keep_if,
  one_of,
}
use aws_foundations.Steps.{
  Check, planned, completed, incomplete, is_error, partial, completed_all, status_and_reason,
  assemble,
}
use aws_foundations.Steps.Outcome.{is_settled, is_missing, assemble-completed}

abbrev row : String → String → List String → Check
row name status categories = record {
  check = name;
  status = status;
  reason = none;
  disposition = none;
  review_id = none;
  categories = categories;
  cached = false;
}

abbrev two_checks : List Check
two_checks =
    row "bandit" "succeeded" ("code" ∷ [])
    ∷ row "secrets" "failed" ("secrets" ∷ [])
    ∷ row "terraform" "not_applicable" ("infrastructure" ∷ [])
    ∷ []

partly : status_and_reason two_checks none ≡ (partial, some "incomplete_checks")
unfolding status_and_reason planned completed incomplete keep_if
partly = refl

-- A policy that could not decide leaves a complete scan partial.
undecided :
    status_and_reason (row "bandit" "succeeded" [] ∷ []) (some "error")
    ≡ (partial, some "policy_unavailable")
unfolding status_and_reason planned completed incomplete keep_if
undecided = refl

assemble-completed_example :
    let r = assemble two_checks [] (some "evaluated") (none, none) in
    ((r.status ≡ completed_all)
      ↔ ((all is_settled two_checks && not (is_error (some "evaluated"))) ≡ true))
    × ((r.resumable ≡ false) ↔ (r.status ≡ completed_all))
    × (r.coverage.complete ≡ all is_settled two_checks)
    × (one_of "secrets" r.coverage.missing_categories ≡ any (is_missing "secrets") two_checks)
assemble-completed_example =
    assemble-completed two_checks [] (some "evaluated") (none, none) "secrets"
