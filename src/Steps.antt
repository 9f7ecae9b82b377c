-- ===== src/Steps.antt =====
-- `_assemble` of agent/orchestration/steps.py: the result of a run whose checks were merged. The
-- report, the policy's decisions and the explanation are passed on as they are; the template
-- explanation of the reasoning service is an argument, and prose is left out.
pub mod Outcome
mod Tests
use aws_foundations.Base.{
  is_empty, ℕ, Bool, true, false, not, ◌&&◌, ◌||◌, List, [], ◌∷◌, ◌++◌, map, Option, none, some,
  String, length, keep_if, str_eq, if◌then◌else◌,
}
use aws_foundations.Base.Json.{Value}
use aws_foundations.Base.Sorting.{sorted_set}

-- one row of the coverage
pub record Check : Type 0 where
  pub check : String
  pub status : String
  pub reason : Option String
  pub disposition : Option String
  pub review_id : Option String
  pub categories : List String
  pub cached : Bool

abbrev pub is_planned : Check → Bool
is_planned c = not (str_eq c.status "not_applicable")

abbrev pub is_completed : Check → Bool
is_completed c = str_eq c.status "succeeded"

unfoldable pub planned : List Check → List Check
planned coverage = keep_if is_planned coverage

unfoldable pub completed : List Check → List Check
completed coverage = keep_if is_completed (planned coverage)

unfoldable pub incomplete : List Check → List Check
incomplete coverage = keep_if (λ c. not (is_completed c)) (planned coverage)

-- `policy.get("status") == "error"`
abbrev pub is_error : Option String → Bool
is_error none = false
is_error (some status) = str_eq status "error"

pub data Status : Type 0 where
  failed partial completed_all : Status

unfoldable pub status_and_reason : List Check → Option String → Status × Option String
status_and_reason coverage policy_status =
    if not (is_empty (planned coverage)) && is_empty (completed coverage)
    then (failed, some "no_checks_completed")
    else if not (is_empty (incomplete coverage)) || is_error policy_status
    then (
      partial,
      some (if is_empty (incomplete coverage) then "policy_unavailable" else "incomplete_checks"),
    )
    else (completed_all, none)

-- the identities of reviews, of the checks that have one
unfoldable pub review_ids : List Check → List String
review_ids [] = []
review_ids (c ∷ cs) =
    let rest = review_ids cs in
    elim c.review_id [ none ↦ rest | some id ↦ if str_eq id "" then rest else id ∷ rest ]

unfoldable pub all_categories : List Check → List String
all_categories [] = []
all_categories (c ∷ cs) = c.categories ++ all_categories cs

pub record Coverage : Type 0 where
  pub complete : Bool
  pub planned_count : ℕ
  pub completed_count : ℕ
  pub incomplete_checks : List Check
  pub not_applicable : List String
  pub missing_categories : List String
  pub checks : List Check

pub record Assembled : Type 0 where
  pub status : Status
  pub reason : Option String
  pub error : Option String
  pub review_items : List String
  pub resumable : Bool
  pub coverage : Coverage
  pub findings : List Value
  pub explanation : Option Value
  pub explanation_status : String
  pub detectors_run : ℕ
  pub detectors_reused : ℕ

abbrev pub is_failed : Status → Bool
is_failed failed = true
is_failed _ = false

abbrev pub is_all : Status → Bool
is_all completed_all = true
is_all _ = false

-- the stored explanation with its status, or else the templates' if there is a finding
unfoldable pub explained :
    Option Value → Option String → (Unit {0} → Value) → List Value → Option Value × Option String
explained (some explanation) status template findings = (some explanation, status)
explained none status template [] = (none, status)
explained none status template (f ∷ fs) = (some (template tt), some "template_fallback")

-- `explanation_status or "skipped"`
abbrev pub or_skipped : Option String → String
or_skipped none = "skipped"
or_skipped (some status) = if str_eq status "" then "skipped" else status

unfoldable pub assemble :
    List Check → List Value → Option String → Option Value × Option String → Assembled
assemble coverage findings policy_status (explanation, explanation_status) =
    let (status, reason) = status_and_reason coverage policy_status in
    record {
      status = status;
      reason = reason;
      error = if is_failed status then some "ScanFailed" else none;
      review_items = sorted_set (review_ids (incomplete coverage));
      resumable = not (is_all status);
      coverage = record {
        complete = is_empty (incomplete coverage);
        planned_count = length (planned coverage);
        completed_count = length (completed coverage);
        incomplete_checks = incomplete coverage;
        not_applicable = map (λ (c : Check). c.check) (keep_if (λ c. not (is_planned c)) coverage);
        missing_categories = sorted_set (all_categories (incomplete coverage));
        checks = coverage;
      };
      findings = findings;
      explanation = explanation;
      explanation_status = or_skipped explanation_status;
      detectors_run = length (keep_if (λ c. not c.cached) (completed coverage));
      detectors_reused = length (keep_if (λ c. c.cached) (completed coverage));
    }
