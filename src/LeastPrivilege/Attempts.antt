-- ===== src/LeastPrivilege/Attempts.antt =====
-- The attempts of agent/least_privilege.py and the recommendation that is made of them, and the
-- polling of a generation job in agent/access_analyzer.py. Guidance texts and diffs are left out.
use aws_foundations.Base.{
  is_empty, ℕ, zero, suc, ◌+◌, Bool, false, not, ◌&&◌, ◌||◌, List, [], ◌∷◌, ◌++◌, Option, none,
  some, String, Result, ok, raised, ◌>>=◌, any, keep_if, str_eq, leb, if◌then◌else◌, is_some,
}
use aws_foundations.Base.Json.{Fields, get}
use aws_foundations.Base.Dicts.{truthy}
use aws_foundations.LeastPrivilege.Documents.{Problem, value_error, action_values}
use aws_foundations.LeastPrivilege.Candidates.{granted_by, static_candidate}
use aws_foundations.LeastPrivilege.Narrow.{Verdict, Narrowing, NoNewAccess, evaluate_narrowing}

pub data Method : Type 0 where
  access_analyzer_activity static_estimate : Method

pub data Status : Type 0 where
  recommended needs_review rejected unavailable : Status

-- what the scan of the source for boto3 calls found
pub record CodeActions : Type 0 where
  pub actions : List String
  pub unresolved : List String

pub record Coverage : Type 0 where
  pub code_actions : List String
  pub unresolved_files : List String
  pub ungranted_by_original : List String
  pub missing_from_candidate : List String
  pub outside_target_scope : List String

pub record Attempt : Type 0 where
  pub method : Method
  pub status : Status
  pub reasons : List String
  pub candidate : Option Fields
  pub narrowing : Option Narrowing
  pub coverage : Option Coverage

-- `Attempt.offered`
unfoldable pub offered : Attempt → Bool
offered attempt = elim attempt.status [
  | Status.recommended ↦ is_some attempt.candidate
  | Status.needs_review ↦ is_some attempt.candidate
  | _ ↦ false
]

unfoldable pub status_for : Verdict → Bool → Status
status_for Verdict.strictly_narrower review =
    if review then Status.needs_review else Status.recommended
status_for Verdict.inconclusive review = Status.needs_review
status_for _ review = Status.rejected

-- `_unavailable`
unfoldable pub unavailable_attempt : Method → String → Attempt
unavailable_attempt method reason = record {
  method = method;
  status = Status.unavailable;
  reasons = reason ∷ [];
  candidate = none;
  narrowing = none;
  coverage = none;
}

-- `except AnalysisUnavailable`, which passes any other exception on
unfoldable pub or_unavailable :
    {A : Type 0} → Method → Result Problem A → (A → Result Problem Attempt) → Result Problem Attempt
or_unavailable method (ok a) next = next a
or_unavailable method (raised (Problem.unavailable code)) next =
    ok (unavailable_attempt method code)
or_unavailable method (raised problem) next = raised problem

-- `except AnalysisUnavailable` and `except ValueError`
unfoldable pub or_unusable :
    {A : Type 0} → Method → Result Problem A → (A → Result Problem Attempt) → Result Problem Attempt
or_unusable method (raised (value_error message)) next = ok (unavailable_attempt method message)
or_unusable method call next = or_unavailable method call next

-- a reason, where a test holds
abbrev pub reason_if : Bool → String → List String
reason_if b reason = if b then reason ∷ [] else []

abbrev pub or_default : List String → String → List String
or_default [] reason = reason ∷ []
or_default rs reason = rs

-- a generation job's outcome; its status is `IN_PROGRESS`, `SUCCEEDED` or another
pub record Outcome : Type 0 where
  pub status : String
  pub policies : List Fields
  pub reason : Option String
  pub is_complete : Bool

-- `policy.get("Statement")` as a condition
unfoldable pub has_statement : Fields → Bool
has_statement policy = elim (get "Statement" policy) [ none ↦ false | some v ↦ truthy v ]

-- `no_activity`
unfoldable pub no_activity : Outcome → Bool
no_activity outcome = str_eq outcome.status "SUCCEEDED" && not (any has_statement outcome.policies)

-- The polling loop from poll `i` on: what the job answers to a poll and the clock after it are
-- given poll by poll. Out of fuel it returns `none`.
unfoldable pub await_from :
    (ℕ → Result Problem Outcome) → (ℕ → ℕ) → ℕ → ℕ → ℕ → Option (Result Problem Outcome)
await_from generated clock deadline zero i = none
await_from generated clock deadline (suc fuel) i =
    let rest = await_from generated clock deadline fuel (suc i) in
    elim (generated i) [
      | raised problem ↦ some (raised problem)
      | ok outcome ↦
          if not (str_eq outcome.status "IN_PROGRESS")
          then some (ok outcome)
          else if leb deadline (clock i)
          then some (raised (Problem.unavailable "generation_timeout"))
          else rest
    ]

-- `await_generation`, from the time on the clock and the timeout
unfoldable pub await_generation :
    (ℕ → Result Problem Outcome) → (ℕ → ℕ) → ℕ → ℕ → ℕ → Option (Result Problem Outcome)
await_generation generated clock started timeout fuel =
    await_from generated clock (started + timeout) fuel 0

abbrev pub or_failed : Option String → String
or_failed none = "access_analyzer_job_failed"
or_failed (some reason) = if str_eq reason "" then "access_analyzer_job_failed" else reason

module _ (lower : List ℕ → List ℕ) (fnmatch : List ℕ → List ℕ → Bool) where
  -- `CodeActions.missing_from`
  unfoldable pub missing_from : CodeActions → List String → List String
  missing_from estimate granted =
      keep_if (λ a. not (any (granted_by lower fnmatch a) granted)) estimate.actions

  -- `_coverage`, with the actions that are outside the replaced policy
  unfoldable pub coverage_of : CodeActions → Fields → Fields → List String → Result Problem Coverage
  coverage_of estimate before candidate outside = do
    old ← action_values before
    new ← action_values candidate
    ok (record {
      code_actions = estimate.actions;
      unresolved_files = estimate.unresolved;
      ungranted_by_original = missing_from estimate old;
      missing_from_candidate = missing_from estimate new;
      outside_target_scope = outside;
    })

  unfoldable pub static_report :
      CodeActions → Fields → Fields → List String → Narrowing → Result Problem Attempt
  static_report estimate before candidate dropped narrowing = do
    report ← coverage_of estimate before candidate []
    ok (record {
      method = static_estimate;
      status =
          status_for narrowing.verdict
            (not (is_empty dropped) || not (is_empty estimate.unresolved));
      reasons =
          or_default
            (reason_if (not (is_empty dropped)) "code_actions_not_granted_by_original"
              ++ reason_if (not (is_empty estimate.unresolved)) "code_actions_partially_unresolved"
              ++ elim narrowing.verdict [
                | Verdict.strictly_narrower ↦ []
                | _ ↦ narrowing.reason ∷ []
              ])
            "candidate_strictly_narrower";
      candidate = some candidate;
      narrowing = some narrowing;
      coverage = some report;
    })

  unfoldable pub estimated_attempt :
      Option NoNewAccess → Bool → CodeActions → Fields → Result Problem Attempt
  estimated_attempt generator verify estimate before =
      or_unusable static_estimate (static_candidate lower fnmatch before estimate.actions) λ made.
        or_unavailable static_estimate (evaluate_narrowing lower generator verify before made.0)
          λ narrowing. static_report estimate before made.0 made.1 narrowing

  unfoldable pub static_attempt :
      Option NoNewAccess → Bool → CodeActions → Fields → Result Problem Attempt
  static_attempt generator verify estimate before =
      if is_empty estimate.actions
      then ok (unavailable_attempt static_estimate "no_static_evidence")
      else estimated_attempt generator verify estimate before
