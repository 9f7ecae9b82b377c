-- ===== src/LeastPrivilege/Recommend.antt =====
-- `_activity_attempt` and `recommend` of agent/least_privilege.py.
use aws_foundations.Base.{
  is_empty, ℕ, ◌==◌, Bool, true, false, not, ◌||◌, List, [], ◌∷◌, ◌++◌, Option, none, some, String,
  Result, ok, ◌>>=◌, ◌>>◌, raise_if, one_of, str_eq, if◌then◌else◌,
}
use aws_foundations.Base.Json.{Fields}
use aws_foundations.Governance as Governance
use aws_foundations.Governance.{Decision, permit}
use aws_foundations.LeastPrivilege.Documents.{Problem, value_error}
use aws_foundations.LeastPrivilege.Candidates.{activity_candidate, scope_to_target}
use aws_foundations.LeastPrivilege.Narrow.{Narrowing, NoNewAccess, evaluate_narrowing}
use aws_foundations.LeastPrivilege.Attempts as Attempts
use aws_foundations.LeastPrivilege.Attempts.{
  Method, access_analyzer_activity, Status, CodeActions, Coverage, Attempt, status_for,
  unavailable_attempt, or_unavailable, or_unusable, reason_if, or_default, no_activity, or_failed,
  coverage_of, static_attempt,
}

-- The policy generator: it starts a job for a role, waits for the job's end (`await_generation`)
-- and answers whether a candidate allows anything new.
pub record Generator : Type 0 where
  pub start : String → Result Problem String
  pub wait : String → Result Problem Attempts.Outcome
  pub no_new_access : NoNewAccess

abbrev pub asks : Option Generator → Option NoNewAccess
asks none = none
asks (some generator) = some generator.no_new_access

-- `if not role_arn`
abbrev pub no_role : Option String → Bool
no_role none = true
no_role (some role) = str_eq role ""

module _ (lower : List ℕ → List ℕ) (fnmatch : List ℕ → List ℕ → Bool) where
  -- what the job's end gives: the candidate with the actions outside, and the outcome
  unfoldable pub observed_candidate :
      Generator → String → Fields → Result Problem ((Fields × List String) × Attempts.Outcome)
  observed_candidate generator role before = do
    job ← generator.start role
    outcome ← generator.wait job
    raise_if (not (str_eq outcome.status "SUCCEEDED"))
        (Problem.unavailable (or_failed outcome.reason))
    raise_if (no_activity outcome) (Problem.unavailable "no_activity_history")
    generated ← activity_candidate outcome.policies
    scoped ← scope_to_target lower before generated
    ok (scoped, outcome)

  unfoldable pub activity_report :
      CodeActions → Fields → Fields → List String → Bool → Narrowing → Result Problem Attempt
  activity_report estimate before candidate outside is_complete narrowing = do
    report ← coverage_of lower fnmatch estimate before candidate outside
    let placeholders = not (narrowing.resource_placeholders == 0)
    ok (record {
      method = access_analyzer_activity;
      status = status_for narrowing.verdict (placeholders || not (is_empty outside));
      reasons =
          or_default
            (reason_if (not is_complete) "access_analyzer_profile_incomplete"
              ++ reason_if (not (is_empty report.missing_from_candidate))
                  "code_calls_unseen_in_activity"
              ++ reason_if (not (is_empty outside)) "actions_outside_replaced_policy"
              ++ reason_if placeholders "resource_placeholders_need_review")
            narrowing.reason;
      candidate = some candidate;
      narrowing = some narrowing;
      coverage = some report;
    })

  unfoldable pub observed_attempt :
      Generator → Bool → CodeActions → Fields → String → Result Problem Attempt
  observed_attempt generator verify estimate before role =
      or_unusable access_analyzer_activity (observed_candidate generator role before) λ found.
        or_unavailable access_analyzer_activity
          (evaluate_narrowing lower (some generator.no_new_access) verify before found.0.0)
          λ narrowing.
            activity_report estimate before found.0.0 found.0.1 found.1.is_complete narrowing

  -- `_activity_attempt`
  unfoldable pub activity_attempt :
      Option Generator → Bool → CodeActions → Fields → Option String → Result Problem Attempt
  activity_attempt generator verify estimate before none =
      ok (unavailable_attempt access_analyzer_activity "role_required_for_activity")
  activity_attempt none verify estimate before (some role) = ok (
      unavailable_attempt access_analyzer_activity
        (if str_eq role "" then "role_required_for_activity" else "access_analyzer_not_configured"))
  activity_attempt (some generator) verify estimate before (some role) =
      if str_eq role ""
      then ok (unavailable_attempt access_analyzer_activity "role_required_for_activity")
      else observed_attempt generator verify estimate before role

  -- the attempts that the method asks for, in their order
  unfoldable pub attempts_for :
      String
      → Option Generator
      → Bool
      → CodeActions
      → Fields
      → Option String
      → Result Problem (List Attempt)
  attempts_for method generator verify estimate before role = do
    first ←
        (if one_of method ("auto" ∷ "activity" ∷ [])
          then (do a ← activity_attempt generator verify estimate before role; ok (a ∷ []))
          else ok [])
    second ←
        (if one_of method ("auto" ∷ "static" ∷ [])
          then (do
            a ← static_attempt lower fnmatch (asks generator) verify estimate before
            ok (a ∷ []))
          else ok [])
    ok (first ++ second)

abbrev pub same_status : Status → Status → Bool
same_status Status.recommended Status.recommended = true
same_status Status.needs_review Status.needs_review = true
same_status Status.rejected Status.rejected = true
same_status Status.unavailable Status.unavailable = true
same_status _ _ = false

unfoldable pub first_with : Status → List Attempt → Option Attempt
first_with status [] = none
first_with status (a ∷ as') =
    let rest = first_with status as' in if same_status a.status status then some a else rest

-- `chosen`: a recommended attempt, or else one that needs review
unfoldable pub chosen : List Attempt → Option Attempt
chosen attempts = elim (first_with Status.recommended attempts) [
  | some a ↦ some a
  | none ↦ first_with Status.needs_review attempts
]

pub record Recommendation : Type 0 where
  pub before : Fields
  -- `none` is the status "none"
  pub status : Option Status
  pub attempts : List Attempt

abbrev pub status_of : Option Attempt → Option Status
status_of none = none
status_of (some a) = some a.status

abbrev pub is_permit : Governance.Outcome → Bool
is_permit permit = true
is_permit _ = false

-- `recommend` on the policy of the target, once governance has decided on proposing
unfoldable pub recommend :
    (List ℕ → List ℕ)
    → (List ℕ → List ℕ → Bool)
    → Decision
    → String
    → String
    → Option Generator
    → CodeActions
    → Fields
    → Option String
    → Result Problem Recommendation
recommend lower fnmatch decision method verify generator estimate before role = do
  raise_if (not (one_of method ("auto" ∷ "activity" ∷ "static" ∷ [])))
      (value_error "unknown_method")
  raise_if (not (one_of verify ("local" ∷ "aws" ∷ []))) (value_error "unknown_verification")
  raise_if (not (is_permit decision.outcome)) (value_error decision.reason)
  attempts ← attempts_for lower fnmatch method generator (str_eq verify "aws") estimate before role
  ok (record { before = before; status = status_of (chosen attempts); attempts = attempts })
