-- ===== src/LeastPrivilege/Narrow.antt =====
-- The narrowing verdict of agent/least_privilege.py: the local containment proof, what was removed,
-- and the second opinion of AWS.
use aws_foundations.Base.{
  is_empty, ℕ, ◌==◌, Bool, true, false, not, ◌&&◌, ◌||◌, List, [], ◌∷◌, map, Option, none, some,
  String, Result, ok, raised, ◌>>=◌, keep_if, one_of, str_eq, if◌then◌else◌,
}
use aws_foundations.Base.Json.{Value, str, arr, obj, Fields, get, to_items}
use aws_foundations.Base.Dicts.{put, same_value}
use aws_foundations.Base.Sorting.{sorted_set}
use aws_foundations.Iam.{AccessStatus, check_no_expansion}
use aws_foundations.LeastPrivilege.Documents.{
  Problem, value_error, values_of, rows, mapping, action_values, resource_values,
  contains_placeholder, is_placeholder, count_if,
}
use aws_foundations.LeastPrivilege.Candidates.{in_lower}

-- AWS's answer; `none` in its place is a check that was not run
pub record ExpansionCheck : Type 0 where
  pub status : AccessStatus
  pub method : String
  pub reasons : List String

pub data Verdict : Type 0 where
  strictly_narrower not_narrower expansion inconclusive : Verdict

pub record Narrowing : Type 0 where
  pub verdict : Verdict
  pub reason : String
  pub method : String
  pub aws : Option ExpansionCheck
  pub removed_actions : List String
  pub removed_resources : List String
  pub retained_actions : List String
  pub retained_resource_wildcards : ℕ
  pub resource_placeholders : ℕ

abbrev pub static_method : String
static_method = "static_identity_policy_subset"

-- `"*" if PLACEHOLDER in resource else resource`
unfoldable pub widen : String → String
widen resource = if is_placeholder resource then "*" else resource

unfoldable pub copy_statements : List Value → Result Problem (List Value)
copy_statements [] = ok []
copy_statements (v ∷ vs) = do
  s ← mapping v
  resources ← values_of (get "Resource" s)
  rest ← copy_statements vs
  ok (obj (put "Resource" (arr (to_items (map (λ r. str (widen r)) resources))) s) ∷ rest)

-- `_proof_copy`
unfoldable pub proof_copy : Fields → Result Problem Fields
proof_copy policy = do
  placeholders ← contains_placeholder policy
  if placeholders == 0 then ok policy else (do
    statements ← rows (get "Statement" policy)
    copied ← copy_statements statements
    ok (put "Statement" (arr (to_items copied)) policy))

abbrev pub same_status : AccessStatus → AccessStatus → Bool
same_status AccessStatus.safe AccessStatus.safe = true
same_status AccessStatus.expansion AccessStatus.expansion = true
same_status AccessStatus.inconclusive AccessStatus.inconclusive = true
same_status _ _ = false

-- AWS was asked, and this is its answer
abbrev pub answers : Option ExpansionCheck → AccessStatus → Bool
answers none status = false
answers (some check) status = same_status check.status status

abbrev pub authority : AccessStatus → Option ExpansionCheck → String
authority AccessStatus.safe aws = static_method
authority _ none = static_method
authority _ (some check) = check.method

-- the verdict once AWS has answered, or was not asked
unfoldable pub conclude : Narrowing → AccessStatus → Option ExpansionCheck → Narrowing
conclude proof local aws =
    if answers aws AccessStatus.expansion
    then record proof {
      verdict = Verdict.expansion;
      reason = "aws_check_reports_new_access";
      aws = aws;
    }
    else if same_status local AccessStatus.inconclusive && not (answers aws AccessStatus.safe)
    then record proof {
      verdict = Verdict.inconclusive;
      reason = "local_subset_proof_inconclusive";
      aws = aws;
    }
    else if answers aws AccessStatus.inconclusive
    then record proof {
      verdict = Verdict.inconclusive;
      reason = "aws_check_inconclusive";
      aws = aws;
    }
    else record proof {
      verdict = Verdict.strictly_narrower;
      reason = "candidate_strictly_narrower";
      method = authority local aws;
      aws = aws;
    }

-- `generator.no_new_access` of the policy generator, if one is configured
abbrev pub NoNewAccess : Type 0
NoNewAccess = Fields → Fields → Result Problem ExpansionCheck

unfoldable pub ask_aws :
    Option NoNewAccess → Bool → Fields → Fields → Result Problem (Option ExpansionCheck)
ask_aws generator false before candidate = ok none
ask_aws none true before candidate = raised (value_error "generator_required_for_aws_verification")
ask_aws (some no_new_access) true before candidate = do
  check ← no_new_access before candidate
  ok (some check)

module _ (lower : List ℕ → List ℕ) where
  unfoldable pub compared : Fields → Fields → Result Problem Narrowing
  compared before candidate = do
    old_actions ← action_values before
    new_actions ← action_values candidate
    old_resources ← resource_values before
    new_resources ← resource_values candidate
    placeholders ← contains_placeholder candidate
    ok (record {
      verdict = Verdict.inconclusive;
      reason = "not_evaluated";
      method = static_method;
      aws = none;
      removed_actions = sorted_set (keep_if (λ a. not (in_lower lower new_actions a)) old_actions);
      removed_resources = sorted_set (keep_if (λ r. not (one_of r new_resources)) old_resources);
      retained_actions = sorted_set new_actions;
      retained_resource_wildcards = count_if (λ r. str_eq r "*") new_resources;
      resource_placeholders = placeholders;
    })

  -- `verify == "aws"` is the flag
  unfoldable pub evaluate_narrowing :
      Option NoNewAccess → Bool → Fields → Fields → Result Problem Narrowing
  evaluate_narrowing generator verify before candidate = do
    copied ← proof_copy candidate
    let local = (check_no_expansion lower (obj before) (obj copied)).status
    proof ← compared before candidate
    if same_status local AccessStatus.expansion
        then ok (record proof { verdict = Verdict.expansion; reason = "candidate_expands_access" })
        else if same_value (obj candidate) (obj before)
            || is_empty proof.removed_actions && is_empty proof.removed_resources
        then ok (record proof { verdict = Verdict.not_narrower; reason = "candidate_not_narrower" })
        else (do aws ← ask_aws generator verify before candidate; ok (conclude proof local aws))
