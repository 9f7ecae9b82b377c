-- ===== src/LeastPrivilege/Tests.antt =====
-- Recommendations for small policies, and the theorems at them.
use aws_foundations.Base.{
  ℕ, ◌≡◌, refl, Bool, true, false, List, [], ◌∷◌, none, some, String, Result, ok, raised, Any,
  first, map, any, all, one_of, codes, has_char, text_eq, keep_if, All,
}
use aws_foundations.Base.Json.{Value, str, arr, obj, Fields, field, end, items, to_items, get, keys}
use aws_foundations.Base.Dicts.{put, same_value, size}
use aws_foundations.Base.Sorting.{sorted_set, place, text_ltb}
use aws_foundations.Failures.{contains}
use aws_foundations.Iam.{
  check_no_expansion, statements, values, texts, check_statement, check_statements, statement_list,
  listed, covered_folded, covered_by, covers_pair, contained,
}
use aws_foundations.Iam.Evidence.{starts_with}
use aws_foundations.Iam.Glob.{
  fnmatchcase, some_suffix, one_char, this_char, no_char, fnmatchcase_sound,
}
use aws_foundations.Iam.Plain.{lower_ascii, plain_reading}
use aws_foundations.Iam.Meaning.{
  Allows, written, texts_of, objects, written_list, written_statements,
}
use aws_foundations.Governance.{Decision, permit}
use aws_foundations.LeastPrivilege.Documents.{
  Problem, no_mapping, values_of, letters, rows, mapping, values_in, values_for, is_wildcard,
  over_broad, is_placeholder, contains_placeholder, one_or_list,
}
use aws_foundations.LeastPrivilege.Candidates.{
  document, default_version, in_lower, granted_by, needed_of, narrow_statement, narrow_all,
  static_candidate, product, statement_pairs, allowed_pairs, is_within, scope_statement, scope_all,
  scope_to_target,
}
use aws_foundations.LeastPrivilege.Narrow.{
  Verdict, Narrowing, widen, copy_statements, proof_copy, conclude, ask_aws, compared,
  evaluate_narrowing,
}
use aws_foundations.LeastPrivilege.Attempts.{
  static_estimate, Outcome, await_generation, Status, CodeActions, Attempt, status_for,
  unavailable_attempt, or_unavailable, or_unusable, missing_from, coverage_of, static_report,
  estimated_attempt, static_attempt,
}
use aws_foundations.LeastPrivilege.Recommend.{
  activity_attempt, attempts_for, first_with, chosen, Recommendation, recommend,
}
use aws_foundations.LeastPrivilege.Granted.{evaluate_narrowing_sound}
use aws_foundations.LeastPrivilege.Offers.{Offer, is_choice}
use aws_foundations.LeastPrivilege.Chosen.{recommend-Offer, recommend_sound}
use aws_foundations.LeastPrivilege.Kept.{Derived, static_candidate-Derived}
use aws_foundations.LeastPrivilege.Named.{names, static_candidate-names}
use aws_foundations.LeastPrivilege.Waiting.{is_settled, await_generation-settles}

abbrev fnmatch : List ℕ → List ℕ → Bool
fnmatch name pattern = fnmatchcase pattern name

abbrev allow : Value → Value → Value
allow action resource =
    obj (field "Effect" (str "Allow") (field "Action" action (field "Resource" resource end)))

abbrev policy : List Value → Fields
policy = document default_version

abbrev many : List String → Value
many ss = arr (to_items (map str ss))

abbrev broad : Fields
broad = policy (allow (str "s3:*") (str "*") ∷ [])

abbrev narrow : Fields
narrow = policy (allow (str "s3:GetObject") (str "*") ∷ [])

abbrev estimate : CodeActions
estimate = record { actions = "s3:GetObject" ∷ []; unresolved = [] }

abbrev permitted : Decision
permitted = record { outcome = permit; reason = "permitted"; policy_version = "1" }

running : Unit {0}
unfolding check_no_expansion statements check_statements check_statement statement_list values texts
    listed contained covers_pair covered_by covered_folded fnmatchcase some_suffix one_char
    this_char no_char text_eq has_char any all one_of codes items get keys written texts_of objects
    written_list written_statements to_items starts_with contains put same_value size sorted_set
    place text_ltb values_of letters rows mapping values_in values_for is_wildcard over_broad
    is_placeholder contains_placeholder one_or_list in_lower granted_by needed_of narrow_statement
    narrow_all static_candidate product statement_pairs allowed_pairs is_within scope_statement
    scope_all scope_to_target widen copy_statements proof_copy conclude ask_aws compared
    evaluate_narrowing status_for unavailable_attempt or_unavailable or_unusable missing_from
    coverage_of static_report estimated_attempt static_attempt activity_attempt attempts_for
    first_with chosen recommend keep_if names
running = tt

narrowed : static_candidate lower_ascii fnmatch broad ("s3:GetObject" ∷ []) ≡ ok (narrow, [])
unfolding running
narrowed = refl

-- A policy whose `Statement` is one statement and no list of them makes the walk raise.
one_statement :
    over_broad
      (field "Version" default_version (field "Statement" (allow (str "s3:*") (str "*")) end))
    ≡ raised no_mapping
unfolding running
one_statement = refl

-- An action that a mixed statement grants exactly is dropped with it, and reported as granted by none.
mixed_statement :
    static_candidate lower_ascii fnmatch
      (policy (allow (many ("s3:GetObject" ∷ "sqs:*" ∷ [])) (str "*") ∷ []))
      ("s3:GetObject" ∷ "sqs:SendMessage" ∷ [])
    ≡ ok (policy (allow (str "sqs:SendMessage") (str "*") ∷ []), "s3:GetObject" ∷ [])
unfolding running
mixed_statement = refl

-- Two pairs that are contained are kept as four, of which two are not.
crossed_pairs :
    scope_to_target lower_ascii
      (policy
        (allow (str "s3:GetObject") (str "arn:a") ∷ allow (str "s3:PutObject") (str "arn:b") ∷ []))
      (policy
        (allow (many ("s3:GetObject" ∷ "s3:PutObject" ∷ [])) (many ("arn:a" ∷ "arn:b" ∷ [])) ∷ []))
    ≡ ok (
      policy (
          allow (many ("s3:GetObject" ∷ "s3:PutObject" ∷ [])) (many ("arn:a" ∷ "arn:b" ∷ [])) ∷ []),
      [],
    )
unfolding running
crossed_pairs = refl

-- A policy that only loses an action which another of its patterns grants is called strictly
-- narrower, though it grants the same.
same_grants :
    (n : Narrowing) × (evaluate_narrowing lower_ascii none false
        (policy (allow (many ("s3:*" ∷ "s3:GetObject" ∷ [])) (str "*") ∷ []))
        broad
      ≡ ok n)
    × (n.verdict ≡ Verdict.strictly_narrower)
unfolding running
same_grants = (_, refl, refl)

-- The narrowing of the example, and the attempt and the recommendation that hold it.
abbrev proof : Narrowing
proof = record {
  verdict = Verdict.strictly_narrower;
  reason = "candidate_strictly_narrower";
  method = "static_identity_policy_subset";
  aws = none;
  removed_actions = "s3:*" ∷ [];
  removed_resources = [];
  retained_actions = "s3:GetObject" ∷ [];
  retained_resource_wildcards = 1;
  resource_placeholders = 0;
}

abbrev attempt : Attempt
attempt = record {
  method = static_estimate;
  status = Status.recommended;
  reasons = "candidate_strictly_narrower" ∷ [];
  candidate = some narrow;
  narrowing = some proof;
  coverage = some (record {
    code_actions = "s3:GetObject" ∷ [];
    unresolved_files = [];
    ungranted_by_original = [];
    missing_from_candidate = [];
    outside_target_scope = [];
  });
}

abbrev recommendation : Recommendation
recommendation = record {
  before = broad;
  status = some Status.recommended;
  attempts = attempt ∷ [];
}

recommended_run :
    recommend lower_ascii fnmatch permitted "static" "local" none estimate broad none
    ≡ ok recommendation
unfolding running
recommended_run = refl

-- The request of the example, granted by the candidate.
granted : Allows plain_reading lower_ascii (obj narrow) (codes "s3:getobject") (codes "arn")
unfolding running
granted = first (
  refl,
  first (fnmatchcase_sound (lower_ascii (codes "s3:GetObject")) (codes "s3:getobject") refl),
  first (fnmatchcase_sound (codes "*") (codes "arn") refl),
)

evaluate_narrowing_sound_example :
    Allows plain_reading lower_ascii (obj broad) (codes "s3:getobject") (codes "arn")
unfolding running
evaluate_narrowing_sound_example =
    evaluate_narrowing_sound plain_reading lower_ascii (codes "s3:getobject") (codes "arn") none
      false broad narrow proof refl refl refl granted

recommend_sound_example :
    Allows plain_reading lower_ascii (obj broad) (codes "s3:getobject") (codes "arn")
unfolding running
recommend_sound_example =
    recommend_sound plain_reading lower_ascii fnmatch permitted "static" "local" none estimate broad
      none recommendation attempt narrow proof (codes "s3:getobject") (codes "arn") recommended_run
      refl refl refl refl refl granted

recommend-Offer_example :
    (permitted.outcome ≡ permit)
    × (is_choice attempt.status ≡ true)
    × Offer lower_ascii none false broad attempt
unfolding running
recommend-Offer_example =
    recommend-Offer lower_ascii fnmatch permitted "static" "local" none estimate broad none
      recommendation attempt recommended_run refl

static_candidate-Derived_example :
    (vs : List Value) × (kept : List Value) × (rows (get "Statement" broad) ≡ ok vs)
    × (rows (get "Statement" narrow) ≡ ok kept)
    × All (λ w. Any (λ u. Derived lower_ascii fnmatch ("s3:GetObject" ∷ []) u w) vs) kept
static_candidate-Derived_example =
    static_candidate-Derived lower_ascii fnmatch ("s3:GetObject" ∷ []) broad narrow [] narrowed

static_candidate-names_example :
    (kept : List Value) × (rows (get "Statement" narrow) ≡ ok kept)
    × (any (names lower_ascii fnmatch ("s3:GetObject" ∷ []) "s3:GetObject") kept ≡ true)
unfolding running
static_candidate-names_example =
    static_candidate-names lower_ascii fnmatch ("s3:GetObject" ∷ []) broad narrow [] "s3:GetObject"
      narrowed refl refl

-- A job that stays in progress; the clock stands at 4 after each poll.
abbrev in_progress : ℕ → Result Problem Outcome
in_progress i =
    ok (record { status = "IN_PROGRESS"; policies = []; reason = none; is_complete = true })

await_generation-settles_example :
    (r : Result Problem Outcome) × (await_generation in_progress (λ i. 4) 1 3 1 ≡ some r)
    × (is_settled r ≡ true)
await_generation-settles_example = await_generation-settles in_progress (λ i. 4) 1 3 0 refl
