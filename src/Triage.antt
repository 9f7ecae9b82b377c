-- ===== src/Triage.antt =====
-- The Cedar triage of findings of agent/finding_policy.py: the cap of `evaluate`, `_evaluate` and
-- `_evaluate_with_store`. The findings come as the facts that `facts` makes of them, already sorted.
-- Cedar is a parameter, which also stands for what is the same in all requests of a triage: the
-- policies, the user and the thresholds. The result leaves out Cedar's reasons, the counts by
-- category and the kind of processing. The cache key is a parameter too, the cache file that serves
-- without a store is not modelled, and nor is a store that raises.
pub mod Decisions
pub mod Retries
mod Data
mod Tests
unfoldable pub use Data.*
use aws_foundations.Base.{
  ℕ, ◌+◌, ◌*◌, Bool, true, false, not, ◌&&◌, ◌||◌, List, [], ◌∷◌, Option, none, some, String, ltb,
  leb, length, any, all, one_of, str_eq, if◌then◌else◌,
}
use aws_foundations.Base.Table.{Table, select, insert, triple_key}

abbrev known : List String
known = "development" ∷ "staging" ∷ "production" ∷ []

abbrev categories : List String
categories =
    "secret" ∷ "iam_wildcard" ∷ "missing_auth" ∷ "missing_input_validation"
    ∷ "missing_environment_variable" ∷ "unsafe_command_execution" ∷ []

-- more than one name in the set of a list's names
unfoldable pub is_mixed : List String → Bool
is_mixed [] = false
is_mixed (e ∷ es) = not (all (λ f. str_eq e f) es)

-- the effective environment: several count as production
unfoldable pub environment_of : List String → Option String
environment_of [] = none
environment_of (e ∷ es) =
    if is_mixed (e ∷ es) || one_of "production" (e ∷ es) then some "production" else some e

unfoldable pub is_valid : PolicyContext → Bool
is_valid c =
    not (str_eq c.tenant "")
    && not (str_eq c.user "")
    && not (str_eq c.owner "")
    && all (λ e. one_of e known) c.environments

unfoldable pub is_fresh : Report → PolicyContext → Bool
is_fresh r c = not (str_eq r.content_hash "") && str_eq r.content_hash c.current_hash

-- `counts[resource]`
unfoldable pub count_of : String → List Facts → ℕ
count_of resource [] = 0
count_of resource (f ∷ fs) =
    let rest = count_of resource fs in if str_eq f.resource resource then rest + 1 else rest

unfoldable pub request_for : List Facts → Report → PolicyContext → Facts → Action → Request
request_for all_facts r c f action = record {
  action = action;
  facts = f;
  resource_count = count_of f.resource all_facts;
  environment = environment_of c.environments;
  same_tenant = str_eq c.tenant c.owner;
  valid = is_valid c && f.valid_path && one_of f.category categories;
  complete = r.is_complete;
  fresh = is_fresh r c && str_eq f.source r.content_hash;
  finding_count = length all_facts;
}

unfoldable pub requests_of : List Facts → Report → PolicyContext → List Facts → List Request
requests_of all_facts r c [] = []
requests_of all_facts r c (f ∷ fs) =
    request_for all_facts r c f process
    ∷ request_for all_facts r c f review
    ∷ requests_of all_facts r c fs

unfoldable pub outcome_of : Reply → Reply → Outcome
outcome_of first second =
    if first.errors || second.errors
    then deny
    else if first.allowed
    then permit
    else if second.allowed
    then needs_human_approval
    else deny

abbrev decision_for : String → List Facts → Option String → Facts → Reply → Reply → Decision
decision_for version all_facts environment f first second = record {
  finding_id = f.id;
  outcome = outcome_of first second;
  policy_version = version;
  content_hash = f.source;
  effective_environment = environment;
  evidence_class = f.evidence_class;
  effective_severity = if f.example then "info" else f.severity;
  resource_count = count_of f.resource all_facts;
  evaluation_error = first.errors || second.errors;
}

-- the loop over the findings with two replies each; too few replies raise
unfoldable pub decisions_of :
    String → List Facts → Option String → List Facts → List Reply → Option (List Decision)
decisions_of version all_facts environment [] replies = some []
decisions_of version all_facts environment (f ∷ fs) (first ∷ second ∷ replies) =
    elim (decisions_of version all_facts environment fs replies) [
      | none ↦ none
      | some ds ↦ some (decision_for version all_facts environment f first second ∷ ds)
    ]
decisions_of version all_facts environment (f ∷ fs) _ = none

unfoldable pub summarize : ℕ → Option (List Decision) → Triage
summarize requests none = empty_triage error "cedar_evaluation_error" requests
summarize requests (some ds) = record {
  status = if any (λ d. d.evaluation_error) ds then error else evaluated;
  reason = none;
  decisions = ds;
  cedar_requests = requests;
  cached = false;
}

-- Cedar: whether the policies parse, and what a batch of requests returns, `none` if it raises.
pub record Engine : Type 0 where
  pub parses : Bool
  pub authorize : List Request → Option (List Reply)

-- an empty list of requests is not sent
unfoldable pub replies_to : Engine → List Request → Option (List Reply)
replies_to engine [] = if engine.parses then some [] else none
replies_to engine (r ∷ rs) = if engine.parses then engine.authorize (r ∷ rs) else none

unfoldable pub decide_all : Engine → String → List Facts → Report → PolicyContext → Triage
decide_all engine version fs r c =
    let requests = requests_of fs r c fs in
    summarize (length requests) (elim (replies_to engine requests) [
      | none ↦ none
      | some replies ↦ decisions_of version fs (environment_of c.environments) fs replies
    ])

abbrev is_some_environment : Option String → Bool
is_some_environment none = false
is_some_environment (some e) = true

unfoldable pub is_clean_context : Report → PolicyContext → Bool
is_clean_context r c =
    is_valid c
    && is_some_environment (environment_of c.environments)
    && str_eq c.tenant c.owner
    && r.is_complete
    && is_fresh r c

-- `_evaluate`
unfoldable pub evaluate_facts : Engine → String → List Facts → Report → PolicyContext → Triage
evaluate_facts engine version [] r c =
    if is_clean_context r c
    then decide_all engine version [] r c
    else empty_triage denied "missing_or_invalid_scan_context" 0
evaluate_facts engine version (f ∷ fs) r c = decide_all engine version (f ∷ fs) r c

-- the policy decisions of a store, by tenant, user and key
abbrev pub Stored : Type 0
Stored = Table ((String × String) × String) Triage

abbrev pub from_cache : Triage → Triage
from_cache t = record t { cached = true; cedar_requests = 0 }

abbrev is_error : Status → Bool
is_error error = true
is_error _ = false

abbrev or_own : Triage → Option Triage → Triage
or_own own none = own
or_own own (some stored) = from_cache stored

unfoldable pub keep_result : String × String → String → Triage → Stored → Triage × Stored
keep_result who key own s =
    if is_error own.status
    then (own, s)
    else (let (created, s') = insert (who, key) own s in
        (if created then own else or_own own (select (who, key) s'), s'))

-- `_evaluate_with_store`
unfoldable pub evaluate_with_store :
    Engine → String → String → List Facts → Report → PolicyContext → Stored → Triage × Stored
evaluate_with_store engine version key fs r c s = elim (select ((c.tenant, c.user), key) s) [
  | some stored ↦ (from_cache stored, s)
  | none ↦ keep_result (c.tenant, c.user) key (evaluate_facts engine version fs r c) s
]

-- `evaluate`, with a store
unfoldable pub evaluate :
    Engine
    → String
    → PolicyLimits
    → String
    → List Facts
    → Report
    → PolicyContext
    → Stored
    → Triage × Stored
evaluate engine version limits key fs r c s =
    if ltb limits.max_findings (length fs)
    then (empty_triage capped "finding_cap_exceeded" 0, s)
    else evaluate_with_store engine version key fs r c s
