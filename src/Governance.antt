-- ===== src/Governance.antt =====
-- `Governance.evaluate` of agent/governance.py, and the Cedar policies that it loads,
-- agent/policies/remediation.cedar. The Cedar engine is a parameter: `engine verb context` is what
-- `is_authorized` answers for the policies. `is_blank` is whether `str.strip` leaves nothing.
pub mod Decisions
pub mod Policies
mod Tests
use aws_foundations.Base.{
  ℕ, Bool, true, false, not, ◌&&◌, ◌||◌, List, [], ◌∷◌, Option, none, some, String, Result, ok,
  raised, ltb, one_of, str_eq, if◌then◌else◌,
}

pub record Approval : Type 0 where
  pub proposal_id : String
  pub source_hash : String
  pub policy_version : String
  pub tenant : String
  pub environment : String
  pub reviewer : String
  pub expires_at : ℕ

-- The arguments of `evaluate`, with the approval apart.
pub record Operation : Type 0 where
  pub action : String
  pub tenant : String
  pub owner : String
  pub environment : String
  pub source_hash : String
  pub current_hash : String
  pub proposal_id : String
  pub validated : Bool
  pub runtime_validated : Bool
  pub access_safe : Bool

-- `Approval.matches`
unfoldable pub matches :
    (String → Bool) → Approval → String → String → String → String → String → ℕ → Bool
matches is_blank a proposal_id source_hash policy_version tenant environment now =
    not (is_blank a.reviewer)
    && ltb now a.expires_at
    && str_eq a.proposal_id proposal_id
    && str_eq a.source_hash source_hash
    && str_eq a.policy_version policy_version
    && str_eq a.tenant tenant
    && str_eq a.environment environment

-- The argument `approval`: none, a record, or something whose fields raise when they are read.
pub data Given : Type 0 where
  no_approval malformed : Given
  approval : Approval → Given

pub data Outcome : Type 0 where
  permit needs_human_approval deny : Outcome

pub record Decision : Type 0 where
  pub outcome : Outcome
  pub reason : String
  pub policy_version : String

-- The context of a request to Cedar.
pub record Context : Type 0 where
  pub same_tenant : Bool
  pub known_environment : Bool
  pub fresh : Bool
  pub validated : Bool
  pub runtime_validated : Bool
  pub access_safe : Bool
  pub approved : Bool

-- What the engine does with a request: it raises, or returns whether there were errors, and whether
-- it allows.
pub data Reply : Type 0 where
  broken : Reply
  replied : Bool → Bool → Reply

abbrev pub Engine : Type 0
Engine = String → Context → Reply

-- the inner `allowed`
unfoldable pub allowed : Reply → Result (Unit {0}) Bool
allowed broken = raised tt
allowed (replied errors allows) = if errors then raised tt else ok allows

unfoldable pub context_of : Operation → Bool → Context
context_of o approved = record {
  same_tenant = not (str_eq o.tenant "") && str_eq o.tenant o.owner;
  known_environment = one_of o.environment ("development" ∷ "staging" ∷ "production" ∷ []);
  fresh = not (str_eq o.source_hash "") && str_eq o.source_hash o.current_hash;
  validated = o.validated;
  runtime_validated = o.runtime_validated;
  access_safe = o.access_safe;
  approved = approved;
}

abbrev pub decision : Outcome → String → String → Decision
decision outcome reason version = record {
  outcome = outcome;
  reason = reason;
  policy_version = version;
}

abbrev policy_error : String → Decision
policy_error version = decision deny "Cedar policy or evaluation error" version

abbrev denied : String → Decision
denied version = decision deny "Cedar denies this operation" version

-- the second question, whether a review is allowed
unfoldable pub review_or_deny : String → Result (Unit {0}) Bool → Decision
review_or_deny version (raised _) = policy_error version
review_or_deny version (ok true) =
    decision needs_human_approval "Approval must bind this exact proposal" version
review_or_deny version (ok false) = denied version

unfoldable pub is_reviewable : Operation → Bool → Bool
is_reviewable o approved =
    str_eq o.action "openPR" && o.validated && o.runtime_validated && o.access_safe && not approved

unfoldable pub decide : Engine → String → Operation → Bool → Decision
decide engine version o approved =
    let context = context_of o approved in
    elim (allowed (engine o.action context)) [
      | raised _ ↦ policy_error version
      | ok true ↦ decision permit "Cedar permits this operation" version
      | ok false ↦
          if is_reviewable o approved
          then review_or_deny version (allowed (engine "review" context))
          else denied version
    ]

unfoldable pub is_approved : (String → Bool) → String → Operation → Approval → ℕ → Bool
is_approved is_blank version o a now =
    matches is_blank a o.proposal_id o.source_hash version o.tenant o.environment now

unfoldable pub evaluate : (String → Bool) → Engine → String → Operation → Given → ℕ → Decision
evaluate is_blank engine version o malformed now = decision deny "Invalid approval record" version
evaluate is_blank engine version o no_approval now = decide engine version o false
evaluate is_blank engine version o (approval a) now =
    decide engine version o (is_approved is_blank version o a now)

-- remediation.cedar: the condition that three of its policies share
abbrev pub is_trusted : Context → Bool
is_trusted c = c.same_tenant && c.known_environment && c.fresh

-- "allow-review", "allow-proposal" and "allow-pr"
unfoldable pub permits : String → Context → Bool
permits action c =
    str_eq action "review" && is_trusted c
    || str_eq action "propose" && is_trusted c
    || str_eq action "openPR"
      && is_trusted c
      && c.validated
      && c.runtime_validated
      && c.access_safe
      && c.approved

-- "forbid-direct-mutation" and "forbid-untrusted-or-stale"
unfoldable pub forbids : String → Context → Bool
forbids action c =
    (str_eq action "directCommit" || str_eq action "merge" || str_eq action "deploy")
    || not (is_trusted c)

-- Cedar allows what some policy permits and none forbids.
unfoldable pub remediation : Engine
remediation action c = replied false (permits action c && not (forbids action c))
