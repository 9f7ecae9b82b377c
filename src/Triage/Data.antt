-- ===== src/Triage/Data.antt =====
-- The data of agent/finding_policy.py: facts, requests to Cedar, decisions and triages.
use aws_foundations.Base.{ℕ, Bool, false, ◌&&◌, List, [], Option, some, String, leb}

pub record PolicyContext : Type 0 where
  pub tenant : String
  pub user : String
  pub owner : String
  pub environments : List String
  pub current_hash : String

pub record PolicyLimits : Type 0 where
  pub max_findings : ℕ
  pub summary_threshold : ℕ
  pub compound_threshold : ℕ

-- `PolicyLimits.__post_init__`: the limits that do not raise
unfoldable pub is_limits : PolicyLimits → Bool
is_limits l =
    leb 1 l.compound_threshold
    && leb l.compound_threshold l.summary_threshold
    && leb l.summary_threshold l.max_findings
    && leb l.max_findings 5000

-- What `facts` makes of a finding.
pub record Facts : Type 0 where
  pub id : String
  pub source : String
  pub category : String
  pub severity : String
  pub resource : String
  pub example : Bool
  pub valid_path : Bool
  pub evidence_class : String

pub record Report : Type 0 where
  pub content_hash : String
  pub is_complete : Bool

pub data Action : Type 0 where
  process review : Action

-- A request to Cedar, with the attributes of its finding.
pub record Request : Type 0 where
  pub action : Action
  pub facts : Facts
  pub resource_count : ℕ
  pub environment : Option String
  pub same_tenant : Bool
  pub valid : Bool
  pub complete : Bool
  pub fresh : Bool
  pub finding_count : ℕ

pub record Reply : Type 0 where
  pub errors : Bool
  pub allowed : Bool

pub data Outcome : Type 0 where
  permit needs_human_approval deny : Outcome

pub record Decision : Type 0 where
  pub finding_id : String
  pub outcome : Outcome
  pub policy_version : String
  pub content_hash : String
  pub effective_environment : Option String
  pub evidence_class : String
  pub effective_severity : String
  pub resource_count : ℕ
  pub evaluation_error : Bool

pub data Status : Type 0 where
  evaluated denied error capped : Status

pub record Triage : Type 0 where
  pub status : Status
  pub reason : Option String
  pub decisions : List Decision
  pub cedar_requests : ℕ
  pub cached : Bool

abbrev pub empty_triage : Status → String → ℕ → Triage
empty_triage status reason requests = record {
  status = status;
  reason = some reason;
  decisions = [];
  cedar_requests = requests;
  cached = false;
}
