-- ===== src/Scans.antt =====
-- The scan records of agent/domain.py, their local store in agent/store.py, and the scan lifecycle of
-- agent/workflow.py. Each method is one transaction; a body is stored as the record it encodes.
-- SHA-256 is a parameter. The schema migration of old databases is not modelled.
pub mod Records
pub mod Lifecycle
mod Tests
use aws_foundations.Base.{
  ℕ, ◌+◌, Bool, true, false, not, ◌&&◌, ◌||◌, List, [], ◌∷◌, Option, none, some, String, Result, ok,
  raised, ltb, str_eq, any, codes, length, if◌then◌else◌,
}
use aws_foundations.Base.Json.{Value}
use aws_foundations.Base.Table.{Table, Key, select, update, insert, pair_key, triple_key}

pub data ScanStatus : Type 0 where
  queued running partial completed too_large timed_out failed cancelled : ScanStatus

pub data DeploymentStatus : Type 0 where
  requested awaiting_approval validating change_set_ready deploying succeeded rolled_back failed
        cancelled :
      DeploymentStatus

pub record Scan : Type 0 where
  pub tenant_id : String
  pub scan_id : String
  pub content_hash : String
  pub source_ref : String
  pub status : ScanStatus
  pub created_at : ℕ
  pub updated_at : ℕ
  pub execution_id : Option String
  pub revision : Option String

pub record DeploymentAttempt : Type 0 where
  pub tenant_id : String
  pub deployment_id : String
  pub scan_id : String
  pub proposal_id : String
  pub environment : String
  pub status : DeploymentStatus
  pub created_at : ℕ
  pub updated_at : ℕ
  pub change_set_arn : Option String
  pub rollback_status : Option String

-- What the store reads of a `Finding`: its identity, and the text that it becomes.
pub record Finding : Type 0 where
  pub finding_id : String
  pub body : Value

-- The primary keys are (tenant, scan_id), ((tenant, scan_id), finding_id), (tenant, deployment_id) and
-- ((tenant, user_id), cache_key).
pub record Store : Type 0 where
  pub scans : Table (String × String) Scan
  pub findings : Table ((String × String) × String) Value
  pub deployments : Table (String × String) DeploymentAttempt
  pub policy_decisions : Table ((String × String) × String) Value

abbrev pub empty : Store
empty = record { scans = []; findings = []; deployments = []; policy_decisions = [] }

-- the unique index scans(tenant, content_hash)
unfoldable pub has_content : String → String → Table (String × String) Scan → Bool
has_content tenant content_hash [] = false
has_content tenant content_hash (((t, _), scan) ∷ rows) =
    str_eq t tenant && str_eq scan.content_hash content_hash || has_content tenant content_hash rows

unfoldable pub create_scan : Scan → Store → Bool × Store
create_scan scan s =
    if has_content scan.tenant_id scan.content_hash s.scans
    then (false, s)
    else let (created, scans) = insert (scan.tenant_id, scan.scan_id) scan s.scans in
      (created, record s { scans = scans })

unfoldable pub get_scan : String → String → Store → Option Scan
get_scan tenant_id scan_id s = select (tenant_id, scan_id) s.scans

unfoldable pub set_found : Option Scan → String → String → ScanStatus → ℕ → Store → Bool × Store
set_found none tenant_id scan_id status updated_at s = (false, s)
set_found (some scan) tenant_id scan_id status updated_at s = (
  true,
  record s {
    scans =
        update (tenant_id, scan_id) (record scan { status = status; updated_at = updated_at })
          s.scans;
  },
)

unfoldable pub set_scan_status : String → String → ScanStatus → ℕ → Store → Bool × Store
set_scan_status tenant_id scan_id status updated_at s =
    set_found (get_scan tenant_id scan_id s) tenant_id scan_id status updated_at s

-- the loop over the findings: how many were inserted, and the table it leaves
unfoldable pub insert_findings :
    String
    → String
    → List Finding
    → Table ((String × String) × String) Value
    → ℕ × Table ((String × String) × String) Value
insert_findings tenant_id scan_id [] rows = (0, rows)
insert_findings tenant_id scan_id (f ∷ fs) rows =
    let (created, rows') = insert ((tenant_id, scan_id), f.finding_id) f.body rows in
    let (written, rows'') = insert_findings tenant_id scan_id fs rows' in
    (if created then written + 1 else written, rows'')

unfoldable pub put_findings : String → String → List Finding → Store → Result String ℕ × Store
put_findings tenant_id scan_id findings s = elim (get_scan tenant_id scan_id s) [
  | none ↦ (raised "scan_not_found_for_tenant", s)
  | some _ ↦
      let (written, rows) = insert_findings tenant_id scan_id findings s.findings in
      (ok written, record s { findings = rows })
]

unfoldable pub get_finding : String → String → String → Store → Option Value
get_finding tenant_id scan_id finding_id s = select ((tenant_id, scan_id), finding_id) s.findings

unfoldable pub create_deployment : DeploymentAttempt → Store → Bool × Store
create_deployment attempt s =
    let (created, deployments) =
      insert (attempt.tenant_id, attempt.deployment_id) attempt s.deployments in
    (created, record s { deployments = deployments })

unfoldable pub get_deployment : String → String → Store → Option DeploymentAttempt
get_deployment tenant_id deployment_id s = select (tenant_id, deployment_id) s.deployments

unfoldable pub get_policy_decision : String → String → String → Store → Option Value
get_policy_decision tenant_id user_id key s = select ((tenant_id, user_id), key) s.policy_decisions

unfoldable pub put_policy_decision : String → String → String → Value → Store → Bool × Store
put_policy_decision tenant_id user_id key result s =
    let (created, rows) = insert ((tenant_id, user_id), key) result s.policy_decisions in
    (created, record s { policy_decisions = rows })

pub record ScanStart : Type 0 where
  pub scan : Scan
  pub created : Bool

-- `stable_scan_id`; `digest tenant_id content_hash` is the digest that it cuts
abbrev pub Digest : Type 0
Digest = String → String → String

abbrev pub new_scan : Digest → String → String → String → Option String → ℕ → Scan
new_scan digest tenant_id content_hash source_ref execution_id now = record {
  tenant_id = tenant_id;
  scan_id = digest tenant_id content_hash;
  content_hash = content_hash;
  source_ref = source_ref;
  status = queued;
  created_at = now;
  updated_at = now;
  execution_id = execution_id;
  revision = none;
}

unfoldable pub is_scan_request : String → String → String → Bool
is_scan_request tenant_id content_hash source_ref =
    not (str_eq tenant_id "" || str_eq content_hash "" || ltb 2048 (length (codes source_ref)))

abbrev started : Scan → Store → Result String ScanStart × Store
started scan s =
    let (created, s') = create_scan scan s in (ok (record { scan = scan; created = created }), s')

unfoldable pub start_scan :
    Digest → String → String → String → Option String → ℕ → Store → Result String ScanStart × Store
start_scan digest tenant_id content_hash source_ref execution_id now s =
    if is_scan_request tenant_id content_hash source_ref
    then started (new_scan digest tenant_id content_hash source_ref execution_id now) s
    else (raised "invalid_scan_request", s)

-- What the lifecycle reads of a `ScanReport`.
pub record Report : Type 0 where
  pub content_hash : String
  pub is_complete : Bool
  pub findings : List Finding

abbrev status_of : Report → ScanStatus
status_of report = if report.is_complete then completed else partial

unfoldable pub set_reported : ScanStatus → Bool × Store → Result String ScanStatus × Store
set_reported status (true, s) = (ok status, s)
set_reported status (false, s) = (raised "scan_status_update_failed", s)

unfoldable pub record_findings :
    String → String → Report → ℕ → Result String ℕ × Store → Result String ScanStatus × Store
record_findings tenant_id scan_id report now (raised e, s) = (raised e, s)
record_findings tenant_id scan_id report now (ok _, s) =
    set_reported (status_of report) (set_scan_status tenant_id scan_id (status_of report) now s)

unfoldable pub record_found :
    Option Scan → String → String → Report → ℕ → Store → Result String ScanStatus × Store
record_found none tenant_id scan_id report now s = (raised "scan_not_found_or_hash_mismatch", s)
record_found (some scan) tenant_id scan_id report now s =
    if str_eq scan.content_hash report.content_hash
    then record_findings tenant_id scan_id report now
        (put_findings tenant_id scan_id report.findings s)
    else (raised "scan_not_found_or_hash_mismatch", s)

unfoldable pub record_scan_report :
    String → String → Report → ℕ → Store → Result String ScanStatus × Store
record_scan_report tenant_id scan_id report now s =
    record_found (get_scan tenant_id scan_id s) tenant_id scan_id report now s
