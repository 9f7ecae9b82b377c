-- ===== src/Hosted.antt =====
-- The adapters to the one DynamoDB table of the control plane: `DynamoScanStore` of agent/store.py,
-- and the run and review records of `AwsPipelineState` of agent/orchestration/state.py. The table's
-- key is the pair of PK and SK, which are the source's own strings. Each request is one step, and a
-- loop of requests is taken without other writers between them. An item holds the record that its
-- attributes encode; under an entity's keys there are only items of that entity, so a `get` of
-- another item, which the adapters would raise on, reads as missing here. Queries by prefix are not
-- modelled.
pub mod Once
pub mod Keys
pub mod Agreement
pub mod Refinement
pub mod Findings
mod Tests
use aws_foundations.Base.{
  ℕ, ◌+◌, Bool, true, false, List, [], ◌∷◌, ◌++◌, Option, none, some, String, if◌then◌else◌,
}
use aws_foundations.Base.Json.{Value}
use aws_foundations.Base.Table.{Table, select, update, insert, pair_key}
use aws_foundations.Runs.{Run}
use aws_foundations.Runs.Store.{Review}
use aws_foundations.Scans.{Scan, ScanStatus, Finding, DeploymentAttempt}

pub data Item : Type 0 where
  scan_item : Scan → Item
  finding_item : Value → Item
  deployment_item : DeploymentAttempt → Item
  decision_item : Value → Item
  run_item : Run → Item
  review_item : Review → Item

abbrev pub Items : Type 0
Items = Table (String × String) Item

infixr 70 ◌&◌
abbrev pub ◌&◌ : String → String → String
a & b = Prim.Native.String.◌++◌ a b

-- `_pk`
abbrev pub pk : String → String
pk tenant = "TENANT#" & tenant

-- `_scan_key`
abbrev pub scan_key : String → String
scan_key scan = "SCAN#" & scan

abbrev pub finding_key : String → String → String
finding_key scan_id finding_id = "FINDING#" & scan_id & "#" & finding_id

abbrev pub deployment_key : String → String
deployment_key id = "DEPLOYMENT#" & id

abbrev pub policy_key : String → String → String
policy_key user_id key = "POLICY#" & user_id & "#" & key

abbrev pub run_key : String → String
run_key run_id = "RUN#" & run_id

abbrev pub review_key : String → String → String
review_key run_id review_id = "REVIEW#" & run_id & "#" & review_id

-- put_item with "attribute_not_exists(PK) AND attribute_not_exists(SK)"
unfoldable pub put_new : String → String → Item → Items → Bool × Items
put_new tenant key item t = insert (pk tenant, key) item t

unfoldable pub get_item : String → String → Items → Option Item
get_item tenant key t = select (pk tenant, key) t

unfoldable pub create_scan : Scan → Items → Bool × Items
create_scan scan = put_new scan.tenant_id (scan_key scan.scan_id) (scan_item scan)

unfoldable pub get_scan : String → String → Items → Option Scan
get_scan tenant_id scan_id t = elim (get_item tenant_id (scan_key scan_id) t) [
  | some (scan_item scan) ↦ some scan
  | _ ↦ none
]

-- "SET #s=:s, updated_at=:u" of an item
unfoldable pub with_status : ScanStatus → ℕ → Item → Item
with_status status updated_at (scan_item scan) =
    scan_item (record scan { status = status; updated_at = updated_at })
with_status status updated_at other = other

-- update_item with "attribute_exists(PK)"
unfoldable pub set_scan_status : String → String → ScanStatus → ℕ → Items → Bool × Items
set_scan_status tenant_id scan_id status updated_at t =
    elim (get_item tenant_id (scan_key scan_id) t) [
      | none ↦ (false, t)
      | some item ↦
          (true, update (pk tenant_id, scan_key scan_id) (with_status status updated_at item) t)
    ]

-- how many findings were written, and the table; unlike the local store this asks for no scan
unfoldable pub put_findings : String → String → List Finding → Items → ℕ × Items
put_findings tenant_id scan_id [] t = (0, t)
put_findings tenant_id scan_id (f ∷ fs) t =
    let (created, t') =
      put_new tenant_id (finding_key scan_id f.finding_id) (finding_item f.body) t in
    let (written, t'') = put_findings tenant_id scan_id fs t' in
    (if created then written + 1 else written, t'')

unfoldable pub create_deployment : DeploymentAttempt → Items → Bool × Items
create_deployment attempt =
    put_new attempt.tenant_id (deployment_key attempt.deployment_id) (deployment_item attempt)

unfoldable pub get_deployment : String → String → Items → Option DeploymentAttempt
get_deployment tenant_id deployment_id t =
    elim (get_item tenant_id (deployment_key deployment_id) t) [
      | some (deployment_item attempt) ↦ some attempt
      | _ ↦ none
    ]

unfoldable pub get_policy_decision : String → String → String → Items → Option Value
get_policy_decision tenant_id user_id key t = elim (get_item tenant_id (policy_key user_id key) t) [
  | some (decision_item result) ↦ some result
  | _ ↦ none
]

unfoldable pub put_policy_decision : String → String → String → Value → Items → Bool × Items
put_policy_decision tenant_id user_id key result =
    put_new tenant_id (policy_key user_id key) (decision_item result)

unfoldable pub create_run : Run → Items → Bool × Items
create_run run = put_new run.tenant_id (run_key run.run_id) (run_item run)

unfoldable pub get_run : String → String → Items → Option Run
get_run tenant run_id t = elim (get_item tenant (run_key run_id) t) [
  | some (run_item run) ↦ some run
  | _ ↦ none
]

-- The table, and the messages that SQS was sent; with no queue none is sent.
pub record Hosted : Type 0 where
  pub items : Items
  pub sent : List Review

unfoldable pub put_review : Bool → Review → Hosted → Bool × Hosted
put_review has_queue item h =
    let (created, items) =
      put_new item.tenant_id (review_key item.run_id item.review_id) (review_item item) h.items in
    (created, record { items = items; sent = if has_queue then h.sent ++ (item ∷ []) else h.sent })

-- One call that only creates items.
pub data Create : Type 0 where
  create_scan_call : Scan → Create
  put_findings_call : String → String → List Finding → Create
  create_deployment_call : DeploymentAttempt → Create
  put_policy_decision_call : String → String → String → Value → Create
  create_run_call : Run → Create

unfoldable pub after : Create → Items → Items
after (create_scan_call scan) t = (create_scan scan t).1
after (put_findings_call tenant_id scan_id findings) t =
    (put_findings tenant_id scan_id findings t).1
after (create_deployment_call attempt) t = (create_deployment attempt t).1
after (put_policy_decision_call tenant_id user_id key result) t =
    (put_policy_decision tenant_id user_id key result t).1
after (create_run_call run) t = (create_run run t).1

unfoldable pub after_all : List Create → Items → Items
after_all [] t = t
after_all (c ∷ cs) t = after_all cs (after c t)
