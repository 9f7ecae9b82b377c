-- ===== src/Hosted/Once.antt =====
-- Items that are created are created once.
use aws_foundations.Base.{◌≡◌, true, false, List, [], ◌∷◌, some, String, arith, eq_iff}
use aws_foundations.Base.Json.{Value}
use aws_foundations.Base.Table.{select, insert, pair_key, select-insert_present, insert_taken}
use aws_foundations.Scans.{Scan, Finding}
use aws_foundations.Hosted.{
  Item, scan_item, decision_item, Items, pk, scan_key, policy_key, put_new, get_item, create_scan,
  get_scan, put_findings, create_deployment, put_policy_decision, get_policy_decision, create_run,
  Create, create_scan_call, put_findings_call, create_deployment_call, put_policy_decision_call,
  create_run_call, after, after_all,
}

pub put_findings-keeps :
    (tenant_id scan_id : String) (fs : List Finding) (k : String × String) (item : Item) (t : Items)
    → select k t ≡ some item
    → select k (put_findings tenant_id scan_id fs t).1 ≡ some item
unfolding put_findings put_new
put_findings-keeps tenant_id scan_id [] k item t h = h
put_findings-keeps tenant_id scan_id (f ∷ fs) k item t h =
    put_findings-keeps tenant_id scan_id fs k item _ (select-insert_present _ k _ item t h)

after-keeps :
    (c : Create) (k : String × String) (item : Item) (t : Items)
    → select k t ≡ some item
    → select k (after c t) ≡ some item
unfolding after create_scan create_deployment put_policy_decision create_run put_new
after-keeps (create_scan_call scan) k item t h = select-insert_present _ k _ item t h
after-keeps (put_findings_call tenant_id scan_id fs) k item t h =
    put_findings-keeps tenant_id scan_id fs k item t h
after-keeps (create_deployment_call attempt) k item t h = select-insert_present _ k _ item t h
after-keeps (put_policy_decision_call tenant_id user_id key result) k item t h =
    select-insert_present _ k _ item t h
after-keeps (create_run_call run) k item t h = select-insert_present _ k _ item t h

after_all-keeps :
    (cs : List Create) (k : String × String) (item : Item) (t : Items)
    → select k t ≡ some item
    → select k (after_all cs t) ≡ some item
unfolding after_all
after_all-keeps [] k item t h = h
after_all-keeps (c ∷ cs) k item t h =
    after_all-keeps cs k item (after c t) (after-keeps c k item t h)

pub put_new-held :
    (tenant key : String) (item : Item) (t : Items)
    → (put_new tenant key item t).0 ≡ true
    → select (pk tenant, key) (put_new tenant key item t).1 ≡ some item
unfolding put_new insert select
put_new-held tenant key item t h = ground (arith, eq_iff (pk tenant) (pk tenant), eq_iff key key)

-- A policy decision that was stored is what every later read of it returns, whatever scans,
-- findings, deployments, decisions and runs of any tenant are created in between, and a second put of
-- it is refused.
pub policy_decision_stays :
    (tenant_id user_id key : String) (result other : Value) (cs : List Create) (t : Items)
    → (put_policy_decision tenant_id user_id key result t).0 ≡ true
    → let t' = after_all cs (put_policy_decision tenant_id user_id key result t).1 in
      (get_policy_decision tenant_id user_id key t' ≡ some result)
      × (put_policy_decision tenant_id user_id key other t' ≡ (false, t'))
unfolding put_policy_decision get_policy_decision get_item
policy_decision_stays tenant_id user_id key result other cs t h =
    let held =
      after_all-keeps cs (pk tenant_id, policy_key user_id key) (decision_item result) _
        (put_new-held tenant_id (policy_key user_id key) (decision_item result) t h) in
    (
      rw (held, get_policy_decision),
      unfold put_new in
          insert_taken (pk tenant_id, policy_key user_id key) (decision_item other) _ held,
    )

-- A scan that was created is read back, whatever is created in between, and a second scan under its
-- id is refused and changes nothing.
pub create_scan_stays :
    (scan other : Scan) (cs : List Create) (t : Items)
    → (create_scan scan t).0 ≡ true
    → other.tenant_id ≡ scan.tenant_id
    → other.scan_id ≡ scan.scan_id
    → let t' = after_all cs (create_scan scan t).1 in
      (get_scan scan.tenant_id scan.scan_id t' ≡ some scan) × (create_scan other t' ≡ (false, t'))
unfolding create_scan get_scan get_item
create_scan_stays scan other cs t h tenant id =
    let held =
      after_all-keeps cs (pk scan.tenant_id, scan_key scan.scan_id) (scan_item scan) _
        (put_new-held scan.tenant_id (scan_key scan.scan_id) (scan_item scan) t h) in
    let taken : select (pk other.tenant_id, scan_key other.scan_id)
          (after_all cs (create_scan scan t).1)
        ≡ some (scan_item scan) =
      rw (tenant, id) held in
    (
      rw (held, get_scan),
      unfold put_new in
          insert_taken (pk other.tenant_id, scan_key other.scan_id) (scan_item other) _ taken,
    )
