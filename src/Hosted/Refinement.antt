-- ===== src/Hosted/Refinement.antt =====
-- The DynamoDB adapter against the local store, for the scans and deployments of the lifecycle.
use aws_foundations.Base.{
  ℕ, ◌≡◌, ◌∙◌, refl, sym, ap, subst, true, false, List, [], ◌∷◌, Option, none, some, String,
  Bool-cases, Option-cases, inl, inr, arith,
}
use aws_foundations.Base.Table.{
  Table, select, update, pair_key, select-update, insert_taken, insert_free,
}
use aws_foundations.Scans as Local
use aws_foundations.Scans.{
  Scan, ScanStatus, DeploymentAttempt, Store, empty, has_content, Digest, new_scan, set_found,
}
use aws_foundations.Hosted.{
  scan_item, deployment_item, Items, pk, scan_key, deployment_key, put_new, get_item, get_scan,
  with_status, set_scan_status, create_deployment, get_deployment,
}
use aws_foundations.Hosted.Keys.{same_scan, same_deployment, scan_no_deployment, deployment_no_scan}
use aws_foundations.Hosted.Agreement.{
  Call, start, set_status, deploy, locally, hosted, run_locally, run_hosted, as_scan, as_deployment,
  Agrees, Steps, create_scan-Steps,
}

deployed-Agrees :
    (digest : Digest) (d : DeploymentAttempt) (t : Items) (s : Store)
    → Agrees digest t s
    → Agrees digest
        (((pk d.tenant_id, deployment_key d.deployment_id), deployment_item d) ∷ t)
        (record s { deployments = ((d.tenant_id, d.deployment_id), d) ∷ s.deployments })
unfolding select
deployed-Agrees digest d t s a = record {
  scans = λ tenant id.
      rw (deployment_no_scan d.tenant_id tenant d.deployment_id id) (a.scans tenant id);
  deployments = λ tenant id.
      rw (same_deployment d.tenant_id tenant d.deployment_id id)
        (ground (arith, a.deployments tenant id));
  digests = a.digests;
}

create_deployment-Steps :
    (digest : Digest) (d : DeploymentAttempt) (t : Items) (s : Store)
    → Agrees digest t s
    → Steps digest (create_deployment d t) (Local.create_deployment d s)
unfolding create_deployment put_new Local.create_deployment
create_deployment-Steps digest d t s a =
    let key : String × String = (d.tenant_id, d.deployment_id) in
    let hosted_key : String × String = (pk d.tenant_id, deployment_key d.deployment_id) in
    let here = a.deployments d.tenant_id d.deployment_id in
    elim (Option-cases (select key s.deployments)) [
      | inr (old, taken) ↦
          let there : select hosted_key t ≡ some (deployment_item old) =
            here ∙ ap as_deployment taken in
          rw
            (
              insert_taken key d s.deployments taken,
              insert_taken hosted_key (deployment_item d) t there,
            )
            (refl, a)
      | inl free ↦
          let there : select hosted_key t ≡ none = here ∙ ap as_deployment free in
          rw
            (
              insert_free key d s.deployments free,
              insert_free hosted_key (deployment_item d) t there,
            )
            (refl, deployed-Agrees digest d t s a)
    ]

has_content-update :
    (tenant content : String) (k : String × String) (old new : Scan)
    (rows : Table (String × String) Scan)
    → select k rows ≡ some old
    → new.content_hash ≡ old.content_hash
    → has_content tenant content (update k new rows) ≡ has_content tenant content rows
unfolding has_content select update
has_content-update tenant content k old new [] h e = refl
has_content-update tenant content k old new ((j, w) ∷ rows) h e =
    elim (Bool-cases (pair_key.same j k)) [
      | inl same ↦
          let w_old : w ≡ old = ground arith in
          let alike : new.content_hash ≡ w.content_hash = cc in rw (same, alike) refl
      | inr differs ↦
          rw (differs, has_content-update tenant content k old new rows (ground arith) e) refl
    ]

-- The states after a scan that is there got a new status.
updated-Agrees :
    (digest : Digest) (tenant id : String) (old new : Scan) (t : Items) (s : Store)
    → select (tenant, id) s.scans ≡ some old
    → new.content_hash ≡ old.content_hash
    → Agrees digest t s
    → Agrees digest
        (update (pk tenant, scan_key id) (scan_item new) t)
        (record s { scans = update (tenant, id) new s.scans })
updated-Agrees digest tenant id old new t s found content_eq a =
    let there : select (pk tenant, scan_key id) t ≡ some (scan_item old) =
      a.scans tenant id ∙ ap as_scan found in
    record {
      scans = λ u i.
          let l = select-update (pk tenant, scan_key id) (pk u, scan_key i) (scan_item new) t in
          let r = select-update (tenant, id) (u, i) new s.scans in
          let k = same_scan tenant u id i in let o = a.scans u i in ground arith;
      deployments = λ u i.
          let l =
            select-update (pk tenant, scan_key id) (pk u, deployment_key i) (scan_item new) t in
          let k = scan_no_deployment tenant u id i in let o = a.deployments u i in ground arith;
      digests = λ u content h.
          let r = select-update (tenant, id) (u, digest u content) new s.scans in
          let e = has_content-update u content (tenant, id) old new s.scans found content_eq in
          let o = a.digests u content (sym e ∙ h) in ground arith;
    }

-- The scan with a new status.
abbrev with_new : Scan → ScanStatus → ℕ → Scan
with_new scan status now = record scan { status = status; updated_at = now }

set_scan_status-Steps :
    (digest : Digest) (tenant id : String) (status : ScanStatus) (now : ℕ) (t : Items) (s : Store)
    → Agrees digest t s
    → Steps digest
        (set_scan_status tenant id status now t)
        (Local.set_scan_status tenant id status now s)
unfolding set_scan_status get_item with_status Local.set_scan_status Local.get_scan set_found
set_scan_status-Steps digest tenant id status now t s a =
    elim (Option-cases (select (tenant, id) s.scans)) [
      | inl missing ↦
          let there : select (pk tenant, scan_key id) t ≡ none =
            a.scans tenant id ∙ ap as_scan missing in
          let h : set_scan_status tenant id status now t ≡ (false, t) = ground arith in
          let l : Local.set_scan_status tenant id status now s ≡ (false, s) = ground arith in
          subst (Steps digest _) (sym l) (subst (λ r. Steps digest r (false, s)) (sym h) (refl, a))
      | inr (old, found) ↦
          let there : select (pk tenant, scan_key id) t ≡ some (scan_item old) =
            a.scans tenant id ∙ ap as_scan found in
          let new = with_new old status now in
          let t' = update (pk tenant, scan_key id) (scan_item new) t in
          let s' = record s { scans = update (tenant, id) new s.scans } in
          let h : set_scan_status tenant id status now t ≡ (true, t') = ground arith in
          let l : Local.set_scan_status tenant id status now s ≡ (true, s') = ground arith in
          subst (Steps digest _) (sym l) (
            subst (λ r. Steps digest r (true, s')) (sym h)
              (refl, updated-Agrees digest tenant id old new t s found refl a))
    ]

call-Steps :
    (digest : Digest) (c : Call) (t : Items) (s : Store)
    → Agrees digest t s
    → Steps digest (hosted digest c t) (locally digest c s)
unfolding hosted locally
call-Steps digest (start tenant content source execution now) t s a =
    create_scan-Steps digest (new_scan digest tenant content source execution now) t s refl a
call-Steps digest (set_status tenant id status now) t s a =
    set_scan_status-Steps digest tenant id status now t s a
call-Steps digest (deploy d) t s a = create_deployment-Steps digest d t s a

run-Agrees :
    (digest : Digest) (cs : List Call) (t : Items) (s : Store)
    → Agrees digest t s
    → ((run_hosted digest cs t).0 ≡ (run_locally digest cs s).0)
      × Agrees digest (run_hosted digest cs t).1 (run_locally digest cs s).1
unfolding run_hosted run_locally
run-Agrees digest [] t s a = (refl, a)
run-Agrees digest (c ∷ cs) t s a =
    let one = call-Steps digest c t s a in
    let rest = run-Agrees digest cs (hosted digest c t).1 (locally digest c s).1 one.1 in
    (cc (one.0, rest.0), rest.1)

empty-Agrees : (digest : Digest) → Agrees digest [] empty
unfolding select has_content
empty-Agrees digest = record {
  scans = λ tenant id. refl;
  deployments = λ tenant id. refl;
  digests = λ tenant content h. cc;
}

-- A scan's item is read as the scan, and a deployment's as the deployment.
get_scan-as_scan :
    (tenant id : String) (t : Items) (o : Option Scan)
    → select (pk tenant, scan_key id) t ≡ as_scan o
    → get_scan tenant id t ≡ o
unfolding get_scan get_item
get_scan-as_scan tenant id t none h = ground arith
get_scan-as_scan tenant id t (some scan) h = ground arith

get_deployment-as_deployment :
    (tenant id : String) (t : Items) (o : Option DeploymentAttempt)
    → select (pk tenant, deployment_key id) t ≡ as_deployment o
    → get_deployment tenant id t ≡ o
unfolding get_deployment get_item
get_deployment-as_deployment tenant id t none h = ground arith
get_deployment-as_deployment tenant id t (some d) h = ground arith

-- From the empty stores on, any calls of the lifecycle (scans for a content, whose id is a digest of
-- tenant and content, new statuses, deployments) are answered alike by the DynamoDB adapter and by
-- the local store, and afterwards every scan and every deployment reads the same in both.
pub stores-agree :
    (digest : Digest) (cs : List Call) (tenant id : String)
    → let t = (run_hosted digest cs []).1 in
      let s = (run_locally digest cs empty).1 in
      ((run_hosted digest cs []).0 ≡ (run_locally digest cs empty).0)
      × (get_scan tenant id t ≡ Local.get_scan tenant id s)
      × (get_deployment tenant id t ≡ Local.get_deployment tenant id s)
unfolding Local.get_scan Local.get_deployment
stores-agree digest cs tenant id =
    let (answers, a) = run-Agrees digest cs [] empty (empty-Agrees digest) in
    let t = (run_hosted digest cs []).1 in
    (
      answers,
      get_scan-as_scan tenant id t _ (a.scans tenant id),
      get_deployment-as_deployment tenant id t _ (a.deployments tenant id),
    )
