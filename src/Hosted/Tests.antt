-- ===== src/Hosted/Tests.antt =====
-- The DynamoDB table at concrete requests.
use aws_foundations.Base.{◌≡◌, refl, true, false, List, [], ◌∷◌, none, some, All}
use aws_foundations.Base.Json.{null, bool}
use aws_foundations.Base.Table.{select, update, insert, pair_key}
use aws_foundations.Scans as Local
use aws_foundations.Scans.{Scan, queued, completed, Finding, Digest, empty}
use aws_foundations.Hosted.{
  put_new, get_item, create_scan, get_scan, with_status, set_scan_status, get_deployment,
  put_findings, put_policy_decision, get_policy_decision, Create, create_scan_call,
  put_findings_call, after_all,
}
use aws_foundations.Hosted.Once.{policy_decision_stays, create_scan_stays}
use aws_foundations.Hosted.Agreement.{Call, start, set_status, hosted, run_hosted, run_locally}
use aws_foundations.Hosted.Refinement.{stores-agree}
use aws_foundations.Hosted.Findings.{IsStored, hosted_put_findings_again}

requesting : Unit {0}
unfolding put_new create_scan put_policy_decision select insert
requesting = tt

abbrev scan : Scan
scan = record {
  tenant_id = "acme";
  scan_id = "d1";
  content_hash = "hash";
  source_ref = ".";
  status = queued;
  created_at = 10;
  updated_at = 10;
  execution_id = none;
  revision = none;
}

abbrev two_findings : List Finding
two_findings =
    record { finding_id = "f1"; body = null } ∷ record { finding_id = "f2"; body = null } ∷ []

abbrev between : List Create
between =
    put_findings_call "acme" "d1" two_findings
    ∷ create_scan_call (record scan { scan_id = "d2" })
    ∷ []

policy_decision_stays_example :
    let t' = after_all between (put_policy_decision "acme" "ada" "k" (bool true) []).1 in
    (get_policy_decision "acme" "ada" "k" t' ≡ some (bool true))
    × (put_policy_decision "acme" "ada" "k" null t' ≡ (false, t'))
policy_decision_stays_example =
    policy_decision_stays "acme" "ada" "k" (bool true) null between [] (unfold requesting in refl)

create_scan_stays_example :
    let t' = after_all between (create_scan scan []).1 in
    (get_scan "acme" "d1" t' ≡ some scan)
    × (create_scan (record scan { source_ref = "elsewhere" }) t' ≡ (false, t'))
create_scan_stays_example =
    create_scan_stays scan (record scan { source_ref = "elsewhere" }) between []
      (unfold requesting in refl) refl refl

hosted_put_findings_again_example :
    let (n, t') = put_findings "acme" "d1" two_findings [] in
    All (IsStored "acme" "d1" t') two_findings
    × (put_findings "acme" "d1" two_findings t' ≡ (0, t'))
hosted_put_findings_again_example = hosted_put_findings_again "acme" "d1" two_findings []

-- Scans for two contents, the first of them twice, with a status and a deployment.
abbrev calls : List Call
calls =
    start "acme" "hash" "." none 10
    ∷ start "acme" "hash" "elsewhere" none 11
    ∷ start "acme" "other" "." none 12
    ∷ set_status "acme" "id:hash" completed 13
    ∷ set_status "acme" "id:none" completed 14
    ∷ []

abbrev digest : Digest
digest tenant content = Prim.Native.String.◌++◌ "id:" content

answered : (run_hosted digest calls []).0 ≡ true ∷ false ∷ true ∷ true ∷ false ∷ []
unfolding requesting run_hosted hosted set_scan_status get_item update with_status
answered = refl

stores-agree_example :
    let t = (run_hosted digest calls []).1 in
    let s = (run_locally digest calls empty).1 in
    ((run_hosted digest calls []).0 ≡ (run_locally digest calls empty).0)
    × (get_scan "acme" "id:hash" t ≡ Local.get_scan "acme" "id:hash" s)
    × (get_deployment "acme" "id:hash" t ≡ Local.get_deployment "acme" "id:hash" s)
stores-agree_example = stores-agree digest calls "acme" "id:hash"
