-- ===== src/Scans/Tests.antt =====
-- Scans started, reported and retried at concrete inputs.
use aws_foundations.Base.{
  ◌≡◌, refl, true, false, List, [], ◌∷◌, none, some, ok, raised, codes, str_eq,
}
use aws_foundations.Base.Json.{null}
use aws_foundations.Base.Table.{select, update, insert, pair_key, triple_key}
use aws_foundations.Scans.{
  Scan, completed, Finding, Store, empty, has_content, create_scan, get_scan, set_found,
  set_scan_status, insert_findings, put_findings, Digest, new_scan, is_scan_request, start_scan,
  Report, set_reported, record_findings, record_found, record_scan_report,
}
use aws_foundations.Scans.Records.{put_findings_again}
use aws_foundations.Scans.Lifecycle.{
  Recorded, recorded, record_scan_report-Recorded, record_scan_report-refused,
}

scanning : Unit {0}
unfolding has_content create_scan get_scan set_found set_scan_status insert_findings put_findings
    is_scan_request start_scan set_reported record_findings record_found record_scan_report select
    update insert codes
scanning = tt

abbrev digest : Digest
digest tenant_id content_hash = "d1"

abbrev first_scan : Scan
first_scan = new_scan digest "acme" "hash" "." none 10

abbrev holding : Store
holding = record empty { scans = (("acme", "d1"), first_scan) ∷ [] }

abbrev two_findings : List Finding
two_findings =
    record { finding_id = "f1"; body = null } ∷ record { finding_id = "f2"; body = null } ∷ []

abbrev full_report : Report
full_report = record { content_hash = "hash"; is_complete = true; findings = two_findings }

put_findings_again_example :
    let (r, s') = put_findings "acme" "d1" two_findings holding in
    put_findings "acme" "d1" two_findings s' ≡ (ok 0, s')
put_findings_again_example =
    put_findings_again "acme" "d1" two_findings holding first_scan (unfold scanning in refl)

record_scan_report-Recorded_example :
    Recorded "acme" "d1" full_report 30 holding
      (recorded "acme" "d1" full_report 30 first_scan holding)
      completed
record_scan_report-Recorded_example =
    record_scan_report-Recorded "acme" "d1" full_report 30 holding
      (recorded "acme" "d1" full_report 30 first_scan holding) completed (unfold scanning in refl)

record_scan_report-refused_example :
    (((scan : Scan)
        → get_scan "acme" "d1" holding ≡ some scan
        → str_eq scan.content_hash "hash" ≡ false)
      → record_scan_report "acme" "d1" full_report 30 holding
        ≡ (raised "scan_not_found_or_hash_mismatch", holding))
    × ((scan : Scan)
        → get_scan "acme" "d1" holding ≡ some scan
        → scan.content_hash ≡ "hash"
        → (record_scan_report "acme" "d1" full_report 30 holding).0 ≡ ok completed)
record_scan_report-refused_example = record_scan_report-refused "acme" "d1" full_report 30 holding
