-- ===== src/Scans/Lifecycle.antt =====
-- The lifecycle of a scan: idempotent starts and reports.
use aws_foundations.Base.{
  ℕ, ◌≡◌, ◌∙◌, sym, ap, true, false, ◌&&◌, none, some, String, Result, ok, raised, arith,
  Option-cases, Bool-cases, inl, inr, eq_iff, str_eq, ok-injective, if◌then◌else◌,
}
use aws_foundations.Base.Table.{update, or_other, pair_key, triple_key, select-update}
use aws_foundations.Scans.{
  Scan, ScanStatus, completed, partial, Store, get_scan, get_finding, set_found, set_scan_status,
  insert_findings, Report, status_of, set_reported, record_findings, record_found,
  record_scan_report,
}
use aws_foundations.Scans.Records.{put_found, first_body, insert_findings-exact}

-- What a recorded report has done.
pub record Recorded (tenant_id scan_id : String) (report : Report) (now : ℕ) (s s' : Store)
    (status : ScanStatus) : Type 0 where
  pub before : Scan
  pub found : get_scan tenant_id scan_id s ≡ some before
  pub same_content : before.content_hash ≡ report.content_hash
  pub is_status : status ≡ (if report.is_complete then completed else partial)
  pub left :
      get_scan tenant_id scan_id s' ≡ some (record before { status = status; updated_at = now })
  pub findings :
      (t r id : String)
      → get_finding t r id s'
        ≡ or_other
            (get_finding t r id s)
            (if str_eq tenant_id t && str_eq scan_id r then first_body id report.findings else none)

-- What recording leaves.
abbrev pub recorded : String → String → Report → ℕ → Scan → Store → Store
recorded tenant_id scan_id report now scan s = record s {
  scans =
      update (tenant_id, scan_id) (record scan { status = status_of report; updated_at = now })
        s.scans;
  findings = (insert_findings tenant_id scan_id report.findings s.findings).1;
}

recorded-held :
    (tenant_id scan_id : String) (report : Report) (now : ℕ) (scan : Scan) (s : Store)
    → get_scan tenant_id scan_id s ≡ some scan
    → get_scan tenant_id scan_id (recorded tenant_id scan_id report now scan s)
      ≡ some (record scan { status = status_of report; updated_at = now })
unfolding get_scan
recorded-held tenant_id scan_id report now scan s found = ground (
  arith,
  select-update (tenant_id, scan_id) (tenant_id, scan_id)
      (record scan { status = status_of report; updated_at = now }) s.scans,
  eq_iff tenant_id tenant_id,
  eq_iff scan_id scan_id,
)

record_scan_report-accepted :
    (tenant_id scan_id : String) (report : Report) (now : ℕ) (s : Store) (scan : Scan)
    → get_scan tenant_id scan_id s ≡ some scan
    → str_eq scan.content_hash report.content_hash ≡ true
    → record_scan_report tenant_id scan_id report now s
      ≡ (ok (status_of report), recorded tenant_id scan_id report now scan s)
unfolding record_scan_report set_found update insert_findings record_found set_reported
    record_findings
record_scan_report-accepted tenant_id scan_id report now s scan found same =
    rw (found, record_found)
      (rw same (
        rw (put_found tenant_id scan_id report.findings s scan found, record_findings)
          (rw (set_found_in tenant_id scan_id report now s scan found, set_reported))))
  where
    set_found_in :
        (tenant_id scan_id : String) (report : Report) (now : ℕ) (s : Store) (scan : Scan)
        → get_scan tenant_id scan_id s ≡ some scan
        → set_scan_status tenant_id scan_id (status_of report) now (record s {
          findings = (insert_findings tenant_id scan_id report.findings s.findings).1;
        })
          ≡ (true, recorded tenant_id scan_id report now scan s)
    set_found_in tenant_id scan_id report now s scan found =
        unfold set_scan_status get_scan in rw (found, set_found)

-- A report that is recorded was for the content of a scan of this tenant, and the scan then has the
-- status that the report's completeness says and the time of the call. A finding that was stored
-- before, of any scan, keeps its body; under every other id of the report's findings the scan has the
-- body of the first of them; and no other finding is stored.
pub record_scan_report-Recorded :
    (tenant_id scan_id : String) (report : Report) (now : ℕ) (s s' : Store) (status : ScanStatus)
    → record_scan_report tenant_id scan_id report now s ≡ (ok status, s')
    → Recorded tenant_id scan_id report now s s' status
record_scan_report-Recorded tenant_id scan_id report now s s' status h =
    elim (Option-cases (get_scan tenant_id scan_id s)) [
      | inl missing ↦ absurd (unfold record_scan_report record_found in ground arith)
      | inr (scan, found) ↦ elim (Bool-cases (str_eq scan.content_hash report.content_hash)) [
        | inr other ↦ absurd (unfold record_scan_report record_found in ground arith)
        | inl same ↦
            let e =
              sym h ∙ record_scan_report-accepted tenant_id scan_id report now s scan found same in
            let is_status : status ≡ status_of report =
              ok-injective (ap (λ (p : Result String ScanStatus × Store). p.0) e) in
            let left : s' ≡ recorded tenant_id scan_id report now scan s =
              ap (λ (p : Result String ScanStatus × Store). p.1) e in
            record {
              before = scan;
              found = found;
              same_content = (eq_iff scan.content_hash report.content_hash).0 same;
              is_status = is_status;
              left = rw (left, is_status) (recorded-held tenant_id scan_id report now scan s found);
              findings = λ t r id. rw left (
                  unfold get_finding in
                  insert_findings-exact tenant_id scan_id t r id report.findings s.findings);
            }
      ]
    ]

-- A report for a scan that the tenant does not have, or of another content, is refused and changes
-- nothing; every other report is recorded.
pub record_scan_report-refused :
    (tenant_id scan_id : String) (report : Report) (now : ℕ) (s : Store)
    → (((scan : Scan)
          → get_scan tenant_id scan_id s ≡ some scan
          → str_eq scan.content_hash report.content_hash ≡ false)
        → record_scan_report tenant_id scan_id report now s
          ≡ (raised "scan_not_found_or_hash_mismatch", s))
      × ((scan : Scan)
          → get_scan tenant_id scan_id s ≡ some scan
          → scan.content_hash ≡ report.content_hash
          → (record_scan_report tenant_id scan_id report now s).0 ≡ ok (status_of report))
unfolding record_found
record_scan_report-refused tenant_id scan_id report now s = (
  λ other. elim (Option-cases (get_scan tenant_id scan_id s)) [
    | inl missing ↦ unfold record_scan_report in rw (missing, record_found)
    | inr (scan, found) ↦
        unfold record_scan_report in rw (found, record_found) (rw (other scan found))
  ],
  λ scan found same.
      ap (λ (p : Result String ScanStatus × Store). p.0)
        (record_scan_report-accepted tenant_id scan_id report now s scan found
          ((eq_iff scan.content_hash report.content_hash).1 same)),
)
