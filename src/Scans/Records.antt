-- ===== src/Scans/Records.antt =====
-- Scan records: one per content, and findings that are written once.
use aws_foundations.Base.{
  ◌≡◌, refl, true, false, ◌&&◌, List, [], ◌∷◌, Option, none, some, String, ok, arith, eq_iff,
  str_eq, All, subst, if◌then◌else◌,
}
use aws_foundations.Base.Json.{Value}
use aws_foundations.Base.Table.{
  Table, select, insert, or_other, select-insert_or, pair_key, triple_key, select-insert_present,
  insert_taken, insert-present,
}
use aws_foundations.Scans.{
  Scan, Finding, Store, has_content, create_scan, get_scan, insert_findings, put_findings,
}

-- A row of the table of scans holds this content of the tenant.
has_content-select :
    (tenant id : String) (scan : Scan) (rows : Table (String × String) Scan)
    → select (tenant, id) rows ≡ some scan
    → has_content tenant scan.content_hash rows ≡ true
unfolding select has_content
has_content-select tenant id scan [] h = cc
has_content-select tenant id scan (((t, r), row) ∷ rows) h = ground (
  arith,
  has_content-select tenant id scan rows,
  eq_iff t tenant,
  eq_iff scan.content_hash scan.content_hash,
)

-- A second scan of a content that the tenant has a scan of is refused, and changes nothing.
pub create_scan_again :
    (scan old : Scan) (id : String) (s : Store)
    → get_scan scan.tenant_id id s ≡ some old
    → old.content_hash ≡ scan.content_hash
    → create_scan scan s ≡ (false, s)
unfolding create_scan get_scan
create_scan_again scan old id s found same = rw (
  subst (λ h. has_content scan.tenant_id h s.scans ≡ true) same
      (has_content-select scan.tenant_id id old s.scans found),
  create_scan,
)

-- A finding that is stored keeps its body, whatever findings are put afterwards.
insert_findings-keeps :
    (tenant scan_id : String) (fs : List Finding) (k : (String × String) × String) (body : Value)
    (rows : Table ((String × String) × String) Value)
    → select k rows ≡ some body
    → select k (insert_findings tenant scan_id fs rows).1 ≡ some body
unfolding insert_findings
insert_findings-keeps tenant scan_id [] k body rows h = h
insert_findings-keeps tenant scan_id (f ∷ fs) k body rows h =
    insert_findings-keeps tenant scan_id fs k body _
      (select-insert_present ((tenant, scan_id), f.finding_id) k f.body body rows h)

-- Every finding of the list is stored.
abbrev pub IsStored : String → String → Table ((String × String) × String) Value → Finding → Type 0
IsStored tenant scan_id rows f =
    (body : Value) × (select ((tenant, scan_id), f.finding_id) rows ≡ some body)

pub insert_findings-IsStored :
    (tenant scan_id : String) (fs : List Finding) (rows : Table ((String × String) × String) Value)
    → All (IsStored tenant scan_id (insert_findings tenant scan_id fs rows).1) fs
unfolding insert_findings
insert_findings-IsStored tenant scan_id [] rows = tt
insert_findings-IsStored tenant scan_id (f ∷ fs) rows =
    let (body, held) = insert-present ((tenant, scan_id), f.finding_id) f.body rows in
    (
      (body, insert_findings-keeps tenant scan_id fs _ body _ held),
      insert_findings-IsStored tenant scan_id fs _,
    )

-- The body that a list of findings has for an id: that of the first.
abbrev pub first_body : String → List Finding → Option Value
first_body id [] = none
first_body id (f ∷ fs) = if str_eq f.finding_id id then some f.body else first_body id fs

-- What the table of findings holds afterwards: the rows that it held, and under each other id of the
-- list the body of its first finding.
pub insert_findings-exact :
    (tenant scan_id t r id : String) (fs : List Finding)
    (rows : Table ((String × String) × String) Value)
    → select ((t, r), id) (insert_findings tenant scan_id fs rows).1
      ≡ or_other
          (select ((t, r), id) rows)
          (if str_eq tenant t && str_eq scan_id r then first_body id fs else none)
unfolding insert_findings
insert_findings-exact tenant scan_id t r id [] rows = ground arith
insert_findings-exact tenant scan_id t r id (f ∷ fs) rows =
    rw
      (
        insert_findings-exact tenant scan_id t r id fs
            (insert ((tenant, scan_id), f.finding_id) f.body rows).1,
        select-insert_or ((tenant, scan_id), f.finding_id) ((t, r), id) f.body rows,
      )
      (ground arith)

-- Putting the same findings again writes none.
taken-written :
    (tenant scan_id : String) (fs : List Finding) (rows : Table ((String × String) × String) Value)
    → All (IsStored tenant scan_id rows) fs
    → insert_findings tenant scan_id fs rows ≡ (0, rows)
unfolding insert_findings
taken-written tenant scan_id [] rows h = refl
taken-written tenant scan_id (f ∷ fs) rows ((body, held), rest) =
    rw (insert_taken ((tenant, scan_id), f.finding_id) f.body rows held)
      (rw (taken-written tenant scan_id fs rows rest))

pub put_found :
    (tenant scan_id : String) (findings : List Finding) (s : Store) (scan : Scan)
    → get_scan tenant scan_id s ≡ some scan
    → let (n, rows) = insert_findings tenant scan_id findings s.findings in
      put_findings tenant scan_id findings s ≡ (ok n, record s { findings = rows })
unfolding put_findings insert_findings
put_found tenant scan_id findings s scan found = rw (found, put_findings)

-- A retried `put_findings` writes nothing and reports that: it answers 0 and leaves the store as the
-- first call left it.
pub put_findings_again :
    (tenant scan_id : String) (findings : List Finding) (s : Store) (scan : Scan)
    → get_scan tenant scan_id s ≡ some scan
    → let (r, s') = put_findings tenant scan_id findings s in
      put_findings tenant scan_id findings s' ≡ (ok 0, s')
put_findings_again tenant scan_id findings s scan found =
    let n = (insert_findings tenant scan_id findings s.findings).0 in
    let rows = (insert_findings tenant scan_id findings s.findings).1 in
    let t : Store = record s { findings = rows } in
    let once : put_findings tenant scan_id findings s ≡ (ok n, t) =
      put_found tenant scan_id findings s scan found in
    let none_left =
      taken-written tenant scan_id findings rows
        (insert_findings-IsStored tenant scan_id findings s.findings) in
    let twice = put_found tenant scan_id findings t scan (unfold get_scan in found) in
    rw once (rw none_left at twice)
