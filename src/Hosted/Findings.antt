-- ===== src/Hosted/Findings.antt =====
-- Findings on DynamoDB are written once.
use aws_foundations.Base.{◌≡◌, refl, List, [], ◌∷◌, some, String, All}
use aws_foundations.Base.Table.{select, pair_key, insert_taken, insert-present}
use aws_foundations.Scans.{Finding}
use aws_foundations.Hosted.{Item, finding_item, Items, pk, finding_key, put_new, put_findings}
use aws_foundations.Hosted.Once.{put_findings-keeps}

-- There is an item under the key of a finding.
abbrev pub IsStored : String → String → Items → Finding → Type 0
IsStored tenant_id scan_id t f =
    (item : Item) × (select (pk tenant_id, finding_key scan_id f.finding_id) t ≡ some item)

put_findings-IsStored :
    (tenant_id scan_id : String) (fs : List Finding) (t : Items)
    → All (IsStored tenant_id scan_id (put_findings tenant_id scan_id fs t).1) fs
unfolding put_findings put_new
put_findings-IsStored tenant_id scan_id [] t = tt
put_findings-IsStored tenant_id scan_id (f ∷ fs) t =
    let (item, held) =
      insert-present (pk tenant_id, finding_key scan_id f.finding_id) (finding_item f.body) t in
    (
      (item, put_findings-keeps tenant_id scan_id fs _ item _ held),
      put_findings-IsStored tenant_id scan_id fs _,
    )

stored-written :
    (tenant_id scan_id : String) (fs : List Finding) (t : Items)
    → All (IsStored tenant_id scan_id t) fs
    → put_findings tenant_id scan_id fs t ≡ (0, t)
unfolding put_findings put_new
stored-written tenant_id scan_id [] t h = refl
stored-written tenant_id scan_id (f ∷ fs) t ((item, held), rest) =
    rw (insert_taken (pk tenant_id, finding_key scan_id f.finding_id) (finding_item f.body) t held)
      (rw (stored-written tenant_id scan_id fs t rest))

-- On DynamoDB every finding that is put has an item afterwards, and putting the same findings again
-- writes none and leaves the table as the first call left it.
pub hosted_put_findings_again :
    (tenant_id scan_id : String) (fs : List Finding) (t : Items)
    → let (n, t') = put_findings tenant_id scan_id fs t in
      All (IsStored tenant_id scan_id t') fs × (put_findings tenant_id scan_id fs t' ≡ (0, t'))
hosted_put_findings_again tenant_id scan_id fs t =
    let stored = put_findings-IsStored tenant_id scan_id fs t in
    (stored, stored-written tenant_id scan_id fs _ stored)
