-- ===== src/Hosted/Agreement.antt =====
-- When the DynamoDB table and the local store hold the same scans and deployments, and that a scan
-- for a content keeps it so.
use aws_foundations.Base.{
  ℕ, ◌≡◌, ◌∙◌, refl, sym, ap, subst, Bool, true, false, ◌&&◌, List, [], ◌∷◌, Option, none, some,
  String, is_some, str_eq, str_eq_sound, str_eq_refl, Bool-cases, Option-cases, &&-eq_true, inl,
  inr, arith, if◌then◌else◌,
}
use aws_foundations.Base.Table.{select, pair_key, insert_taken, insert_free}
use aws_foundations.Scans as Local
use aws_foundations.Scans.{
  Scan, ScanStatus, DeploymentAttempt, Store, empty, has_content, Digest, new_scan, set_found,
}
use aws_foundations.Hosted.{
  Item, scan_item, deployment_item, Items, pk, scan_key, deployment_key, put_new, create_scan,
  set_scan_status, create_deployment,
}
use aws_foundations.Hosted.Keys.{same_scan, scan_no_deployment}

-- A call of the lifecycle: a scan for a content, a new status of a scan, or a deployment.
pub data Call : Type 0 where
  start : String → String → String → Option String → ℕ → Call
  set_status : String → String → ScanStatus → ℕ → Call
  deploy : DeploymentAttempt → Call

unfoldable pub locally : Digest → Call → Store → Bool × Store
locally digest (start tenant content source execution now) s =
    Local.create_scan (new_scan digest tenant content source execution now) s
locally digest (set_status tenant scan_id status now) s =
    Local.set_scan_status tenant scan_id status now s
locally digest (deploy attempt) s = Local.create_deployment attempt s

unfoldable pub hosted : Digest → Call → Items → Bool × Items
hosted digest (start tenant content source execution now) t =
    create_scan (new_scan digest tenant content source execution now) t
hosted digest (set_status tenant scan_id status now) t = set_scan_status tenant scan_id status now t
hosted digest (deploy attempt) t = create_deployment attempt t

-- What a run of calls answers, and the state it leaves.
unfoldable pub run_locally : Digest → List Call → Store → List Bool × Store
run_locally digest [] s = ([], s)
run_locally digest (c ∷ cs) s =
    let (answer, s') = locally digest c s in
    let (answers, s'') = run_locally digest cs s' in (answer ∷ answers, s'')

unfoldable pub run_hosted : Digest → List Call → Items → List Bool × Items
run_hosted digest [] t = ([], t)
run_hosted digest (c ∷ cs) t =
    let (answer, t') = hosted digest c t in
    let (answers, t'') = run_hosted digest cs t' in (answer ∷ answers, t'')

abbrev pub as_scan : Option Scan → Option Item
as_scan none = none
as_scan (some scan) = some (scan_item scan)

abbrev pub as_deployment : Option DeploymentAttempt → Option Item
as_deployment none = none
as_deployment (some attempt) = some (deployment_item attempt)

-- The table holds what the store holds, and a content that the store has is a scan of its digest.
pub record Agrees (digest : Digest) (t : Items) (s : Store) : Type 0 where
  pub scans :
      (tenant id : String)
      → select (pk tenant, scan_key id) t ≡ as_scan (select (tenant, id) s.scans)
  pub deployments :
      (tenant id : String)
      → select (pk tenant, deployment_key id) t ≡ as_deployment (select (tenant, id) s.deployments)
  pub digests :
      (tenant content : String)
      → has_content tenant content s.scans ≡ true
      → is_some (select (tenant, digest tenant content) s.scans) ≡ true

as_scan-if :
    (b : Bool) (scan : Scan) (o : Option Scan)
    → as_scan (if b then some scan else o) ≡ (if b then some (scan_item scan) else as_scan o)
as_scan-if true scan o = refl
as_scan-if false scan o = refl

local_taken :
    (scan old : Scan) (s : Store)
    → select (scan.tenant_id, scan.scan_id) s.scans ≡ some old
    → Local.create_scan scan s ≡ (false, s)
unfolding Local.create_scan
local_taken scan old s taken =
    elim (Bool-cases (has_content scan.tenant_id scan.content_hash s.scans)) [
      | inl known ↦ rw known refl
      | inr fresh ↦ rw (fresh, insert_taken (scan.tenant_id, scan.scan_id) scan s.scans taken) refl
    ]

local_free :
    (scan : Scan) (s : Store)
    → has_content scan.tenant_id scan.content_hash s.scans ≡ false
    → select (scan.tenant_id, scan.scan_id) s.scans ≡ none
    → Local.create_scan scan s
      ≡ (true, record s { scans = ((scan.tenant_id, scan.scan_id), scan) ∷ s.scans })
unfolding Local.create_scan
local_free scan s fresh free =
    rw (fresh, insert_free (scan.tenant_id, scan.scan_id) scan s.scans free) refl

added-digests :
    (digest : Digest) (scan : Scan) (s : Store)
    → scan.scan_id ≡ digest scan.tenant_id scan.content_hash
    → ((tenant content : String)
        → has_content tenant content s.scans ≡ true
        → is_some (select (tenant, digest tenant content) s.scans) ≡ true)
    → (tenant content : String)
    → has_content tenant content (((scan.tenant_id, scan.scan_id), scan) ∷ s.scans) ≡ true
    → is_some
        (select (tenant, digest tenant content) (((scan.tenant_id, scan.scan_id), scan) ∷ s.scans))
      ≡ true
unfolding select has_content
added-digests digest scan s by_digest known tenant content h =
    let same_content = str_eq scan.tenant_id tenant && str_eq scan.content_hash content in
    elim (Bool-cases same_content) [
      | inr other ↦ let old = known tenant content (ground arith) in ground arith
      | inl same ↦
          let (st, sc) =
            &&-eq_true (str_eq scan.tenant_id tenant) (str_eq scan.content_hash content) same in
          let t_eq = str_eq_sound scan.tenant_id tenant st in
          let c_eq = str_eq_sound scan.content_hash content sc in
          let id_eq : scan.scan_id ≡ digest tenant content = cc in
          let key : str_eq scan.scan_id (digest tenant content) ≡ true =
            subst (λ i. str_eq scan.scan_id i ≡ true) id_eq (str_eq_refl scan.scan_id) in
          ground arith
    ]

-- The states after a scan that was free.
added-Agrees :
    (digest : Digest) (scan : Scan) (t : Items) (s : Store)
    → scan.scan_id ≡ digest scan.tenant_id scan.content_hash
    → Agrees digest t s
    → Agrees digest
        (((pk scan.tenant_id, scan_key scan.scan_id), scan_item scan) ∷ t)
        (record s { scans = ((scan.tenant_id, scan.scan_id), scan) ∷ s.scans })
unfolding select has_content
added-Agrees digest scan t s by_digest a = record {
  scans = λ tenant id.
      rw (same_scan scan.tenant_id tenant scan.scan_id id) (ground (arith, a.scans tenant id));
  deployments = λ tenant id.
      rw (scan_no_deployment scan.tenant_id tenant scan.scan_id id) (a.deployments tenant id);
  digests = λ tenant content h. added-digests digest scan s by_digest a.digests tenant content h;
}

none-free :
    (digest : Digest) (scan : Scan) (t : Items) (s : Store)
    → scan.scan_id ≡ digest scan.tenant_id scan.content_hash
    → Agrees digest t s
    → select (scan.tenant_id, scan.scan_id) s.scans ≡ none
    → has_content scan.tenant_id scan.content_hash s.scans ≡ false
none-free digest scan t s by_digest a free =
    elim (Bool-cases (has_content scan.tenant_id scan.content_hash s.scans)) [
      | inr fresh ↦ fresh
      | inl known ↦
          let there = a.digests scan.tenant_id scan.content_hash known in
          let missing : select (scan.tenant_id, digest scan.tenant_id scan.content_hash) s.scans
              ≡ none =
            subst (λ i. select (scan.tenant_id, i) s.scans ≡ none) by_digest free in
          absurd (ground arith)
    ]

-- What a step of both leaves: the same answer, and states that agree.
abbrev pub Steps : Digest → Bool × Items → Bool × Store → Type 0
Steps digest (b, t) (c, s) = (c ≡ b) × Agrees digest t s

pub create_scan-Steps :
    (digest : Digest) (scan : Scan) (t : Items) (s : Store)
    → scan.scan_id ≡ digest scan.tenant_id scan.content_hash
    → Agrees digest t s
    → Steps digest (create_scan scan t) (Local.create_scan scan s)
unfolding create_scan put_new
create_scan-Steps digest scan t s by_digest a =
    let here = a.scans scan.tenant_id scan.scan_id in
    elim (Option-cases (select (scan.tenant_id, scan.scan_id) s.scans)) [
      | inr (old, taken) ↦
          let there : select (pk scan.tenant_id, scan_key scan.scan_id) t ≡ some (scan_item old) =
            here ∙ ap as_scan taken in
          subst (Steps digest _) (sym (local_taken scan old s taken)) (
            subst (λ r. Steps digest r (false, s))
              (sym
                (insert_taken (pk scan.tenant_id, scan_key scan.scan_id) (scan_item scan) t there))
              (refl, a))
      | inl free ↦
          let there : select (pk scan.tenant_id, scan_key scan.scan_id) t ≡ none =
            here ∙ ap as_scan free in
          subst (Steps digest _)
            (sym (local_free scan s (none-free digest scan t s by_digest a free) free))
            (subst
              (λ r.
                Steps digest r
                  (true, record s { scans = ((scan.tenant_id, scan.scan_id), scan) ∷ s.scans }))
              (sym
                (insert_free (pk scan.tenant_id, scan_key scan.scan_id) (scan_item scan) t there))
              (refl, added-Agrees digest scan t s by_digest a))
    ]
