-- ===== src/Runs/Store/Updates.antt =====
-- `update_run` read back through `get_run`.
use aws_foundations.Base.{◌≡◌, some, String, arith, Option-cases, inl, inr, eq_iff}
use aws_foundations.Base.Table.{select, pair_key, select-update}
use aws_foundations.Runs.{Run, Changes, merge_run}
use aws_foundations.Runs.Store.{State, get_run, update_run, update_found}

-- An update of a record that is there, and whose merge is accepted, stores the merged record.
pub update_run-accepted :
    (tenant run_id : String) (changes : Changes) (s : State) (current merged : Run)
    → get_run tenant run_id s ≡ some current
    → merge_run current changes ≡ some merged
    → get_run tenant run_id (update_run tenant run_id changes s).1 ≡ some merged
unfolding update_run get_run update_found
update_run-accepted tenant run_id changes s current merged e m = ground (
  arith,
  select-update (tenant, run_id) (tenant, run_id) merged s.runs,
  eq_iff tenant tenant,
  eq_iff run_id run_id,
)

-- An update that returns a record has stored it.
pub update_run-stored :
    (tenant run_id : String) (changes : Changes) (s s' : State) (run : Run)
    → update_run tenant run_id changes s ≡ (some run, s')
    → (current : Run) × (get_run tenant run_id s ≡ some current)
      × (merge_run current changes ≡ some run)
      × (get_run tenant run_id s' ≡ some run)
unfolding update_run get_run
update_run-stored tenant run_id changes s s' run h =
    elim (Option-cases (select (tenant, run_id) s.runs)) [
      | inl missing ↦ absurd (unfold update_found in ground arith)
      | inr (current, e) ↦ elim (Option-cases (merge_run current changes)) [
        | inl refused ↦ absurd (unfold update_found in ground arith)
        | inr (merged, m) ↦
            unfold update_found in
            (
              current,
              e,
              ground arith,
              ground (
                arith,
                select-update (tenant, run_id) (tenant, run_id) merged s.runs,
                eq_iff tenant tenant,
                eq_iff run_id run_id,
              ),
            )
      ]
    ]
