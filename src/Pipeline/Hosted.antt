-- ===== src/Pipeline/Hosted.antt =====
-- Hosted runs: a start that fails is recorded, and no second execution is asked for.
use aws_foundations.Base.{ℕ, ◌≤◌, ◌≡◌, refl, Bool, true, false, some, String, ok, raised, arith}
use aws_foundations.Base.Json.{Value}
use aws_foundations.Base.Table.{pair_key, insert_taken}
use aws_foundations.Contracts.{Request, validate_request}
use aws_foundations.Runs.{Run, failed, Changes, is_active, merge_run, overlay}
use aws_foundations.Runs.Store.Updates.{update_run-accepted}
use aws_foundations.Runs.Store.{State, create_run, get_run}
use aws_foundations.Pipeline.{
  new_run, Start, start_failed, start_failure, start_run, is_queued, hosted_start, hosted_submit,
}

start_failure_accepted :
    (run : Run) (generation : ℕ)
    → run.generation ≤ generation
    → merge_run run (start_failure generation) ≡ some (overlay run (start_failure generation))
unfolding merge_run is_active
start_failure_accepted run generation newer = ground arith

-- A failed start of the run's own or a newer generation leaves the run failed, with the reason, and
-- open to a resume; the failure is raised.
pub start_run-failed :
    (start : Request → Start) (request : Request) (s : State) (run : Run)
    → start request ≡ start_failed
    → get_run request.tenant_id request.run_id s ≡ some run
    → run.generation ≤ request.generation
    → let (r, s') = start_run start request s in
      (r ≡ raised "start_execution")
      × (left : Run) × (get_run request.tenant_id request.run_id s' ≡ some left)
      × (left.status ≡ failed)
      × (left.reason ≡ some "workflow_start_failed")
      × (left.resumable ≡ true)
      × (left.generation ≡ request.generation)
unfolding start_run
start_run-failed start request s run f found newer =
    let changes : Changes = start_failure request.generation in
    let merged : merge_run run changes ≡ some (overlay run changes) =
      start_failure_accepted run request.generation newer in
    let held =
      update_run-accepted request.tenant_id request.run_id changes s run (overlay run changes) found
        merged in
    rw (f, start_run)
      (
        refl,
        overlay run changes,
        held,
        unfold overlay in refl,
        unfold overlay in refl,
        unfold overlay in refl,
        unfold overlay in refl,
      )

-- Submitting again a run that exists and is no longer queued starts nothing: whatever Step Functions
-- would answer, the store is unchanged and the run is returned as it is.
pub hosted_submit_again :
    (is_printable : String → Bool) (start : Request → Start) (now : ℕ) (v : Value)
    (request : Request) (s : State) (run : Run)
    → validate_request is_printable v "aws" ≡ ok request
    → get_run request.tenant_id request.run_id s ≡ some run
    → is_queued (some run) ≡ false
    → hosted_submit is_printable start now v s ≡ (ok (some run), s)
unfolding hosted_submit hosted_start create_run new_run get_run
hosted_submit_again is_printable start now v request s run valid found busy =
    rw (valid, hosted_submit)
      (rw
        (
          insert_taken (request.tenant_id, request.run_id) (new_run request now) s.runs found,
          hosted_start,
        )
        (rw (found, busy)))
