-- ===== src/Pipeline.antt =====
-- The entry points of agent/orchestration/pipeline.py over the run store: submit, resume and the
-- closing of a run whose execution did not finalize. The state machine that runs the steps is a
-- parameter, `machine`, that returns the name of the error it ended with and the store it leaves;
-- for AWS, `start` is the reply of Step Functions to `start_execution`.
pub mod Outcomes
pub mod Hosted
pub mod Reconcile
mod Tests
use aws_foundations.Base.{
  ℕ, ◌+◌, Bool, true, false, not, ◌&&◌, ◌||◌, List, [], ◌∷◌, Option, none, some, String, Result, ok,
  raised, ◌>>=◌, ◌>>◌, raise_if, ltb, str_eq, if◌then◌else◌,
}
use aws_foundations.Base.Json.{Value}
use aws_foundations.Contracts.{Request, validate_request, max_generations}
use aws_foundations.Runs.{
  Run, RunRequest, RunStatus, queued, partial, failed, completed, running, Changes, no_changes,
  is_final,
}
use aws_foundations.Runs.Store.{State, create_run, get_run, update_run}

-- `new_run`
unfoldable pub new_run : Request → ℕ → Run
new_run request now = record {
  tenant_id = request.tenant_id;
  user_id = request.user_id;
  run_id = request.run_id;
  request = record {
    source_ref = request.source_ref;
    environments = request.environments;
    audience = request.audience;
  };
  status = queued;
  reason = none;
  resumable = false;
  generation = 0;
  version = 0;
  result_ref = none;
  created_at = now;
  updated_at = now;
  details = [];
}

-- `status in {"partial", "failed"}`
unfoldable pub is_incomplete : RunStatus → Bool
is_incomplete partial = true
is_incomplete failed = true
is_incomplete _ = false

abbrev next_request : Run → Request
next_request run = record {
  tenant_id = run.tenant_id;
  user_id = run.user_id;
  run_id = run.run_id;
  source_ref = run.request.source_ref;
  environments = run.request.environments;
  audience = run.request.audience;
  generation = run.generation + 1;
  refresh = false;
}

-- `resume_request`
unfoldable pub resume_request : Run → Result String Request
resume_request run = do
  raise_if (not (is_incomplete run.status && run.resumable)) "run_not_resumable"
  raise_if (ltb max_generations (run.generation + 1)) "resume_limit_reached"
  ok (next_request run)

abbrev finalize_failed : Changes
finalize_failed = record no_changes {
  status = some failed;
  reason = some (some "finalize_failed");
  resumable = some true;
}

abbrev requeued : ℕ → Changes
requeued generation = record no_changes { generation = some generation; status = some queued }

abbrev Machine : Type 0
Machine = Request → State → Option String × State

abbrev is_error : String → Option String → Bool
is_error name none = false
is_error name (some e) = str_eq e name

-- `self.last_execution.error == "FinalizeFailed" and run and run["status"] not in FINAL`
unfoldable pub close_run : Request → Option String → Option Run → State → Option Run × State
close_run request error none s = (none, s)
close_run request error (some run) s =
    if is_error "FinalizeFailed" error && not (is_final run.status)
    then update_run request.tenant_id request.run_id finalize_failed s
    else (some run, s)

-- `LocalPipeline._execute`
unfoldable pub execute : Machine → Request → State → Option Run × State
execute machine request s =
    let (error, s') = machine request s in
    close_run request error (get_run request.tenant_id request.run_id s') s'

abbrev Answer : Type 0
Answer = Result String (Option Run) × State

abbrev answered : Option Run × State → Answer
answered (run, s) = (ok run, s)

unfoldable pub submit_existing : Machine → Request → Option Run → State → Answer
submit_existing machine request none s = answered (execute machine request s)
submit_existing machine request (some existing) s =
    if is_final existing.status
    then (ok (some existing), s)
    else answered (execute machine request s)

unfoldable pub submit_created : Machine → Request → Bool × State → Answer
submit_created machine request (true, s) = answered (execute machine request s)
submit_created machine request (false, s) =
    submit_existing machine request (get_run request.tenant_id request.run_id s) s

-- `LocalPipeline.submit`
unfoldable pub submit : (String → Bool) → Machine → String → ℕ → Value → State → Answer
submit is_printable machine mode now v s = elim (validate_request is_printable v mode) [
  | raised code ↦ (raised code, s)
  | ok request ↦ submit_created machine request (create_run (new_run request now) s)
]

unfoldable pub resume_updated : Machine → Request → Option Run × State → Answer
resume_updated machine request (none, s) = (raised "run_not_resumable", s)
resume_updated machine request (some run, s) = answered (execute machine request s)

unfoldable pub resume_run : Machine → String → String → Run → State → Answer
resume_run machine tenant run_id run s = elim (resume_request run) [
  | raised code ↦ (raised code, s)
  | ok request ↦
      resume_updated machine request (update_run tenant run_id (requeued request.generation) s)
]

-- `LocalPipeline.resume`
unfoldable pub resume : Machine → String → String → State → Answer
resume machine tenant run_id s = elim (get_run tenant run_id s) [
  | none ↦ (raised "run_not_found", s)
  | some run ↦ resume_run machine tenant run_id run s
]

-- What Step Functions answers to `start_execution`.
pub data Start : Type 0 where
  started already_exists start_failed : Start

abbrev start_failure : ℕ → Changes
start_failure generation = record no_changes {
  status = some failed;
  reason = some (some "workflow_start_failed");
  resumable = some true;
  generation = some generation;
}

-- `StepFunctionsPipeline._start`: a failed start marks the run and raises again.
unfoldable pub start_run : (Request → Start) → Request → State → Result String (Unit {0}) × State
start_run start request s = elim (start request) [
  | started ↦ (ok tt, s)
  | already_exists ↦ (ok tt, s)
  | start_failed ↦ (
    raised "start_execution",
    (update_run request.tenant_id request.run_id (start_failure request.generation) s).1,
  )
]

abbrev reported : String → String → Result String (Unit {0}) × State → Answer
reported tenant run_id (ok _, s) = (ok (get_run tenant run_id s), s)
reported tenant run_id (raised e, s) = (raised e, s)

-- `run and run["status"] == "queued"`
unfoldable pub is_queued : Option Run → Bool
is_queued none = false
is_queued (some run) = elim run.status [ queued ↦ true | _ ↦ false ]

unfoldable pub hosted_start : (Request → Start) → Request → Bool × State → Answer
hosted_start start request (created, s) =
    if created || is_queued (get_run request.tenant_id request.run_id s)
    then reported request.tenant_id request.run_id (start_run start request s)
    else (ok (get_run request.tenant_id request.run_id s), s)

-- `StepFunctionsPipeline.submit`
unfoldable pub hosted_submit : (String → Bool) → (Request → Start) → ℕ → Value → State → Answer
hosted_submit is_printable start now v s = elim (validate_request is_printable v "aws") [
  | raised code ↦ (raised code, s)
  | ok request ↦ hosted_start start request (create_run (new_run request now) s)
]

unfoldable pub hosted_updated :
    (Request → Start) → String → String → Request → Option Run × State → Answer
hosted_updated start tenant run_id request (none, s) = (ok (get_run tenant run_id s), s)
hosted_updated start tenant run_id request (some run, s) =
    reported tenant run_id (start_run start request s)

unfoldable pub hosted_resume_run : (Request → Start) → String → String → Run → State → Answer
hosted_resume_run start tenant run_id run s = elim (resume_request run) [
  | raised code ↦ (raised code, s)
  | ok request ↦
      hosted_updated start tenant run_id request
        (update_run tenant run_id (requeued request.generation) s)
]

-- `StepFunctionsPipeline.resume`
unfoldable pub hosted_resume : (Request → Start) → String → String → State → Answer
hosted_resume start tenant run_id s = elim (get_run tenant run_id s) [
  | none ↦ (raised "run_not_found", s)
  | some run ↦ hosted_resume_run start tenant run_id run s
]
