-- ===== src/Pipeline/Tests.antt =====
-- Runs submitted, started and resumed at concrete requests.
use aws_foundations.Base.{
  ◌≡◌, refl, true, [], ◌∷◌, none, some, String, ok, raised, arith, one_of, any, all, codes, text_eq,
}
use aws_foundations.Base.Int.{pos}
use aws_foundations.Base.Json.{num, str, Fields, field, end, get}
use aws_foundations.Base.Table.{select, update, insert, pair_key}
use aws_foundations.Contracts.{Request, is_run_id, hex_32, after_prefix, is_hex}
use aws_foundations.Contracts.Tests.{all_printable, request_from, accepted_from, upload_is_accepted}
use aws_foundations.Runs.{
  Run, RunStatus, queued, running, completed, partial, failed, is_final, is_active, merge_run,
  overlay,
}
use aws_foundations.Runs.Store.{State, get_run, update_run, update_found}
use aws_foundations.Pipeline.{
  is_incomplete, resume_request, finalize_failed, requeued, Machine, close_run, execute,
  resume_updated, resume_run, resume, started, start_failed, start_run, submit, hosted_submit,
  is_queued,
}
use aws_foundations.Pipeline.Outcomes.{execute-final, submit_again, resume-Resumed, Resumed}
use aws_foundations.Pipeline.Reconcile.{is_abnormal, generation_of, reconcile, reconcile-final}
use aws_foundations.Pipeline.Hosted.{start_run-failed, hosted_submit_again}

reconciling : Unit {0}
unfolding is_abnormal one_of any all codes text_eq is_run_id hex_32 after_prefix is_hex
    generation_of get
reconciling = tt

executing : Unit {0}
unfolding is_incomplete resume_request close_run execute resume_updated resume_run resume get_run
    update_run update_found select update insert merge_run overlay is_final is_active is_queued
    start_run
executing = tt

abbrev run_id : String
run_id = "run-0123456789abcdef0123456789abcdef"

abbrev request : Request
request = accepted_from "upload:site-1.zip"

abbrev run_in : RunStatus → Run
run_in status = record {
  tenant_id = "acme";
  user_id = "ada@acme";
  run_id = run_id;
  request = record {
    source_ref = "upload:site-1.zip";
    environments = "development" ∷ "staging" ∷ [];
    audience = "beginner";
  };
  status = status;
  reason = none;
  resumable = true;
  generation = 1;
  version = 3;
  result_ref = none;
  created_at = 10;
  updated_at = 20;
  details = [];
}

abbrev holding : RunStatus → State
holding status = record {
  runs = (("acme", run_id), run_in status) ∷ [];
  checkpoints = [];
  reviews = [];
}

abbrev stuck : Machine
stuck asked s = (some "FinalizeFailed", s)

abbrev idle : Machine
idle asked s = (none, s)

abbrev closed : Run
closed = overlay (run_in running) finalize_failed

execute-final_example : is_final closed.status ≡ true
execute-final_example =
    execute-final stuck request (holding running)
      (record (holding running) { runs = (("acme", run_id), closed) ∷ [] }) (holding running)
      "FinalizeFailed" closed refl refl (unfold executing in refl)

submit_again_example :
    submit all_printable stuck "aws" 99 (request_from "upload:site-1.zip") (holding completed)
    ≡ (ok (some (run_in completed)), holding completed)
submit_again_example =
    submit_again all_printable stuck "aws" 99 (request_from "upload:site-1.zip") request
      (holding completed) (run_in completed) upload_is_accepted (unfold executing in refl)
      (unfold executing in refl)

abbrev next_run : Run
next_run = overlay (run_in partial) (requeued 2)

abbrev after_resume : State
after_resume = record (holding partial) { runs = (("acme", run_id), next_run) ∷ [] }

resume-Resumed_example : Resumed idle "acme" run_id (holding partial) after_resume (some next_run)
resume-Resumed_example =
    resume-Resumed idle "acme" run_id (holding partial) after_resume (some next_run)
      (unfold executing in refl)

start_run-failed_example :
    let (r, s') = start_run (λ q. start_failed) request (holding queued) in
    (r ≡ raised "start_execution")
    × (left : Run) × (get_run "acme" run_id s' ≡ some left)
    × (left.status ≡ failed)
    × (left.reason ≡ some "workflow_start_failed")
    × (left.resumable ≡ true)
    × (left.generation ≡ 2)
start_run-failed_example =
    start_run-failed (λ q. start_failed) request (holding queued) (run_in queued) refl
      (unfold executing in refl) (omega arith)

hosted_submit_again_example :
    hosted_submit all_printable
      (λ q. started)
      99
      (request_from "upload:site-1.zip")
      (holding running)
    ≡ (ok (some (run_in running)), holding running)
hosted_submit_again_example =
    hosted_submit_again all_printable (λ q. started) 99 (request_from "upload:site-1.zip") request
      (holding running) (run_in running) upload_is_accepted (unfold executing in refl)
      (unfold executing in refl)

abbrev timed_out : Fields
timed_out =
    field "tenant_id" (str "acme")
      (field "run_id" (str run_id) (field "generation" (num (pos 1)) end))

reconcile-final_example :
    (left : Run) × (get_run "acme" run_id (reconcile "TIMED_OUT" timed_out (holding running)).1
      ≡ some left)
    × (is_final left.status ≡ true)
    × (left.generation ≡ 1)
reconcile-final_example =
    reconcile-final "TIMED_OUT" "acme" run_id timed_out (holding running) (run_in running)
      (unfold reconciling in refl) (unfold reconciling in refl) (unfold reconciling in refl)
      (unfold reconciling in refl) (unfold executing in refl) (unfold reconciling in refl)
