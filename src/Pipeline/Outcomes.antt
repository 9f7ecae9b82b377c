-- ===== src/Pipeline/Outcomes.antt =====
-- Local runs: idempotent submits, bounded resumes, and no run left running.
use aws_foundations.Base.{
  ℕ, ◌+◌, ◌≤◌, ◌≡◌, refl, ap, Bool, true, Option, none, some, String, ok, arith, Option-cases,
  Bool-cases, Result-cases, inl, inr, str_eq,
}
use aws_foundations.Base.Json.{Value}
use aws_foundations.Base.Table.{pair_key, insert_taken}
use aws_foundations.Contracts.{Request, validate_request, max_generations}
use aws_foundations.Runs.{Run, queued, is_final, overlay}
use aws_foundations.Runs.Merge.{merge_run-overlay}
use aws_foundations.Runs.Store.Updates.{update_run-stored}
use aws_foundations.Runs.Store.{State, create_run, get_run, update_run}
use aws_foundations.Pipeline.{
  new_run, is_incomplete, next_request, resume_request, finalize_failed, requeued, Machine,
  close_run, execute, submit_existing, submit_created, submit, resume_updated, resume_run, resume,
}

close_run-final :
    (request : Request) (error : String) (found : Option Run) (s s' : State) (run : Run)
    → str_eq error "FinalizeFailed" ≡ true
    → close_run request (some error) found s ≡ (some run, s')
    → is_final run.status ≡ true
unfolding close_run
close_run-final request error none s s' run e h = absurd (ground arith)
close_run-final request error (some found) s s' run e h =
    elim (Bool-cases (is_final found.status)) [
      | inl final ↦ ground arith
      | inr active ↦
          let (current, _, m, _) =
            update_run-stored request.tenant_id request.run_id finalize_failed s s' run
              (ground arith) in
          rw (merge_run-overlay current run finalize_failed m) (unfold overlay is_final in refl)
    ]

-- Whatever the state machine did, a run that `execute` returns after a failed finalization has a
-- final status: it is not left queued or running.
pub execute-final :
    (machine : Machine) (request : Request) (s s' t : State) (error : String) (run : Run)
    → machine request s ≡ (some error, t)
    → str_eq error "FinalizeFailed" ≡ true
    → execute machine request s ≡ (some run, s')
    → is_final run.status ≡ true
unfolding execute
execute-final machine request s s' t error run m e h =
    close_run-final request error (get_run request.tenant_id request.run_id t) t s' run e
      (rw m at h)

-- Submitting a request again, once its run has a final outcome, returns that outcome; the store is
-- left alone and the state machine is not started, whatever it would do.
pub submit_again :
    (is_printable : String → Bool) (machine : Machine) (mode : String) (now : ℕ) (v : Value)
    (request : Request) (s : State) (run : Run)
    → validate_request is_printable v mode ≡ ok request
    → get_run request.tenant_id request.run_id s ≡ some run
    → is_final run.status ≡ true
    → submit is_printable machine mode now v s ≡ (ok (some run), s)
unfolding submit submit_created submit_existing create_run new_run get_run
submit_again is_printable machine mode now v request s run valid found final =
    rw (valid, submit)
      (rw
        (
          insert_taken (request.tenant_id, request.run_id) (new_run request now) s.runs found,
          submit_created,
        )
        (rw (found, submit_existing) (rw final)))

resume_request-ok :
    (run : Run) (request : Request)
    → resume_request run ≡ ok request
    → (request ≡ next_request run)
      × (run.generation + 1 ≤ max_generations)
      × (is_incomplete run.status ≡ true)
      × (run.resumable ≡ true)
unfolding resume_request
resume_request-ok run request h = ground arith

-- What a resume that did not raise has done before the state machine started.
pub record Resumed (machine : Machine) (tenant run_id : String) (s s' : State) (answer : Option Run)
    : Type 0 where
  pub previous : Run
  pub requeued_run : Run
  pub store : State
  pub found : get_run tenant run_id s ≡ some previous
  pub incomplete : is_incomplete previous.status ≡ true
  pub resumable : previous.resumable ≡ true
  pub within : previous.generation + 1 ≤ max_generations
  pub held : get_run tenant run_id store ≡ some requeued_run
  pub is_next : requeued_run.generation ≡ previous.generation + 1
  pub is_queued : requeued_run.status ≡ queued
  pub continued : execute machine (next_request previous) store ≡ (answer, s')

resume_updated-ok :
    (machine : Machine) (request : Request) (r : Option Run × State) (s' : State)
    (answer : Option Run)
    → resume_updated machine request r ≡ (ok answer, s')
    → (run : Run) × (r.0 ≡ some run) × (execute machine request r.1 ≡ (answer, s'))
unfolding resume_updated
resume_updated-ok machine request (none, t) s' answer h = absurd (ground arith)
resume_updated-ok machine request (some run, t) s' answer h = (run, refl, ground arith)

resume_run-Resumed :
    (machine : Machine) (tenant run_id : String) (run : Run) (s s' : State) (answer : Option Run)
    → get_run tenant run_id s ≡ some run
    → resume_run machine tenant run_id run s ≡ (ok answer, s')
    → Resumed machine tenant run_id s s' answer
unfolding resume_run
resume_run-Resumed machine tenant run_id run s s' answer found h =
    elim (Result-cases (resume_request run)) [
      | inr (code, refused) ↦ absurd (ground arith)
      | inl (request, accepted) ↦
          let (is_next, within, incomplete, resumable) = resume_request-ok run request accepted in
          let updated = update_run tenant run_id (requeued request.generation) s in
          let (merged, r, continued) =
            resume_updated-ok machine request updated s' answer (ground arith) in
          let (current, e, m, held) =
            update_run-stored tenant run_id (requeued request.generation) s updated.1 merged
              (ap (λ (o : Option Run). let p : Option Run × State = (o, updated.1) in p) r) in
          let same : merged ≡ overlay current (requeued request.generation) =
            merge_run-overlay current merged (requeued request.generation) m in
          record {
            previous = run;
            requeued_run = merged;
            store = updated.1;
            found = found;
            incomplete = incomplete;
            resumable = resumable;
            within = within;
            held = held;
            is_next = rw same (unfold overlay in ap (λ (q : Request). q.generation) is_next);
            is_queued = rw same (unfold overlay in refl);
            continued = rw (← is_next) continued;
          }
    ]

-- A resume that does not raise found a partial or failed run that is resumable, moved it to the next
-- generation, which is within the limit, as queued, and ran the state machine for that generation.
pub resume-Resumed :
    (machine : Machine) (tenant run_id : String) (s s' : State) (answer : Option Run)
    → resume machine tenant run_id s ≡ (ok answer, s')
    → Resumed machine tenant run_id s s' answer
unfolding resume
resume-Resumed machine tenant run_id s s' answer h = elim (Option-cases (get_run tenant run_id s)) [
  | inl missing ↦ absurd (ground arith)
  | inr (run, found) ↦ resume_run-Resumed machine tenant run_id run s s' answer found (ground arith)
]
