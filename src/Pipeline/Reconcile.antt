-- ===== src/Pipeline/Reconcile.antt =====
-- `execution_status_handler` of api/handlers.py: an execution that ended abnormally never leaves its
-- run marked as running. The event comes as its status and its input's fields; where the input is
-- read from, EventBridge or Step Functions, is not modelled.
use aws_foundations.Base.{
  ℕ, ◌==◌, ◌≡◌, refl, Bool, true, false, not, ◌&&◌, Option, none, some, String, str_eq, arith,
  if◌then◌else◌, Bool-cases, inl, inr, [], ◌∷◌, one_of, ==_refl,
}
use aws_foundations.Base.Int.{pos}
use aws_foundations.Base.Json.{Value, bool, num, str, Fields, get}
use aws_foundations.Contracts.{is_run_id}
use aws_foundations.Runs.{Run, failed, Changes, no_changes, is_final, is_active, merge_run, overlay}
use aws_foundations.Runs.Store.{State, get_run, update_run}
use aws_foundations.Runs.Store.Updates.{update_run-accepted}

unfoldable pub is_abnormal : String → Bool
is_abnormal status = one_of status ("FAILED" ∷ "TIMED_OUT" ∷ "ABORTED" ∷ [])

-- `f"execution_{status.lower()}"` of an abnormal status
unfoldable pub execution_reason : String → String
execution_reason status =
    if str_eq status "FAILED"
    then "execution_failed"
    else if str_eq status "TIMED_OUT"
    then "execution_timed_out"
    else "execution_aborted"

-- `request.get("generation", 0)` as a number, in which Python reads a Boolean as 0 or 1
unfoldable pub generation_of : Option Value → Option ℕ
generation_of none = some 0
generation_of (some (num (pos n))) = some n
generation_of (some (bool b)) = some (if b then 1 else 0)
generation_of (some _) = none

abbrev abnormal_end : String → ℕ → Changes
abnormal_end status generation = record no_changes {
  status = some failed;
  reason = some (some (execution_reason status));
  resumable = some true;
  generation = some generation;
}

abbrev is_generation : Option ℕ → ℕ → Bool
is_generation none generation = false
is_generation (some n) generation = generation == n

abbrev updated : Option Run × State → Bool × State
updated (none, s) = (false, s)
updated (some run, s) = (true, s)

unfoldable pub reconcile_run :
    String → Option ℕ → String → String → Option Run → State → Bool × State
reconcile_run status generation tenant run_id none s = (false, s)
reconcile_run status generation tenant run_id (some run) s =
    if not (is_final run.status) && is_generation generation run.generation
    then updated (update_run tenant run_id (abnormal_end status run.generation) s)
    else (false, s)

unfoldable pub reconcile_named :
    String → Option ℕ → Option Value → Option Value → State → Bool × State
reconcile_named status generation (some (str tenant)) (some (str run_id)) s =
    if is_run_id run_id
    then reconcile_run status generation tenant run_id (get_run tenant run_id s) s
    else (false, s)
reconcile_named status generation _ _ s = (false, s)

unfoldable pub reconcile : String → Fields → State → Bool × State
reconcile status request s =
    if is_abnormal status
    then reconcile_named status (generation_of (get "generation" request)) (get "tenant_id" request)
        (get "run_id" request) s
    else (false, s)

abnormal_end-accepted :
    (status : String) (run : Run)
    → is_final run.status ≡ false
    → merge_run run (abnormal_end status run.generation)
      ≡ some (overlay run (abnormal_end status run.generation))
unfolding merge_run is_active
abnormal_end-accepted status run active = ground arith

updated_state : (p : Option Run × State) → (updated p).1 ≡ p.1
updated_state (none, s) = refl
updated_state (some run, s) = refl

reconcile_run-final :
    (status tenant run_id : String) (s : State) (run : Run)
    → get_run tenant run_id s ≡ some run
    → (left : Run) × (get_run tenant run_id
          (reconcile_run status (some run.generation) tenant run_id (some run) s).1
        ≡ some left)
      × (is_final left.status ≡ true)
      × (left.generation ≡ run.generation)
unfolding reconcile_run
reconcile_run-final status tenant run_id s run found = elim (Bool-cases (is_final run.status)) [
  | inl final ↦ rw final (run, found, final, refl)
  | inr active ↦
      let changes : Changes = abnormal_end status run.generation in
      let merged = abnormal_end-accepted status run active in
      let held =
        update_run-accepted tenant run_id changes s run (overlay run changes) found merged in
      rw (active, ==_refl run.generation)
        (rw (updated_state (update_run tenant run_id changes s))
          (overlay run changes, held, unfold overlay is_final in refl, unfold overlay in refl))
]

-- After an event of an abnormal end, a run of the event's tenant, id and generation has a final
-- status, whichever it had before, and its generation.
pub reconcile-final :
    (status tenant run_id : String) (request : Fields) (s : State) (run : Run)
    → is_abnormal status ≡ true
    → get "tenant_id" request ≡ some (str tenant)
    → get "run_id" request ≡ some (str run_id)
    → is_run_id run_id ≡ true
    → get_run tenant run_id s ≡ some run
    → generation_of (get "generation" request) ≡ some run.generation
    → (left : Run) × (get_run tenant run_id (reconcile status request s).1 ≡ some left)
      × (is_final left.status ≡ true)
      × (left.generation ≡ run.generation)
unfolding reconcile reconcile_named
reconcile-final status tenant run_id request s run abnormal t r named found same =
    rw (abnormal, t, r, same)
      (rw (named, reconcile_named)
        (rw found (reconcile_run-final status tenant run_id s run found)))
