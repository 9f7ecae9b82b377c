-- ===== src/StateMachine/Tests.antt =====
-- A small pipeline through the executor, and the theorems at it.
use aws_foundations.Base.{
  ℕ, ◌≤◌, ◌≡◌, ◌≢◌, refl, false, List, [], ◌∷◌, none, some, String, Result, ok, raised, one_of,
  zero, suc,
}
use aws_foundations.Base.Json.{
  Value, str, num, null, obj, arr, Items, Fields, end, field, items, to_items, get,
}
use aws_foundations.Base.Int.{pos}
use aws_foundations.Base.Dicts.{put}
use aws_foundations.StateMachine.Paths.{
  StatesError, states_error, root, input, read_parts, read_path, resolve, found_or, replace, at,
  set_at, apply_result_path, select,
}
use aws_foundations.StateMachine.Handlers.{
  Stop, failed, unfinished, matches_any, matches, spend, fresh, catcher_for, catch_error,
  state_context, retry_loop, all_attempts, with_handlers,
}
use aws_foundations.StateMachine.Definition.{
  numeric_greater_than, compares, Flow, next, finish, Handling, succeed, fail, choice, task,
  map_state, cause, Machine, machine, no_state, state, state_named, compare_to, holds, target_of,
}
use aws_foundations.StateMachine.Attempts.{
  Reply, returned, threw, World, payload_limit, invoke, without, item_context, after_failure,
  collect, iterations, run_map, attempt,
}
use aws_foundations.StateMachine.Run.{
  choice_step, cause_text, step, run_from, run, succeeded, failed_with, execute,
}
use aws_foundations.StateMachine.Results.{read_path-apply_result_path}
use aws_foundations.StateMachine.Retries.{is_unfinished, with_handlers-finishes}
use aws_foundations.StateMachine.Iterations.{AreResults, run_map-results}
use aws_foundations.StateMachine.Bounds.{invoke-bounds}
use aws_foundations.StateMachine.Ending.{run-settles}

running : Unit {0}
unfolding items to_items get put one_of read_parts read_path found_or resolve set_at
    apply_result_path select matches_any matches spend fresh catcher_for catch_error state_context
    retry_loop all_attempts with_handlers state_named compare_to holds target_of invoke without
    item_context after_failure collect iterations run_map attempt choice_step cause_text step
    run_from run execute
running = tt

abbrev one : String → Value → Fields
one k v = field k v end

-- One retry on any error, a catcher that keeps the error, and the result under `out`.
abbrev handling : Flow → Handling
handling flow = record {
  input_path = some root;
  output_path = some root;
  result_path = at ("out" ∷ []);
  result_selector = none;
  retriers = record { error_equals = "States.ALL" ∷ []; max_attempts = 1 } ∷ [];
  catchers =
      record { error_equals = "States.ALL" ∷ []; result_path = at ("error" ∷ []); next = "Failed" }
      ∷ [];
  flow = flow;
}

abbrev item_machine : Machine
item_machine = machine "Detect" (
    state "Detect" (task "detect" none (record (handling finish) { result_path = replace }))
      no_state)

abbrev pipeline : Machine
pipeline = machine "Enough" (
    state "Enough"
      (choice ((compares (input ("count" ∷ [])) (numeric_greater_than (pos 0)), "Each") ∷ [])
        (some "Failed") (some root) (some root))
      (state "Each"
        (map_state (some (input ("items" ∷ []))) none item_machine (handling (next "Done")))
        (state "Done" (succeed (some root) (some (input ("out" ∷ []))))
          (state "Failed" (fail "Pipeline" (cause "no scan")) no_state))))

-- The first try of the second item throws; every other one returns its payload.
abbrev answer : List ℕ → String → Value → Reply
answer (zero ∷ zero ∷ suc zero ∷ _) resource v = threw "TransientStepError" "busy"
answer _ resource v = returned v

abbrev world : World
world = record { size = λ v. 1; reply = answer; is_late = λ place. false }

abbrev scan : Value
scan = obj (field "count" (num (pos 2)) (one "items" (arr (to_items (str "a" ∷ str "b" ∷ [])))))

-- The retry of the second item succeeds, and both results come back in order.
executed :
    execute world 5 pipeline scan "run" "today"
    ≡ succeeded (arr (to_items (str "a" ∷ str "b" ∷ [])))
unfolding running
executed = refl

-- Without anything to scan the choice takes its default, and the execution fails.
refused :
    execute world 5 pipeline (obj (one "count" (num (pos 0)))) "run" "today"
    ≡ failed_with (states_error "Pipeline" "no scan")
unfolding running
refused = refl

-- A context object is read only by a path that has parts: `$$` alone finds nothing.
whole_context : read_path (input ("" ∷ [])) scan end ≡ none
unfolding running
whole_context = refl

read_path-apply_result_path_example :
    (read_path
        (input ("out" ∷ "first" ∷ []))
        (obj (field "count" (num (pos 2)) (one "out" (obj (one "first" null)))))
        end
      ≡ some null)
    × (read_path
          (input ("count" ∷ []))
          (obj (field "count" (num (pos 2)) (one "out" (obj (one "first" null)))))
          end
        ≡ read_path (input ("count" ∷ [])) (obj (one "count" (num (pos 2)))) end)
unfolding running
read_path-apply_result_path_example =
    read_path-apply_result_path "out" ("first" ∷ []) (obj (one "count" (num (pos 2)))) null
      (obj (field "count" (num (pos 2)) (one "out" (obj (one "first" null))))) end "count" [] refl
      refl

abbrev busy : ℕ → Result Stop Value
busy n = raised (failed (states_error "TransientStepError" "busy"))

with_handlers-finishes_example :
    is_unfinished (with_handlers (handling finish).retriers (handling finish).catchers scan busy)
    ≡ false
with_handlers-finishes_example =
    with_handlers-finishes (handling finish).retriers (handling finish).catchers scan busy
      (λ n. refl)

abbrev too_large : StatesError
too_large = states_error "States.DataLimitExceeded" "task input exceeds 256 KiB"

run_map-results_example :
    (values : Items) × (results : List Value) × (select scan (some (input ("items" ∷ []))) end
      ≡ ok (arr values))
    × (arr (to_items (str "a" ∷ str "b" ∷ [])) ≡ arr (to_items results))
    × AreResults (run world 3) item_machine none scan end [] 0 (items values) results
unfolding running
run_map-results_example =
    run_map-results (run world 3) (some (input ("items" ∷ []))) none item_machine scan end []
      (arr (to_items (str "a" ∷ str "b" ∷ []))) refl

run-settles_example :
    (outcome : Result Stop Value) × (outcome ≢ raised unfinished)
    × ((fuel : ℕ) → 5 ≤ fuel → run world fuel pipeline scan end [] ≡ outcome)
unfolding running
run-settles_example =
    run-settles world 5 pipeline scan end []
      (((((tt, tt), ((tt, tt), tt)), ((tt, tt), tt)), ((tt, tt), tt)), tt)

invoke-bounds_example :
    (world.size null ≤ payload_limit)
    × (world.size null ≤ payload_limit)
    × (world.reply [] "detect" null ≡ returned null)
unfolding running
invoke-bounds_example = invoke-bounds world [] "detect" null null refl
