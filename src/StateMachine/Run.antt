-- ===== src/StateMachine/Run.antt =====
-- The loop of the executor in agent/orchestration/asl.py. Whether the time is over is given for
-- each place of the execution, as what the resources answer is.
use aws_foundations.Base.{
  ℕ, zero, suc, List, [], ◌∷◌, Option, none, some, String, Result, ok, raised, ◌>>=◌, ◌>>◌,
  raise_if,
}
use aws_foundations.Base.Json.{Value, str, obj, Fields, end, field}
use aws_foundations.StateMachine.Paths.{
  StatesError, states_error, JsonPath, read_path, Template, resolve, apply_result_path, select,
}
use aws_foundations.StateMachine.Handlers.{
  Stop, failed, unknown_state, unfinished, Handled, output, caught, state_context, with_handlers,
}
use aws_foundations.StateMachine.Definition.{
  Flow, next, finish, Cause, cause, cause_path, State, succeed, fail, choice, pass, task, map_state,
  Machine, machine, States, state_named, target_of,
}
use aws_foundations.StateMachine.Attempts.{
  World, invoke, lift, Runner, resolve_or, run_map, attempt,
}

-- the output of the machine, or the state to go on from
pub data Step : Type 0 where
  ends : Value → Step
  goes : String → Value → Step

abbrev pub flows : Flow → Value → Step
flows (next name) v = goes name v
flows finish v = ends v

abbrev pub handled_step : Flow → Handled → Step
handled_step flow (output v) = flows flow v
handled_step flow (caught v name) = goes name v

unfoldable pub cause_text : Cause → Value → Fields → String
cause_text (cause text) data' ctx = text
cause_text (cause_path path) data' ctx = elim (read_path path data' ctx) [
  | some (str s) ↦ s
  | _ ↦ ""
]

abbrev pub result_or : Option Value → Value → Value
result_or none v = v
result_or (some result) v = result

-- what a pass state puts out: its parameters, its result or its input
abbrev pub pass_result : Option Template → Option Value → Value → Fields → Result StatesError Value
pass_result (some template) fixed v ctx = resolve template v ctx
pass_result none fixed v ctx = ok (result_or fixed v)

unfoldable pub choice_step :
    Option String → Value → Option JsonPath → Fields → Result StatesError Step
choice_step none effective o ctx = raised (states_error "States.NoChoiceMatched" "matched no rule")
choice_step (some name) effective o ctx = do out ← select effective o ctx; ok (goes name out)

-- One turn of the loop of `_run`, in the state of a name.
unfoldable pub step : World → Runner → String → State → Value → Fields → List ℕ → Result Stop Step
step world go name (succeed i o) data' ctx place = do
  effective ← lift (select data' i ctx)
  out ← lift (select effective o ctx)
  ok (ends out)
step world go name (fail error why) data' ctx place =
    raised (failed (states_error error (cause_text why data' ctx)))
step world go name (choice rules default i o) data' ctx place = do
  effective ← lift (select data' i ctx)
  target ← lift (target_of rules default effective ctx)
  lift (choice_step target effective o ctx)
step world go name (pass parameters fixed path i o flow) data' ctx place = do
  effective ← lift (select data' i ctx)
  result ← lift (pass_result parameters fixed effective ctx)
  changed ← lift (apply_result_path data' result path)
  out ← lift (select changed o ctx)
  ok (flows flow out)
step world go name (task resource parameters h) data' ctx place = do
  handled ← with_handlers h.retriers h.catchers data' λ retries.
      let inner = state_context name retries ctx in
      attempt h
        (λ effective.
          lift (resolve_or parameters effective inner >>= invoke world (retries ∷ place) resource))
        data' inner
  ok (handled_step h.flow handled)
step world go name (map_state items_path selector m h) data' ctx place = do
  handled ← with_handlers h.retriers h.catchers data' λ retries.
      let inner = state_context name retries ctx in
      attempt h (λ effective. run_map go items_path selector m effective inner (retries ∷ place))
        data' inner
  ok (handled_step h.flow handled)

-- the run of a machine from its first state
abbrev pub launch : (States → String → Value → Fields → List ℕ → Result Stop Value) → Runner
launch start_at (machine start states) data' ctx place = start_at states start data' ctx place

abbrev pub onward : (String → Value → Result Stop Value) → Step → Result Stop Value
onward continue (ends v) = ok v
onward continue (goes name v) = continue name v

abbrev pub known : Option State → Result Stop State
known none = raised unknown_state
known (some s) = ok s

-- The loop of `_run` from a state on, which is the `entered`-th that this machine enters.
module _ (world : World) where
  unfoldable pub run_from : ℕ → States → String → Value → Fields → List ℕ → ℕ → Result Stop Value
  run_from zero states name data' ctx place entered = raised unfinished
  run_from (suc fuel) states name data' ctx place entered = do
    raise_if (world.is_late (entered ∷ place))
        (failed (states_error "States.Timeout" "execution timed out"))
    s ← known (state_named name states)
    turn ←
        step world (launch (λ inner start d c p. run_from fuel inner start d c p 0)) name s data'
          ctx (entered ∷ place)
    onward (λ to v. run_from fuel states to v ctx place (suc entered)) turn

  unfoldable pub run : ℕ → Runner
  run fuel (machine start states) data' ctx place = run_from fuel states start data' ctx place 0

pub data Status : Type 0 where
  running : Status
  succeeded : Value → Status
  failed_with : StatesError → Status

-- `execute`, from its name and the time it starts at; out of fuel it is still running
abbrev pub execution_context : String → Value → String → Fields
execution_context name payload started =
    field "Execution"
      (obj (
        field "Id" (str (Prim.Native.String.◌++◌ "local:" name))
          (field "Name" (str name) (field "Input" payload (field "StartTime" (str started) end)))))
      (field "StateMachine" (obj (field "Name" (str "local-scan-pipeline") end)) end)

unfoldable pub execute : World → ℕ → Machine → Value → String → String → Status
execute world fuel m payload name started =
    elim (run world fuel m payload (execution_context name payload started) []) [
      | ok v ↦ succeeded v
      | raised (failed error) ↦ failed_with error
      | raised _ ↦ running
    ]
