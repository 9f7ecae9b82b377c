-- ===== src/StateMachine/Attempts.antt =====
-- What an attempt at a task or a map does in agent/orchestration/asl.py. What a resource answers
-- is given for each place of the execution: the states entered before, the retries and the index
-- of the item, of every machine around. So the iterations of a map may overlap in any way.
use aws_foundations.Base.{
  ℕ, suc, Bool, List, [], ◌∷◌, Option, none, some, String, Result, ok, raised, ◌>>=◌, ◌>>◌,
  raise_if, ltb, str_eq, if◌then◌else◌,
}
use aws_foundations.Base.Json.{Value, num, obj, arr, Fields, end, field, items, to_items}
use aws_foundations.Base.Int.{pos}
use aws_foundations.Base.Dicts.{put}
use aws_foundations.StateMachine.Paths.{
  StatesError, states_error, JsonPath, Template, resolve, apply_result_path, select,
}
use aws_foundations.StateMachine.Handlers.{Stop, failed, unknown_state, unfinished}
use aws_foundations.StateMachine.Definition.{Handling, Machine}

-- what a resource does with a payload: a result, a timeout, or an exception, whose class is the
-- error name and whose cause is given as the text that reports it
pub data Reply : Type 0 where
  returned : Value → Reply
  timed_out : Reply
  threw : String → String → Reply

-- The surroundings of an execution: the length of a value as JSON, and by place what a resource
-- answers and whether the deadline has passed.
pub record World : Type 0 where
  pub size : Value → ℕ
  pub reply : List ℕ → String → Value → Reply
  pub is_late : List ℕ → Bool

abbrev pub payload_limit : ℕ
payload_limit = 262144

-- the future's result, or the error that stands for it
abbrev pub answered : Reply → Result StatesError Value
answered (returned v) = ok v
answered timed_out = raised (states_error "States.Timeout" "task timed out")
answered (threw name report) = raised (states_error name report)

unfoldable pub invoke : World → List ℕ → String → Value → Result StatesError Value
invoke world place resource payload = do
  raise_if (ltb payload_limit (world.size payload))
      (states_error "States.DataLimitExceeded" "task input exceeds 256 KiB")
  result ← answered (world.reply place resource payload)
  raise_if (ltb payload_limit (world.size result))
      (states_error "States.DataLimitExceeded" "task output exceeds 256 KiB")
  ok result

abbrev pub lift : {A : Type 0} → Result StatesError A → Result Stop A
lift (ok a) = ok a
lift (raised error) = raised (failed error)

-- `item_context`
unfoldable pub without : String → Fields → Fields
without k end = end
without k (field j v fs) = let rest = without k fs in if str_eq j k then rest else field j v rest

unfoldable pub item_context : ℕ → Value → Fields → Fields
item_context index item ctx = without "State" (
    put "Map"
      (obj (field "Item" (obj (field "Index" (num (pos index)) (field "Value" item end))) end)) ctx)

-- A failure waits for the other iterations, and is raised unless these never end.
unfoldable pub after_failure : StatesError → Result Stop (List Value) → Result Stop (List Value)
after_failure error (raised unfinished) = raised unfinished
after_failure error (raised unknown_state) = raised unknown_state
after_failure error _ = raised (failed error)

-- The results of the iterations: all of them are awaited, and the first error is raised.
unfoldable pub collect : List (Result Stop Value) → Result Stop (List Value)
collect [] = ok []
collect (ok v ∷ rs) = do vs ← collect rs; ok (v ∷ vs)
collect (raised (failed error) ∷ rs) = after_failure error (collect rs)
collect (raised stop ∷ rs) = raised stop

-- the run of a machine on an input, in a context and at a place
abbrev pub Runner : Type 0
Runner = Machine → Value → Fields → List ℕ → Result Stop Value

abbrev pub item_payload : Option Template → Value → Value → Fields → Result StatesError Value
item_payload none data' item ctx = ok item
item_payload (some selector) data' item ctx = resolve selector data' ctx

unfoldable pub iterations :
    Runner
    → Machine
    → Option Template
    → Value
    → Fields
    → List ℕ
    → ℕ
    → List Value
    → List (Result Stop Value)
iterations go m selector data' ctx place index [] = []
iterations go m selector data' ctx place index (item ∷ rest) =
    (lift (item_payload selector data' item (item_context index item ctx)) >>= λ payload.
    go m payload (item_context index item ctx) (index ∷ place))
    ∷ iterations go m selector data' ctx place (suc index) rest

abbrev pub as_array : Value → Result StatesError (List Value)
as_array (arr vs) = ok (items vs)
as_array _ = raised (states_error "States.Runtime" "ItemsPath must select an array")

-- `_map`
unfoldable pub run_map :
    Runner
    → Option JsonPath
    → Option Template
    → Machine
    → Value
    → Fields
    → List ℕ
    → Result Stop Value
run_map go items_path selector m data' ctx place = do
  selected ← lift (select data' items_path ctx)
  vs ← lift (as_array selected)
  results ← collect (iterations go m selector data' ctx place 0 vs)
  ok (arr (to_items results))

abbrev pub resolve_or : Option Template → Value → Fields → Result StatesError Value
resolve_or none v ctx = ok v
resolve_or (some template) v ctx = resolve template v ctx

-- `_attempt`, around what the state itself does
unfoldable pub attempt : Handling → (Value → Result Stop Value) → Value → Fields → Result Stop Value
attempt h body data' ctx = do
  effective ← lift (select data' h.input_path ctx)
  result ← body effective
  selected ← lift (resolve_or h.result_selector result ctx)
  out ← lift (apply_result_path data' selected h.result_path)
  lift (select out h.output_path ctx)
