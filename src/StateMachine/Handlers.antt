-- ===== src/StateMachine/Handlers.antt =====
-- Retriers and catchers of agent/orchestration/asl.py, over any attempt at a state.
use aws_foundations.Base.{
  ℕ, zero, suc, ◌+◌, Bool, false, not, ◌&&◌, ◌||◌, List, [], ◌∷◌, Option, none, some, String,
  Result, ok, raised, ltb, str_eq, one_of, if◌then◌else◌,
}
use aws_foundations.Base.Json.{Value, str, num, obj, Fields, end, field}
use aws_foundations.Base.Int.{pos}
use aws_foundations.Base.Dicts.{put}
use aws_foundations.StateMachine.Paths.{StatesError, ResultPath, apply_result_path}

-- Why a run stops without an output: an error of the states language, a state that the machine
-- does not have (`validate` rejects those), or the fuel is used up.
pub data Stop : Type 0 where
  failed : StatesError → Stop
  unknown_state unfinished : Stop

-- `UNCATCHABLE`
abbrev pub uncatchable : List String
uncatchable = "States.Runtime" ∷ "States.DataLimitExceeded" ∷ []

-- the loop of `_matches`
unfoldable pub matches_any : List String → String → Bool
matches_any [] name = false
matches_any (error ∷ errors) name =
    str_eq error "States.ALL"
    || str_eq error name
    || (str_eq error "States.TaskFailed" && not (str_eq name "States.Timeout"))
    || matches_any errors name

unfoldable pub matches : List String → String → Bool
matches errors name = if one_of name uncatchable then false else matches_any errors name

-- a retrier; its delays are left out
pub record Retrier : Type 0 where
  pub error_equals : List String
  pub max_attempts : ℕ

pub record Catcher : Type 0 where
  pub error_equals : List String
  pub result_path : ResultPath
  pub next : String

abbrev pub counted : ℕ → Option (List ℕ) → Option (List ℕ)
counted c none = none
counted c (some cs) = some (c ∷ cs)

-- The first retrier that matches counts one more attempt, if it has one left.
unfoldable pub spend : String → List Retrier → List ℕ → Option (List ℕ)
spend name [] counters = none
spend name (r ∷ rs) [] = none
spend name (r ∷ rs) (c ∷ cs) =
    let rest = counted c (spend name rs cs) in
    if matches r.error_equals name
    then if ltb c r.max_attempts then some (suc c ∷ cs) else none
    else rest

-- `[0] * len(state.get("Retry", []))`
unfoldable pub fresh : List Retrier → List ℕ
fresh [] = []
fresh (r ∷ rs) = 0 ∷ fresh rs

unfoldable pub catcher_for : String → List Catcher → Option Catcher
catcher_for name [] = none
catcher_for name (c ∷ cs) =
    let rest = catcher_for name cs in if matches c.error_equals name then some c else rest

-- What the handlers leave: an output, or a caught error with the state to go on from.
pub data Handled : Type 0 where
  output : Value → Handled
  caught : Value → String → Handled

abbrev pub error_output : StatesError → Value
error_output error = obj (field "Error" (str error.name) (field "Cause" (str error.cause) end))

abbrev pub caught_at : String → Result StatesError Value → Result Stop Handled
caught_at next (ok v) = ok (caught v next)
caught_at next (raised error) = raised (failed error)

unfoldable pub catch_error : List Catcher → Value → StatesError → Result Stop Handled
catch_error catchers data' error = elim (catcher_for error.name catchers) [
  | none ↦ raised (failed error)
  | some c ↦ caught_at c.next (apply_result_path data' (error_output error) c.result_path)
]

-- `{**context, "State": {…}}`
unfoldable pub state_context : String → ℕ → Fields → Fields
state_context name retries ctx =
    put "State" (obj (field "Name" (str name) (field "RetryCount" (num (pos retries)) end))) ctx

module _ (retriers : List Retrier) (catchers : List Catcher) (data' : Value) where
  -- The loop of `_with_handlers`; the attempt is given by the number of retries before it.
  unfoldable pub retry_loop : (ℕ → Result Stop Value) → ℕ → List ℕ → ℕ → Result Stop Handled
  retry_loop attempt zero counters retries = raised unfinished
  retry_loop attempt (suc fuel) counters retries = elim (attempt retries) [
    | ok v ↦ ok (output v)
    | raised unfinished ↦ raised unfinished
    | raised unknown_state ↦ raised unknown_state
    | raised (failed error) ↦ elim (spend error.name retriers counters) [
      | none ↦ catch_error catchers data' error
      | some spent ↦ retry_loop attempt fuel spent (suc retries)
    ]
  ]

-- the attempts that the retriers have together
unfoldable pub all_attempts : List Retrier → ℕ
all_attempts [] = 0
all_attempts (r ∷ rs) = r.max_attempts + all_attempts rs

-- `_with_handlers`; each retry spends an attempt, so that one more than all of them is fuel enough
unfoldable pub with_handlers :
    List Retrier → List Catcher → Value → (ℕ → Result Stop Value) → Result Stop Handled
with_handlers retriers catchers data' attempt =
    retry_loop retriers catchers data' attempt (suc (all_attempts retriers)) (fresh retriers) 0
