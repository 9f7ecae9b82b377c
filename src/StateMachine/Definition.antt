-- ===== src/StateMachine/Definition.antt =====
-- The state machine definitions of agent/orchestration/asl.py and the rules of their choices.
use aws_foundations.Base.{
  Bool, true, false, not, List, [], ◌∷◌, Option, none, some, String, Result, ok, ◌>>=◌, str_eq,
  is_some, if◌then◌else◌,
}
use aws_foundations.Base.Json.{Value, str, num, bool, null, Fields}
use aws_foundations.Base.Int.{ℤ, leb_ℤ}
use aws_foundations.Base.Dicts.{same_int}
use aws_foundations.StateMachine.Paths.{
  StatesError, states_error, JsonPath, read_path, Template, found_or, ResultPath,
}
use aws_foundations.StateMachine.Handlers.{Retrier, Catcher}

-- `COMPARISONS`, without fractions
pub data Comparison : Type 0 where
  string_equals : String → Comparison
  boolean_equals : Bool → Comparison
  numeric_equals numeric_greater_than numeric_less_than : ℤ → Comparison

mutual
  pub data Rule : Type 0 where
    every either : Rules → Rule
    negation : Rule → Rule
    is_present is_null : JsonPath → Bool → Rule
    compares : JsonPath → Comparison → Rule

  pub data Rules : Type 0 where
    no_rule : Rules
    rule : Rule → Rules → Rules

-- `Next`, or `End`
pub data Flow : Type 0 where
  next : String → Flow
  finish : Flow

-- The fields that tasks and maps share; an absent path is `$`, and `none` is null.
pub record Handling : Type 0 where
  pub input_path : Option JsonPath
  pub output_path : Option JsonPath
  pub result_path : ResultPath
  pub result_selector : Option Template
  pub retriers : List Retrier
  pub catchers : List Catcher
  pub flow : Flow

-- `Cause`, or `CausePath`
pub data Cause : Type 0 where
  cause : String → Cause
  cause_path : JsonPath → Cause

mutual
  pub data State : Type 0 where
    succeed : Option JsonPath → Option JsonPath → State
    fail : String → Cause → State
    choice : List (Rule × String) → Option String → Option JsonPath → Option JsonPath → State
    pass :
        Option Template
        → Option Value
        → ResultPath
        → Option JsonPath
        → Option JsonPath
        → Flow
        → State
    task : String → Option Template → Handling → State
    map_state : Option JsonPath → Option Template → Machine → Handling → State

  pub data Machine : Type 0 where
    machine : String → States → Machine

  pub data States : Type 0 where
    no_state : States
    state : String → State → States → States

unfoldable pub state_named : String → States → Option State
state_named name no_state = none
state_named name (state n s rest) = if str_eq n name then some s else state_named name rest

abbrev pub same_bool : Bool → Bool → Bool
same_bool true b = b
same_bool false b = not b

unfoldable pub compare_to : Comparison → Value → Bool
compare_to (string_equals t) (str s) = str_eq s t
compare_to (boolean_equals b) (bool a) = same_bool a b
compare_to (numeric_equals m) (num n) = same_int n m
compare_to (numeric_greater_than m) (num n) = not (leb_ℤ n m)
compare_to (numeric_less_than m) (num n) = not (leb_ℤ m n)
compare_to _ _ = false

abbrev pub is_null_value : Value → Bool
is_null_value null = true
is_null_value _ = false

abbrev pub invalid_path : StatesError
invalid_path = states_error "States.Runtime" "Invalid path"

-- `_choice`; `all` and `any` stop at the first answer
unfoldable mutual
  pub holds : Rule → Value → Fields → Result StatesError Bool
  holds (every rs) data' ctx = all_hold rs data' ctx
  holds (either rs) data' ctx = some_holds rs data' ctx
  holds (negation r) data' ctx = do b ← holds r data' ctx; ok (not b)
  holds (is_present path b) data' ctx = ok (same_bool (is_some (read_path path data' ctx)) b)
  holds (is_null path b) data' ctx = do
    v ← found_or invalid_path (read_path path data' ctx)
    ok (same_bool (is_null_value v) b)
  holds (compares path c) data' ctx = do
    v ← found_or invalid_path (read_path path data' ctx)
    ok (compare_to c v)

  pub all_hold : Rules → Value → Fields → Result StatesError Bool
  all_hold no_rule data' ctx = ok true
  all_hold (rule r rs) data' ctx = do
    b ← holds r data' ctx
    elim b [ true ↦ all_hold rs data' ctx | false ↦ ok false ]

  pub some_holds : Rules → Value → Fields → Result StatesError Bool
  some_holds no_rule data' ctx = ok false
  some_holds (rule r rs) data' ctx = do
    b ← holds r data' ctx
    elim b [ true ↦ ok true | false ↦ some_holds rs data' ctx ]

-- the first rule that holds, or the default
unfoldable pub target_of :
    List (Rule × String) → Option String → Value → Fields → Result StatesError (Option String)
target_of [] default data' ctx = ok default
target_of ((r, to) ∷ rs) default data' ctx = do
  b ← holds r data' ctx
  elim b [ true ↦ ok (some to) | false ↦ target_of rs default data' ctx ]
