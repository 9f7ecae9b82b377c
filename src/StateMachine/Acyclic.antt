-- ===== src/StateMachine/Acyclic.antt =====
-- Runs of the executor in agent/orchestration/asl.py end when the definition has no cycle.
use aws_foundations.Base.{
  ℕ, zero, suc, ◌≡◌, refl, false, List, [], ◌∷◌, ◌++◌, Option, none, some, String, Result, ok,
  raised, ◌>>=◌, All,
}
use aws_foundations.Base.Json.{Value, Fields}
use aws_foundations.StateMachine.Paths.{StatesError, JsonPath, Template, apply_result_path, select}
use aws_foundations.StateMachine.Handlers.{Stop, failed, unknown_state, unfinished, Catcher}
use aws_foundations.StateMachine.Definition.{
  Rule, Flow, next, finish, Handling, State, succeed, fail, choice, pass, task, map_state, Machine,
  machine, States, state_named,
}
use aws_foundations.StateMachine.Attempts.{
  lift, Runner, after_failure, collect, item_payload, item_context, iterations, as_array,
  resolve_or, run_map, attempt,
}
use aws_foundations.StateMachine.Retries.{is_unfinished}

abbrev pub flow_targets : Flow → List String
flow_targets (next name) = name ∷ []
flow_targets finish = []

abbrev pub default_targets : Option String → List String
default_targets none = []
default_targets (some name) = name ∷ []

abbrev pub rule_targets : List (Rule × String) → Option String → List String
rule_targets [] default = default_targets default
rule_targets ((r, to) ∷ rs) default = to ∷ rule_targets rs default

abbrev pub catch_targets : List Catcher → List String
catch_targets [] = []
catch_targets (c ∷ cs) = c.next ∷ catch_targets cs

-- The states that a state can go on to.
abbrev pub targets : State → List String
targets (succeed i o) = []
targets (fail error why) = []
targets (choice rules default i o) = rule_targets rules default
targets (pass parameters fixed path i o flow) = flow_targets flow
targets (task resource parameters h) = flow_targets h.flow ++ catch_targets h.catchers
targets (map_state items_path selector m h) = flow_targets h.flow ++ catch_targets h.catchers

abbrev pub Starts : (States → String → Type 0) → Machine → Type 0
Starts within (machine start states) = within states start

-- The machine of a map is within the same bound.
abbrev pub Inner : (States → String → Type 0) → State → Type 0
Inner within (map_state items_path selector m h) = Starts within m
Inner within _ = Unit {0}

abbrev pub Leads : (States → String → Type 0) → States → Option State → Type 0
Leads within states none = Unit {0}
Leads within states (some s) = All (within states) (targets s) × Inner within s

-- Every path from a state on, through the machines of maps as well, enters at most so many states.
abbrev pub IsWithin : ℕ → States → String → Type 0
IsWithin zero states name = ⊥
IsWithin (suc n) states name = Leads (IsWithin n) states (state_named name states)

module _ {A B : Type 0} where
  pub bind-finishes :
      (r : Result Stop A) (rest : A → Result Stop B)
      → is_unfinished r ≡ false
      → ((a : A) → r ≡ ok a → is_unfinished (rest a) ≡ false)
      → is_unfinished (r >>= rest) ≡ false
  bind-finishes (ok a) rest first_ends rest_ends = rest_ends a refl
  bind-finishes (raised (failed error)) rest first_ends rest_ends = refl
  bind-finishes (raised unknown_state) rest first_ends rest_ends = refl
  bind-finishes (raised unfinished) rest first_ends rest_ends = cc

pub lift-finishes : {A : Type 0} (r : Result StatesError A) → is_unfinished (lift r) ≡ false
lift-finishes (ok a) = refl
lift-finishes (raised error) = refl

pub lift_then :
    {A B : Type 0} (r : Result StatesError A) (rest : A → Result Stop B)
    → ((a : A) → is_unfinished (rest a) ≡ false)
    → is_unfinished (lift r >>= rest) ≡ false
lift_then (ok a) rest rest_ends = rest_ends a
lift_then (raised error) rest rest_ends = refl

pub attempt-finishes :
    (h : Handling) (body : Value → Result Stop Value) (data' : Value) (ctx : Fields)
    → ((v : Value) → is_unfinished (body v) ≡ false)
    → is_unfinished (attempt h body data' ctx) ≡ false
unfolding attempt
attempt-finishes h body data' ctx body_ends = lift_then (select data' h.input_path ctx) _ (λ v.
    bind-finishes (body v) _ (body_ends v) (λ r e.
      lift_then (resolve_or h.result_selector r ctx) _ (λ s.
        lift_then (apply_result_path data' s h.result_path) _
          (λ out. lift-finishes (select out h.output_path ctx)))))

after_failure-finishes :
    (error : StatesError) (m : Result Stop (List Value))
    → is_unfinished m ≡ false
    → is_unfinished (after_failure error m) ≡ false
unfolding after_failure
after_failure-finishes error (ok vs) h = refl
after_failure-finishes error (raised (failed other)) h = refl
after_failure-finishes error (raised unknown_state) h = refl
after_failure-finishes error (raised unfinished) h = cc

collect-finishes :
    (rs : List (Result Stop Value))
    → All (λ r. is_unfinished r ≡ false) rs
    → is_unfinished (collect rs) ≡ false
unfolding collect
collect-finishes [] h = refl
collect-finishes (ok v ∷ rs) (h, hs) =
    bind-finishes (collect rs) _ (collect-finishes rs hs) (λ vs e. refl)
collect-finishes (raised (failed error) ∷ rs) (h, hs) =
    after_failure-finishes error (collect rs) (collect-finishes rs hs)
collect-finishes (raised unknown_state ∷ rs) (h, hs) = refl
collect-finishes (raised unfinished ∷ rs) (h, hs) = cc

iterations-finish :
    (go : Runner) (m : Machine) (selector : Option Template) (data' : Value) (ctx : Fields)
    (place : List ℕ) (index : ℕ) (vs : List Value)
    → ((v : Value) (c : Fields) (p : List ℕ) → is_unfinished (go m v c p) ≡ false)
    → All (λ r. is_unfinished r ≡ false) (iterations go m selector data' ctx place index vs)
unfolding iterations
iterations-finish go m selector data' ctx place index [] inner = tt
iterations-finish go m selector data' ctx place index (item ∷ rest) inner = (
  lift_then (item_payload selector data' item (item_context index item ctx)) _
      (λ payload. inner payload _ _),
  iterations-finish go m selector data' ctx place (suc index) rest inner,
)

pub run_map-finishes :
    (go : Runner) (items_path : Option JsonPath) (selector : Option Template) (m : Machine)
    (data' : Value) (ctx : Fields) (place : List ℕ)
    → ((v : Value) (c : Fields) (p : List ℕ) → is_unfinished (go m v c p) ≡ false)
    → is_unfinished (run_map go items_path selector m data' ctx place) ≡ false
unfolding run_map
run_map-finishes go items_path selector m data' ctx place inner =
    lift_then (select data' items_path ctx) _ (λ found. lift_then (as_array found) _ (λ vs.
      bind-finishes (collect (iterations go m selector data' ctx place 0 vs)) _
        (collect-finishes _ (iterations-finish go m selector data' ctx place 0 vs inner))
        (λ results e. refl)))
