-- ===== src/StateMachine/Fuel.antt =====
-- Fuel of the executor of agent/orchestration/asl.py: more of it changes no run that ends.
use aws_foundations.Base.{
  ℕ, zero, suc, ◌≤◌, ◌≡◌, sym, false, List, [], ◌∷◌, Option, String, Result, ok, raise_if, ◌>>=◌,
  inl, inr, arith,
}
use aws_foundations.Base.Json.{Value, Fields, arr, to_items}
use aws_foundations.StateMachine.Paths.{JsonPath, Template, select}
use aws_foundations.StateMachine.Handlers.{
  Stop, Retrier, Catcher, fresh, all_attempts, with_handlers, state_context,
}
use aws_foundations.StateMachine.Definition.{
  Flow, Handling, State, succeed, fail, choice, pass, task, map_state, Machine, machine, States,
  state_named,
}
use aws_foundations.StateMachine.Retries.{is_unfinished}
use aws_foundations.StateMachine.Attempts.{
  World, lift, Runner, iterations, as_array, run_map, attempt,
}
use aws_foundations.StateMachine.Run.{
  Step, ends, goes, handled_step, step, known, launch, onward, run_from, run,
}
use aws_foundations.StateMachine.Approx.{
  Approx, cut, same, Approx-cases, Pointwise, no_more, both, >>=-Approx, collect-Approx,
  retry_loop-Approx,
}

-- A run of items that are approximated one by one.
iterations-Pointwise :
    (go more : Runner) (m : Machine) (selector : Option Template) (data' : Value) (ctx : Fields)
    (place : List ℕ) (index : ℕ) (vs : List Value)
    → ((m : Machine) (d : Value) (c : Fields) (p : List ℕ) → Approx (go m d c p) (more m d c p))
    → Pointwise
        (iterations go m selector data' ctx place index vs)
        (iterations more m selector data' ctx place index vs)
unfolding iterations
iterations-Pointwise go more m selector data' ctx place index [] h = no_more
iterations-Pointwise go more m selector data' ctx place index (v ∷ vs) h =
    both (>>=-Approx same (λ payload. h m payload _ _))
      (iterations-Pointwise go more m selector data' ctx place (suc index) vs h)

attempt-Approx :
    (h : Handling) (f g : Value → Result Stop Value) (data' : Value) (ctx : Fields)
    → ((v : Value) → Approx (f v) (g v))
    → Approx (attempt h f data' ctx) (attempt h g data' ctx)
unfolding attempt
attempt-Approx h f g data' ctx fg =
    >>=-Approx same λ effective. >>=-Approx (fg effective) λ result. same

run_map-Approx :
    (go more : Runner) (items_path : Option JsonPath) (selector : Option Template) (m : Machine)
    (data' : Value) (ctx : Fields) (place : List ℕ)
    → ((m : Machine) (d : Value) (c : Fields) (p : List ℕ) → Approx (go m d c p) (more m d c p))
    → Approx
        (run_map go items_path selector m data' ctx place)
        (run_map more items_path selector m data' ctx place)
unfolding run_map
run_map-Approx go more items_path selector m data' ctx place h =
    >>=-Approx {x = lift (select data' items_path ctx)} same λ found.
      >>=-Approx {x = lift (as_array found)} same λ vs.
        >>=-Approx {f = λ results. ok (arr (to_items results))}
          (collect-Approx (iterations-Pointwise go more m selector data' ctx place 0 vs h))
          λ results. same

handled-Approx :
    (flow : Flow) (rs : List Retrier) (cs : List Catcher) (data' : Value)
    (f g : ℕ → Result Stop Value)
    → ((n : ℕ) → Approx (f n) (g n))
    → Approx
        (with_handlers rs cs data' f >>= λ r. ok (handled_step flow r))
        (with_handlers rs cs data' g >>= λ r. ok (handled_step flow r))
unfolding with_handlers
handled-Approx flow rs cs data' f g fg =
    >>=-Approx {f = λ r. ok (handled_step flow r)}
      (retry_loop-Approx rs cs data' f g (suc (all_attempts rs)) (fresh rs) 0 fg) λ r. same

step-Approx :
    (world : World) (go more : Runner) (name : String) (s : State) (data' : Value) (ctx : Fields)
    (place : List ℕ)
    → ((m : Machine) (d : Value) (c : Fields) (p : List ℕ) → Approx (go m d c p) (more m d c p))
    → Approx (step world go name s data' ctx place) (step world more name s data' ctx place)
unfolding step
step-Approx world go more name (succeed i o) data' ctx place h = same
step-Approx world go more name (fail error why) data' ctx place h = same
step-Approx world go more name (choice rules default i o) data' ctx place h = same
step-Approx world go more name (pass parameters fixed path i o flow) data' ctx place h = same
step-Approx world go more name (task resource parameters hs) data' ctx place h = same
step-Approx world go more name (map_state items_path selector m hs) data' ctx place h =
    handled-Approx hs.flow hs.retriers hs.catchers data' _ _ λ retries.
      attempt-Approx hs
        (λ effective.
          run_map go items_path selector m effective (state_context name retries ctx)
            (retries ∷ place))
        (λ effective.
          run_map more items_path selector m effective (state_context name retries ctx)
            (retries ∷ place))
        data' (state_context name retries ctx)
        λ effective.
          run_map-Approx go more items_path selector m effective (state_context name retries ctx)
            (retries ∷ place) h

launch-Approx :
    {k l : States → String → Value → Fields → List ℕ → Result Stop Value}
    → ((ss : States) (n : String) (d : Value) (c : Fields) (p : List ℕ)
        → Approx (k ss n d c p) (l ss n d c p))
    → (m : Machine) (d : Value) (c : Fields) (p : List ℕ)
    → Approx (launch k m d c p) (launch l m d c p)
launch-Approx h (machine start states) d c p = h states start d c p

onward-Approx :
    {k l : String → Value → Result Stop Value}
    → ((n : String) (v : Value) → Approx (k n v) (l n v))
    → (turn : Step) → Approx (onward k turn) (onward l turn)
onward-Approx h (ends v) = same
onward-Approx h (goes n v) = h n v

-- A run with less fuel approximates a run with more.
run_from-Approx :
    (world : World) (less more : ℕ) (states : States) (name : String) (data' : Value) (ctx : Fields)
    (place : List ℕ) (entered : ℕ)
    → less ≤ more
    → Approx
        (run_from world less states name data' ctx place entered)
        (run_from world more states name data' ctx place entered)
unfolding run_from
run_from-Approx world zero more states name data' ctx place entered h = cut
run_from-Approx world (suc less) zero states name data' ctx place entered h = absurd (omega arith)
run_from-Approx world (suc less) (suc more) states name data' ctx place entered h =
    >>=-Approx {x = raise_if (world.is_late (entered ∷ place)) _} same λ t.
      >>=-Approx {x = known (state_named name states)} same λ s.
        >>=-Approx
          (step-Approx world _ _ name s data' ctx (entered ∷ place) (
            launch-Approx λ ss n d c p. run_from-Approx world less more ss n d c p 0 (omega arith)))
          (onward-Approx
            λ n v. run_from-Approx world less more states n v ctx place (suc entered) (omega arith))

-- A run that ends within some fuel ends in the same way, output or error, with any more of it.
pub run-more_fuel :
    (world : World) (less more : ℕ) (m : Machine) (data' : Value) (ctx : Fields) (place : List ℕ)
    → less ≤ more
    → is_unfinished (run world less m data' ctx place) ≡ false
    → run world more m data' ctx place ≡ run world less m data' ctx place
unfolding run
run-more_fuel world less more (machine start states) data' ctx place h ended =
    elim (Approx-cases (run_from-Approx world less more states start data' ctx place 0 h)) [
      | inl short ↦ absurd (ground arith)
      | inr alike ↦ sym alike
    ]
