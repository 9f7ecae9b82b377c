-- ===== src/StateMachine/Ending.antt =====
-- When a run of the executor in agent/orchestration/asl.py ends.
use aws_foundations.Base.{
  ℕ, zero, suc, ◌≤◌, ◌≡◌, ◌≢◌, refl, subst, Bool, true, false, List, ◌∷◌, some, String, Result,
  raised, ◌>>◌, raise_if, Option-cases, inl, inr, Any-All_elim, All,
}
use aws_foundations.Base.Json.{Value, Fields}
use aws_foundations.StateMachine.Paths.{StatesError, apply_result_path, select}
use aws_foundations.StateMachine.Handlers.{Stop, failed, unfinished, with_handlers}
use aws_foundations.StateMachine.Definition.{
  State, succeed, fail, choice, pass, task, map_state, Machine, machine, States, state_named,
  target_of,
}
use aws_foundations.StateMachine.Attempts.{World, Runner}
use aws_foundations.StateMachine.Run.{
  Step, ends, goes, choice_step, step, launch, onward, run_from, run, pass_result,
}
use aws_foundations.StateMachine.Fuel.{run-more_fuel}
use aws_foundations.StateMachine.Retries.{is_unfinished, with_handlers-finishes}
use aws_foundations.StateMachine.Acyclic.{
  targets, Starts, Inner, Leads, IsWithin, bind-finishes, lift-finishes, lift_then,
  attempt-finishes, run_map-finishes,
}
use aws_foundations.StateMachine.Targets.{GoesTo, step-GoesTo}

-- A turn of a state ends, if the machine of its map does.
step-finishes :
    (world : World) (go : Runner) (name : String) (s : State) (data' : Value) (ctx : Fields)
    (place : List ℕ) (within : States → String → Type 0)
    → ((m : Machine) (v : Value) (c : Fields) (p : List ℕ)
        → Starts within m
        → is_unfinished (go m v c p) ≡ false)
    → Inner within s
    → is_unfinished (step world go name s data' ctx place) ≡ false
unfolding step
step-finishes world go name (succeed i o) data' ctx place within runs inner =
    lift_then (select data' i ctx) _
      (λ effective. lift_then (select effective o ctx) _ (λ out. refl))
step-finishes world go name (fail error why) data' ctx place within runs inner = refl
step-finishes world go name (choice rules default i o) data' ctx place within runs inner =
    lift_then (select data' i ctx) _ (λ effective.
      lift_then (target_of rules default effective ctx) _
        (λ target. lift-finishes (choice_step target effective o ctx)))
step-finishes world go name (pass parameters fixed path i o flow) data' ctx place within runs
      inner =
    lift_then (select data' i ctx) _ (λ effective.
      lift_then (pass_result parameters fixed effective ctx) _ (λ result.
        lift_then (apply_result_path data' result path) _
          (λ changed. lift_then (select changed o ctx) _ (λ out. refl))))
step-finishes world go name (task resource parameters h) data' ctx place within runs inner =
    bind-finishes (with_handlers h.retriers h.catchers data' _) _
      (with_handlers-finishes h.retriers h.catchers data' _
        (λ n. attempt-finishes h _ data' _ (λ v. lift-finishes _)))
      (λ handled e. refl)
step-finishes world go name (map_state items_path selector m h) data' ctx place within runs inner =
    bind-finishes (with_handlers h.retriers h.catchers data' _) _
      (with_handlers-finishes h.retriers h.catchers data' _ (λ n.
        attempt-finishes h _ data' _
          (λ v. run_map-finishes go items_path selector m v _ _ (λ w c p. runs m w c p inner))))
      (λ handled e. refl)

raise_if-finishes :
    {B : Type 0} (late : Bool) (error : StatesError) (rest : Result Stop B)
    → is_unfinished rest ≡ false
    → is_unfinished (raise_if late (failed error) >> rest) ≡ false
raise_if-finishes true error rest h = refl
raise_if-finishes false error rest h = h

launch-finishes :
    (within : States → String → Type 0)
    (start_at : States → String → Value → Fields → List ℕ → Result Stop Value)
    → ((states : States) (start : String) (v : Value) (c : Fields) (p : List ℕ)
        → within states start
        → is_unfinished (start_at states start v c p) ≡ false)
    → (m : Machine) (v : Value) (c : Fields) (p : List ℕ) → Starts within m
    → is_unfinished (launch start_at m v c p) ≡ false
launch-finishes within start_at runs (machine start states) v c p inner =
    runs states start v c p inner

onward-finishes :
    (within : String → Type 0) (continue : String → Value → Result Stop Value) (names : List String)
    → ((to : String) (v : Value) → within to → is_unfinished (continue to v) ≡ false)
    → All within names
    → (turn : Step) → GoesTo names turn
    → is_unfinished (onward continue turn) ≡ false
onward-finishes within continue names runs all (ends v) there = refl
onward-finishes within continue names runs all (goes to v) there =
    runs to v (Any-All_elim (λ t same w. subst within same w) there all)

run_from-finishes :
    (world : World) (n : ℕ) (states : States) (name : String) (data' : Value) (ctx : Fields)
    (place : List ℕ) (entered : ℕ)
    → IsWithin n states name
    → is_unfinished (run_from world n states name data' ctx place entered) ≡ false
unfolding run_from
run_from-finishes world zero states name data' ctx place entered within = absurd within
run_from-finishes world (suc n) states name data' ctx place entered within =
    raise_if-finishes (world.is_late (entered ∷ place)) _ _
      (elim (Option-cases (state_named name states)) [
        | inl missing ↦ rw missing refl
        | inr (s, found) ↦
            let leads : Leads (IsWithin n) states (some s) =
              subst (Leads (IsWithin n) states) found within in
            let go = launch (λ inner start d c p. run_from world n inner start d c p 0) in
            rw found (
              bind-finishes (step world go name s data' ctx (entered ∷ place)) _
                (step-finishes world go name s data' ctx (entered ∷ place) (IsWithin n)
                  (launch-finishes (IsWithin n) _
                    (λ inner start d c p w. run_from-finishes world n inner start d c p 0 w))
                  (leads.1))
                (λ turn made.
                  onward-finishes (IsWithin n states) _ (targets s)
                    (λ to v w. run_from-finishes world n states to v ctx place (suc entered) w)
                    (leads.0) turn
                    (step-GoesTo world go name s data' ctx (entered ∷ place) turn made)))
      ])

run-finishes :
    (world : World) (n : ℕ) (m : Machine) (data' : Value) (ctx : Fields) (place : List ℕ)
    → Starts (IsWithin n) m
    → is_unfinished (run world n m data' ctx place) ≡ false
unfolding run
run-finishes world n (machine start states) data' ctx place within =
    run_from-finishes world n states start data' ctx place 0 within

-- If every path through a definition from its first state on, through the machines of maps as well,
-- enters at most `n` states, then a run of it ends, whatever its tasks answer and however often they
-- fail and are retried: there is one outcome, and it is not that of a run cut short, that the
-- executor has with every allowance of at least `n` turns.
pub run-settles :
    (world : World) (n : ℕ) (m : Machine) (data' : Value) (ctx : Fields) (place : List ℕ)
    → Starts (IsWithin n) m
    → (outcome : Result Stop Value) × (outcome ≢ raised unfinished)
      × ((fuel : ℕ) → n ≤ fuel → run world fuel m data' ctx place ≡ outcome)
run-settles world n m data' ctx place within =
    let ends = run-finishes world n m data' ctx place within in
    (
      run world n m data' ctx place,
      λ cut. let e = subst (λ r. is_unfinished r ≡ false) cut ends in cc e,
      λ fuel enough. run-more_fuel world n fuel m data' ctx place enough ends,
    )
