-- ===== src/StateMachine/Targets.antt =====
-- Where a turn of a state of agent/orchestration/asl.py goes on to.
use aws_foundations.Base.{
  ℕ, zero, suc, ◌≡◌, refl, ap, subst, List, [], ◌∷◌, ◌++◌, Option, none, some, String, Result, ok,
  raised, ◌>>=◌, >>=-eq-ok, ok-injective, Result-cases, Option-cases, Bool-cases, inl, inr, Any,
  first, later, arith,
}
use aws_foundations.Base.Json.{Value, Fields}
use aws_foundations.StateMachine.Paths.{StatesError, JsonPath, apply_result_path, select}
use aws_foundations.StateMachine.Handlers.{
  Stop, failed, unknown_state, unfinished, matches, Retrier, Catcher, spend, error_output, Handled,
  output, caught, catcher_for, caught_at, catch_error, retry_loop, with_handlers,
}
use aws_foundations.StateMachine.Definition.{
  Rule, Flow, next, finish, Handling, State, succeed, fail, choice, pass, task, map_state, holds,
  target_of,
}
use aws_foundations.StateMachine.Attempts.{World, lift, Runner, attempt}
use aws_foundations.StateMachine.Run.{
  Step, ends, goes, flows, handled_step, choice_step, step, pass_result,
}
use aws_foundations.StateMachine.Acyclic.{flow_targets, rule_targets, catch_targets, targets}

-- A turn goes on to one of these states, if it does not end.
abbrev pub GoesTo : List String → Step → Type 0
GoesTo names (ends v) = Unit {0}
GoesTo names (goes name v) = Any (λ t. t ≡ name) names

later-++ : {P : String → Type 0} (xs ys : List String) → Any P ys → Any P (xs ++ ys)
later-++ [] ys h = h
later-++ (x ∷ xs) ys h = later (later-++ xs ys h)

flows-GoesTo :
    (flow : Flow) (v : Value) (more : List String)
    → GoesTo (flow_targets flow ++ more) (flows flow v)
flows-GoesTo (next name) v more = first refl
flows-GoesTo finish v more = tt

flow-GoesTo : (flow : Flow) (v : Value) → GoesTo (flow_targets flow) (flows flow v)
flow-GoesTo (next name) v = first refl
flow-GoesTo finish v = tt

-- A caught error goes on to the state of one of the catchers.
abbrev Caught : List Catcher → Handled → Type 0
Caught catchers (output v) = Unit {0}
Caught catchers (caught v name) = Any (λ t. t ≡ name) (catch_targets catchers)

catcher_for-target :
    (name : String) (cs : List Catcher) (c : Catcher)
    → catcher_for name cs ≡ some c
    → Any (λ t. t ≡ c.next) (catch_targets cs)
unfolding catcher_for
catcher_for-target name [] c h = cc
catcher_for-target name (d ∷ ds) c h = elim (Bool-cases (matches d.error_equals name)) [
  | inl hit ↦ let e : d ≡ c = ground arith in first (subst (λ x. d.next ≡ x.next) e refl)
  | inr miss ↦ later (catcher_for-target name ds c (ground arith))
]

caught_at-Caught :
    (catchers : List Catcher) (to : String) (m : Result StatesError Value) (handled : Handled)
    → Any (λ t. t ≡ to) (catch_targets catchers)
    → caught_at to m ≡ ok handled
    → Caught catchers handled
caught_at-Caught catchers to (ok v) handled there h = subst (Caught catchers) (ok-injective h) there
caught_at-Caught catchers to (raised error) handled there h = cc

catch_error-Caught :
    (catchers : List Catcher) (data' : Value) (error : StatesError) (handled : Handled)
    → catch_error catchers data' error ≡ ok handled
    → Caught catchers handled
unfolding catch_error
catch_error-Caught catchers data' error handled h =
    elim (Option-cases (catcher_for error.name catchers)) [
      | inl missing ↦ absurd (ground arith)
      | inr (c, found) ↦
          caught_at-Caught catchers c.next
            (apply_result_path data' (error_output error) c.result_path) handled
            (catcher_for-target error.name catchers c found) (ground arith)
    ]

retry_loop-Caught :
    (rs : List Retrier) (catchers : List Catcher) (data' : Value) (attempt : ℕ → Result Stop Value)
    (fuel : ℕ) (counters : List ℕ) (retries : ℕ) (handled : Handled)
    → retry_loop rs catchers data' attempt fuel counters retries ≡ ok handled
    → Caught catchers handled
unfolding retry_loop
retry_loop-Caught rs catchers data' attempt zero counters retries handled h = cc
retry_loop-Caught rs catchers data' attempt (suc fuel) counters retries handled h =
    elim (Result-cases (attempt retries)) [
      | inl (v, went) ↦ let e : output v ≡ handled = ground arith in subst (Caught catchers) e tt
      | inr (unknown_state, lost) ↦ absurd (ground arith)
      | inr (unfinished, cut) ↦ absurd (ground arith)
      | inr (failed error, broke) ↦ elim (Option-cases (spend error.name rs counters)) [
        | inl stop ↦ catch_error-Caught catchers data' error handled (ground arith)
        | inr (spent, more) ↦
            retry_loop-Caught rs catchers data' attempt fuel spent (suc retries) handled
              (ground arith)
      ]
    ]

handled_step-GoesTo :
    (h : Handling) (handled : Handled)
    → Caught h.catchers handled
    → GoesTo (flow_targets h.flow ++ catch_targets h.catchers) (handled_step h.flow handled)
handled_step-GoesTo h (output v) c = flows-GoesTo h.flow v (catch_targets h.catchers)
handled_step-GoesTo h (caught v name) c =
    later-++ (flow_targets h.flow) (catch_targets h.catchers) c

with_handlers-GoesTo :
    (h : Handling) (data' : Value) (attempt : ℕ → Result Stop Value) (turn : Step)
    → (with_handlers h.retriers h.catchers data' attempt >>= λ handled.
        ok (handled_step h.flow handled))
      ≡ ok turn
    → GoesTo (flow_targets h.flow ++ catch_targets h.catchers) turn
unfolding with_handlers
with_handlers-GoesTo h data' attempt turn e =
    let (handled, made, k) = >>=-eq-ok (with_handlers h.retriers h.catchers data' attempt) _ e in
    subst (GoesTo _) (ok-injective k) (
      handled_step-GoesTo h handled
        (retry_loop-Caught h.retriers h.catchers data' attempt _ _ 0 handled made))

target_of-target :
    (rules : List (Rule × String)) (default : Option String) (data' : Value) (ctx : Fields)
    (name : String)
    → target_of rules default data' ctx ≡ ok (some name)
    → Any (λ t. t ≡ name) (rule_targets rules default)
unfolding target_of
target_of-target [] none data' ctx name h = cc
target_of-target [] (some other) data' ctx name h = first cc
target_of-target ((r, to) ∷ rs) default data' ctx name h =
    let (b, decided, k) = >>=-eq-ok (holds r data' ctx) _ h in
    elim (Bool-cases b) [
      | inl hit ↦
          let e : ◌≡◌ {A = Result StatesError (Option String)} (ok (some to)) (ok (some name)) =
            rw hit at k in
          first cc
      | inr miss ↦ later (target_of-target rs default data' ctx name (rw miss at k))
    ]

choice_step-GoesTo :
    (rules : List (Rule × String)) (default target : Option String) (effective : Value)
    (o : Option JsonPath) (ctx : Fields) (turn : Step)
    → target_of rules default effective ctx ≡ ok target
    → choice_step target effective o ctx ≡ ok turn
    → GoesTo (rule_targets rules default) turn
unfolding choice_step
choice_step-GoesTo rules default none effective o ctx turn t h = cc
choice_step-GoesTo rules default (some name) effective o ctx turn t h =
    let (out, selected, k) = >>=-eq-ok (select effective o ctx) _ h in
    subst (GoesTo _) (ok-injective k) (target_of-target rules default effective ctx name t)

unlift : {A : Type 0} (r : Result StatesError A) (a : A) → lift r ≡ ok a → r ≡ ok a
unlift (ok b) a h = ap ok (ok-injective h)
unlift (raised error) a h = cc

-- A turn of a state goes on to one of its targets.
pub step-GoesTo :
    (world : World) (go : Runner) (name : String) (s : State) (data' : Value) (ctx : Fields)
    (place : List ℕ) (turn : Step)
    → step world go name s data' ctx place ≡ ok turn
    → GoesTo (targets s) turn
unfolding step
step-GoesTo world go name (succeed i o) data' ctx place turn h =
    let (effective, e, h1) = >>=-eq-ok (lift (select data' i ctx)) _ h in
    let (out, f, h2) = >>=-eq-ok (lift (select effective o ctx)) _ h1 in
    subst (GoesTo []) (ok-injective h2) tt
step-GoesTo world go name (fail error why) data' ctx place turn h = cc
step-GoesTo world go name (choice rules default i o) data' ctx place turn h =
    let (effective, e, h1) = >>=-eq-ok (lift (select data' i ctx)) _ h in
    let (target, t, h2) = >>=-eq-ok (lift (target_of rules default effective ctx)) _ h1 in
    choice_step-GoesTo rules default target effective o ctx turn (unlift _ target t)
      (unlift _ turn h2)
step-GoesTo world go name (pass parameters fixed path i o flow) data' ctx place turn h =
    let (effective, e1, h1) = >>=-eq-ok (lift (select data' i ctx)) _ h in
    let (result, e2, h2) = >>=-eq-ok (lift (pass_result parameters fixed effective ctx)) _ h1 in
    let (changed, e3, h3) = >>=-eq-ok (lift (apply_result_path data' result path)) _ h2 in
    let (out, e4, h4) = >>=-eq-ok (lift (select changed o ctx)) _ h3 in
    subst (GoesTo _) (ok-injective h4) (flow-GoesTo flow out)
step-GoesTo world go name (task resource parameters h) data' ctx place turn e =
    with_handlers-GoesTo h data' _ turn e
step-GoesTo world go name (map_state items_path selector m h) data' ctx place turn e =
    with_handlers-GoesTo h data' _ turn e
