-- ===== src/StateMachine/Retries.antt =====
-- The retries of agent/orchestration/asl.py end, and some errors are never handled.
use aws_foundations.Base.{
  ℕ, zero, suc, ◌+◌, ◌-◌, ◌<◌, ◌≡◌, refl, Bool, true, false, List, [], ◌∷◌, Option, none, some,
  String, Result, ok, raised, subst, ltb, ltb→lt, Bool-cases, Option-cases, Result-cases, inl, inr,
  arith,
}
use aws_foundations.Base.Json.{Value}
use aws_foundations.StateMachine.Paths.{StatesError, apply_result_path}
use aws_foundations.StateMachine.Handlers.{
  Stop, failed, unknown_state, unfinished, matches, Retrier, Catcher, counted, spend, fresh,
  error_output, catcher_for, caught_at, catch_error, retry_loop, all_attempts, with_handlers,
}

abbrev pub is_unfinished : {A : Type 0} → Result Stop A → Bool
is_unfinished (raised unfinished) = true
is_unfinished _ = false

-- the attempts that the retriers have left
unfoldable left : List Retrier → List ℕ → ℕ
left [] counters = 0
left (r ∷ rs) [] = 0
left (r ∷ rs) (c ∷ cs) = (r.max_attempts - c) + left rs cs

left-fresh : (rs : List Retrier) → left rs (fresh rs) ≡ all_attempts rs
unfolding left fresh all_attempts
left-fresh [] = refl
left-fresh (r ∷ rs) = ground (arith, left-fresh rs)

counted-some :
    (c : ℕ) (o : Option (List ℕ)) (spent : List ℕ)
    → counted c o ≡ some spent
    → (cs : List ℕ) × (o ≡ some cs) × (c ∷ cs ≡ spent)
counted-some c none spent h = cc
counted-some c (some cs) spent h = (cs, refl, cc)

-- A retry spends one attempt.
left-spend :
    (name : String) (rs : List Retrier) (counters spent : List ℕ)
    → spend name rs counters ≡ some spent
    → left rs counters ≡ suc (left rs spent)
unfolding spend left
left-spend name [] counters spent h = cc
left-spend name (r ∷ rs) [] spent h = cc
left-spend name (r ∷ rs) (c ∷ cs) spent h = elim (Bool-cases (matches r.error_equals name)) [
  | inl hit ↦ elim (Bool-cases (ltb c r.max_attempts)) [
    | inl more ↦
        let e : suc c ∷ cs ≡ spent = ground arith in
        let lt = ltb→lt c r.max_attempts more in
        subst (λ t. left (r ∷ rs) (c ∷ cs) ≡ suc (left (r ∷ rs) t)) e (omega arith)
    | inr none_left ↦ absurd (ground arith)
  ]
  | inr miss ↦
      let (ds, e, f) = counted-some c (spend name rs cs) spent (ground arith) in
      let deeper = left-spend name rs cs ds e in
      subst (λ t. left (r ∷ rs) (c ∷ cs) ≡ suc (left (r ∷ rs) t)) f (omega arith)
]

caught_at-finishes :
    (next : String) (m : Result StatesError Value) → is_unfinished (caught_at next m) ≡ false
caught_at-finishes next (ok v) = refl
caught_at-finishes next (raised error) = refl

catch_error-finishes :
    (catchers : List Catcher) (data' : Value) (error : StatesError)
    → is_unfinished (catch_error catchers data' error) ≡ false
unfolding catch_error
catch_error-finishes catchers data' error = elim (Option-cases (catcher_for error.name catchers)) [
  | inl missing ↦ ground arith
  | inr (c, found) ↦ ground (
    arith,
    caught_at-finishes c.next (apply_result_path data' (error_output error) c.result_path),
  )
]

retry_loop-finishes :
    (rs : List Retrier) (catchers : List Catcher) (data' : Value) (attempt : ℕ → Result Stop Value)
    (fuel : ℕ) (counters : List ℕ) (retries : ℕ)
    → left rs counters < fuel
    → ((n : ℕ) → is_unfinished (attempt n) ≡ false)
    → is_unfinished (retry_loop rs catchers data' attempt fuel counters retries) ≡ false
unfolding retry_loop
retry_loop-finishes rs catchers data' attempt zero counters retries enough ends =
    absurd (omega arith)
retry_loop-finishes rs catchers data' attempt (suc fuel) counters retries enough ends =
    elim (Result-cases (attempt retries)) [
      | inl (v, went) ↦ ground arith
      | inr (unknown_state, lost) ↦ ground arith
      | inr (unfinished, cut) ↦ absurd (ground (arith, ends retries))
      | inr (failed error, broke) ↦ elim (Option-cases (spend error.name rs counters)) [
        | inl stop ↦ ground (arith, catch_error-finishes catchers data' error)
        | inr (spent, more) ↦
            let less = left-spend error.name rs counters spent more in
            let rest =
              retry_loop-finishes rs catchers data' attempt fuel spent (suc retries) (omega arith)
                ends in
            ground arith
      ]
    ]

-- If no attempt runs out of fuel itself, the retries end: the loop has fuel enough, whatever
-- errors the attempts fail with.
pub with_handlers-finishes :
    (rs : List Retrier) (catchers : List Catcher) (data' : Value) (attempt : ℕ → Result Stop Value)
    → ((n : ℕ) → is_unfinished (attempt n) ≡ false)
    → is_unfinished (with_handlers rs catchers data' attempt) ≡ false
unfolding with_handlers
with_handlers-finishes rs catchers data' attempt ends =
    let budget = left-fresh rs in
    retry_loop-finishes rs catchers data' attempt (suc (all_attempts rs)) (fresh rs) 0 (omega arith)
      ends
