-- ===== src/StateMachine/Approx.antt =====
-- Runs that are cut short: one result approximates another of agent/orchestration/asl.py.
use aws_foundations.Base.{
  ℕ, zero, suc, ◌≡◌, ◌⊎◌, refl, sym, subst, List, [], ◌∷◌, Result, ok, raised, ◌>>=◌, Result-cases,
  Option-cases, inl, inr, arith,
}
use aws_foundations.Base.Json.{Value}
use aws_foundations.StateMachine.Paths.{StatesError}
use aws_foundations.StateMachine.Handlers.{
  Stop, failed, unknown_state, unfinished, Retrier, Catcher, spend, retry_loop,
}
use aws_foundations.StateMachine.Attempts.{after_failure, collect}

-- The first result is cut short for lack of fuel, or the two are the same.
pub data Approx {A : Type 0} : Result Stop A → Result Stop A → Type 0 where
  cut : {y : Result Stop A} → Approx (raised unfinished) y
  same : {x : Result Stop A} → Approx x x

pub >>=-Approx :
    {A B : Type 0} {x y : Result Stop A} {f g : A → Result Stop B}
    → Approx x y
    → ((a : A) → Approx (f a) (g a))
    → Approx (x >>= f) (y >>= g)
>>=-Approx cut fg = cut
>>=-Approx (same {x = ok a}) fg = fg a
>>=-Approx (same {x = raised stop}) fg = same

pub Approx-eq : {A : Type 0} {x y : Result Stop A} → x ≡ y → Approx x y
Approx-eq {x = x} e = subst (Approx x) e same

-- Both sides may be computed first.
pub Approx-via : {A : Type 0} {x y u v : Result Stop A} → x ≡ u → y ≡ v → Approx u v → Approx x y
Approx-via {x = x} {v = v} e f a = subst (Approx x) (sym f) (subst (λ z. Approx z v) (sym e) a)

pub Approx-cases :
    {A : Type 0} {x y : Result Stop A} → Approx x y → (x ≡ raised unfinished) ⊎ (x ≡ y)
Approx-cases cut = inl refl
Approx-cases same = inr refl

pub data Pointwise : List (Result Stop Value) → List (Result Stop Value) → Type 0 where
  no_more : Pointwise [] []
  both :
      {x y : Result Stop Value} {xs ys : List (Result Stop Value)}
      → Approx x y
      → Pointwise xs ys
      → Pointwise (x ∷ xs) (y ∷ ys)

pub after_failure-Approx :
    (error : StatesError) {x y : Result Stop (List Value)}
    → Approx x y
    → Approx (after_failure error x) (after_failure error y)
unfolding after_failure
after_failure-Approx error cut = cut
after_failure-Approx error same = same

pub collect-Approx :
    {xs ys : List (Result Stop Value)} → Pointwise xs ys → Approx (collect xs) (collect ys)
unfolding collect
collect-Approx no_more = same
collect-Approx (both cut rest) = cut
collect-Approx (both (same {x = ok v}) rest) = >>=-Approx (collect-Approx rest) (λ vs. same)
collect-Approx (both {xs = xs} {ys = ys} (same {x = raised (failed error)}) rest) =
    after_failure-Approx error (collect-Approx rest)
collect-Approx (both (same {x = raised unknown_state}) rest) = same
collect-Approx (both (same {x = raised unfinished}) rest) = same

-- What an attempt approximates, its retries do.
pub retry_loop-Approx :
    (rs : List Retrier) (cs : List Catcher) (data' : Value) (f g : ℕ → Result Stop Value) (fuel : ℕ)
    (counters : List ℕ) (retries : ℕ)
    → ((n : ℕ) → Approx (f n) (g n))
    → Approx
        (retry_loop rs cs data' f fuel counters retries)
        (retry_loop rs cs data' g fuel counters retries)
unfolding retry_loop
retry_loop-Approx rs cs data' f g zero counters retries fg = same
retry_loop-Approx rs cs data' f g (suc fuel) counters retries fg =
    let loop =
      λ (h : ℕ → Result Stop Value). retry_loop rs cs data' h (suc fuel) counters retries in
    elim (Approx-cases (fg retries)) [
      | inl short ↦
          let ended : loop f ≡ raised unfinished = ground arith in Approx-via ended refl cut
      | inr alike ↦ elim (Result-cases (f retries)) [
        | inl (v, went) ↦ let e : loop f ≡ loop g = ground arith in Approx-eq e
        | inr (unfinished, stopped) ↦ let e : loop f ≡ loop g = ground arith in Approx-eq e
        | inr (unknown_state, stopped) ↦ let e : loop f ≡ loop g = ground arith in Approx-eq e
        | inr (failed error, broke) ↦ elim (Option-cases (spend error.name rs counters)) [
          | inl stop ↦ let e : loop f ≡ loop g = ground arith in Approx-eq e
          | inr (spent, more) ↦
              let one : loop f ≡ retry_loop rs cs data' f fuel spent (suc retries) = ground arith in
              let two : loop g ≡ retry_loop rs cs data' g fuel spent (suc retries) = ground arith in
              Approx-via one two (retry_loop-Approx rs cs data' f g fuel spent (suc retries) fg)
        ]
      ]
    ]
