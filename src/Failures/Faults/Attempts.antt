-- ===== src/Failures/Faults/Attempts.antt =====
-- Which attempts of a step an injected fault lets pass.
use aws_foundations.Base.{
  ℕ, ◌≤◌, ◌≡◌, ◌↔◌, refl, List, [], ◌∷◌, Option, none, some, ok, >>=-eq-ok, All, arith,
  Option-cases, inl, inr, ◌⊎◌, subst, ok-injective,
}
use aws_foundations.Failures.Faults.{
  FaultKind, transient, transient_after_write, Fault, active, fault_of, raise_kind, before_fault,
  before, after_fault, after_write, times_named, kind_named, known_fault, parse_kind, parse_spec,
  parse, split_at,
}

-- A step has no injected failure at an attempt: neither before its work nor after its write.
abbrev pub Passes : List Fault → List ℕ → ℕ → Type 0
Passes plan step attempt =
    (before plan step attempt ≡ ok tt) × (after_write plan step attempt ≡ ok tt)

abbrev pub IsTransient : FaultKind → Type 0
IsTransient kind = (kind ≡ transient) ⊎ (kind ≡ transient_after_write)

passes_of_fault :
    (f : Fault) (attempt : ℕ)
    → IsTransient f.kind
    → ((before_fault (some f) attempt ≡ ok tt) × (after_fault (some f) attempt ≡ ok tt))
      ↔ (f.times ≤ attempt)
unfolding before_fault after_fault active raise_kind
passes_of_fault f attempt (inl k) = (λ h. ground arith, λ h. ground arith)
passes_of_fault f attempt (inr k) = (λ h. ground arith, λ h. ground arith)

-- With a transient fault of N times, of either kind, exactly the first N attempts fail.
pub transient-Passes :
    (plan : List Fault) (step : List ℕ) (f : Fault) (attempt : ℕ)
    → fault_of step plan ≡ some f
    → IsTransient f.kind
    → Passes plan step attempt ↔ (f.times ≤ attempt)
unfolding before after_write
transient-Passes plan step f attempt found kind = rw found (passes_of_fault f attempt kind)

-- One attempt fails in one place at most: if the step is failed before its work, its write is let be.
pub fails_once :
    (plan : List Fault) (step : List ℕ) (attempt : ℕ)
    → (before plan step attempt ≡ ok tt) ⊎ (after_write plan step attempt ≡ ok tt)
unfolding before after_write before_fault after_fault
fails_once plan step attempt = either (fault_of step plan)
  where
    either : (o : Option Fault) → (before_fault o attempt ≡ ok tt) ⊎ (after_fault o attempt ≡ ok tt)
    either none = inl (unfold before_fault in refl)
    either (some f) = unfold before_fault after_fault active raise_kind in ground arith

times_named-bounds : (t : List ℕ) (n : ℕ) → times_named t ≡ some n → (1 ≤ n) × (n ≤ 9)
unfolding times_named
times_named-bounds [] n h = cc
times_named-bounds (c ∷ []) n h = ground arith
times_named-bounds (c ∷ d ∷ t) n h = cc

abbrev pub IsBounded : Fault → Type 0
IsBounded f = (1 ≤ f.times) × (f.times ≤ 9)

known_fault-IsBounded :
    (known : List (List ℕ)) (step : List ℕ) (kind : Option FaultKind) (times : Option ℕ) (f : Fault)
    → ((n : ℕ) → times ≡ some n → (1 ≤ n) × (n ≤ 9))
    → known_fault known step kind times ≡ ok f
    → IsBounded f
unfolding known_fault
known_fault-IsBounded known step (some kind) (some n) f small h = ground (arith, small n refl)
known_fault-IsBounded known step (some kind) none f small h = cc
known_fault-IsBounded known step none times f small h = cc

parse_kind-IsBounded :
    (known : List (List ℕ)) (step rest : List ℕ) (o : Option (List ℕ × List ℕ)) (f : Fault)
    → parse_kind known step rest o ≡ ok f
    → IsBounded f
unfolding parse_kind
parse_kind-IsBounded known step rest none f h =
    known_fault-IsBounded known step (kind_named rest) (some 1) f (λ n e. ground arith) h
parse_kind-IsBounded known step rest (some (kind, times)) f h =
    known_fault-IsBounded known step (kind_named kind) (times_named times) f
      (times_named-bounds times) h

parse_spec-IsBounded :
    (known : List (List ℕ)) (o : Option (List ℕ × List ℕ)) (f : Fault)
    → parse_spec known o ≡ ok f
    → IsBounded f
unfolding parse_spec
parse_spec-IsBounded known none f h = cc
parse_spec-IsBounded known (some (step, rest)) f h =
    parse_kind-IsBounded known step rest (split_at b':' rest) f h

parse-IsBounded :
    (strip : List ℕ → List ℕ) (known specs : List (List ℕ)) (plan : List Fault)
    → parse strip known specs ≡ ok plan
    → All IsBounded plan
unfolding parse
parse-IsBounded strip known [] plan h = subst (All IsBounded) (ok-injective h) tt
parse-IsBounded strip known (spec ∷ specs) plan h =
    let (f, e, k) = >>=-eq-ok (parse_spec known (split_at b'=' (strip spec))) _ h in
    let (fs, e', k') = >>=-eq-ok (parse strip known specs) _ k in
    subst (All IsBounded) (ok-injective k')
      (parse_spec-IsBounded known _ f e, parse-IsBounded strip known specs fs e')

fault_of-IsBounded :
    (step : List ℕ) (plan : List Fault) (f : Fault)
    → All IsBounded plan
    → fault_of step plan ≡ some f
    → IsBounded f
unfolding fault_of
fault_of-IsBounded step [] f bounded h = cc
fault_of-IsBounded step (g ∷ gs) f (b, bs) h = elim (Option-cases (fault_of step gs)) [
  | inl nothing ↦ ground arith
  | inr (f', e) ↦ ground (arith, fault_of-IsBounded step gs f' bs e)
]

-- In a plan that was parsed, a transient fault of a step lets it pass from the tenth attempt on at the
-- latest, and never at the first.
pub parsed_transient_clears :
    (strip : List ℕ → List ℕ) (known specs : List (List ℕ)) (plan : List Fault) (step : List ℕ)
    (f : Fault) (attempt : ℕ)
    → parse strip known specs ≡ ok plan
    → fault_of step plan ≡ some f
    → IsTransient f.kind
    → (9 ≤ attempt → Passes plan step attempt) × ¬ (Passes plan step 0)
parsed_transient_clears strip known specs plan step f attempt parsed found kind =
    let bounds =
      fault_of-IsBounded step plan f (parse-IsBounded strip known specs plan parsed) found in
    (
      λ late. (transient-Passes plan step f attempt found kind).1 (omega arith),
      λ passed. absurd (omega (arith, (transient-Passes plan step f 0 found kind).0 passed)),
    )
