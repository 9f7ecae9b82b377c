-- ===== src/Iam/Unchanged.antt =====
-- The containment check of a policy against itself.
use aws_foundations.Base.{
  ℕ, ◌≡◌, Bool, true, false, List, String, ok, all_intro, any_intro, text_eq_refl, codes, arith,
}
use aws_foundations.Base.Json.{Value, Fields}
use aws_foundations.Iam.{
  safe, statements, listed, covered_folded, covered_by, covers_pair, contained, check_no_expansion,
}

-- Every pattern covers itself.
covered_by_refl :
    (lower : List ℕ → List ℕ) (action : Bool) (p : String) → covered_by lower action p p ≡ true
unfolding covered_by covered_folded
covered_by_refl lower true p = ground (arith, text_eq_refl (lower (codes p)))
covered_by_refl lower false p = ground (arith, text_eq_refl (codes p))

contained_refl : (lower : List ℕ → List ℕ) (ss : List Fields) → contained lower ss ss ≡ true
unfolding contained covers_pair
contained_refl lower ss = all_intro _ ss λ s in_s. all_intro _ (listed "Action" s) λ p in_p.
    all_intro _ (listed "Resource" s) λ q in_q. any_intro _ in_s (
      rw (any_intro (λ a. covered_by lower true p a) in_p (covered_by_refl lower true p))
        (any_intro (λ r. covered_by lower false q r) in_q (covered_by_refl lower false q)))

-- A policy that the check can read is never reported as an expansion of itself.
pub check_no_expansion_refl :
    (lower : List ℕ → List ℕ) (policy : Value) (ss : List Fields)
    → statements policy ≡ ok ss
    → (check_no_expansion lower policy policy).status ≡ safe
unfolding check_no_expansion
check_no_expansion_refl lower policy ss h = ground (arith, contained_refl lower ss)
