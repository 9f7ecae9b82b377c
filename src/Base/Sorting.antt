-- ===== src/Base/Sorting.antt =====
-- `sorted(set(xs))` of texts: Python orders texts by their code points.
use aws_foundations.Base.{
  ℕ, ◌==◌, ◌≡◌, refl, Bool, true, false, ◌&&◌, ◌||◌, List, [], ◌∷◌, String, ltb, one_of, codes,
  str_eq, str_eq_sound, Bool-cases, inl, inr, arith, if◌then◌else◌,
}

-- `s < t`
unfoldable pub text_ltb : List ℕ → List ℕ → Bool
text_ltb s [] = false
text_ltb [] (d ∷ t) = true
text_ltb (c ∷ s) (d ∷ t) = ltb c d || (c == d && text_ltb s t)

-- one more element of a sorted list without repetitions
unfoldable pub place : String → List String → List String
place x [] = x ∷ []
place x (y ∷ ys) =
    let rest = place x ys in
    if str_eq x y then y ∷ ys else if text_ltb (codes x) (codes y) then x ∷ y ∷ ys else y ∷ rest

unfoldable pub sorted_set : List String → List String
sorted_set [] = []
sorted_set (x ∷ xs) = place x (sorted_set xs)

one_of-place :
    (s x : String) (ys : List String) → one_of s (place x ys) ≡ (str_eq s x || one_of s ys)
unfolding place one_of
one_of-place s x [] = refl
one_of-place s x (y ∷ ys) = elim (Bool-cases (str_eq x y)) [
  | inl same ↦
      let e = str_eq_sound x y same in let alike : str_eq s x ≡ str_eq s y = cc in ground arith
  | inr differs ↦ ground (arith, one_of-place s x ys)
]

pub one_of-sorted_set : (s : String) (xs : List String) → one_of s (sorted_set xs) ≡ one_of s xs
unfolding sorted_set one_of
one_of-sorted_set s [] = refl
one_of-sorted_set s (x ∷ xs) = rw (one_of-place s x (sorted_set xs), one_of-sorted_set s xs) refl
