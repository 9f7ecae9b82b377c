-- ===== src/Base/Lists.antt =====
-- Python's `len`, `any` and `all` over a list, and the predicates that they decide.
use Prim.Native.Nat.{ℕ, suc}
use mathlib.Core.Path.{◌≡◌, refl}
use mathlib.Core.Logic.{inl, inr}
use mathlib.Core.Bool.{Bool, true, false, ◌&&◌, ◌||◌}
use mathlib.Core.List.{List, [], ◌∷◌, ◌++◌}
use native.Mathlib.Omega.{arith}
use aws_foundations.Base.Tests.{Bool-cases, if◌then◌else◌}

module _ {ℓ} {A : Type ℓ} where
  abbrev pub length : List A → ℕ
  length [] = 0
  length (x ∷ xs) = suc (length xs)

  -- `not xs`
  abbrev pub is_empty : List A → Bool
  is_empty [] = true
  is_empty (x ∷ xs) = false

  unfoldable pub any : (A → Bool) → List A → Bool
  any p [] = false
  any p (x ∷ xs) = p x || any p xs

  unfoldable pub all : (A → Bool) → List A → Bool
  all p [] = true
  all p (x ∷ xs) = p x && all p xs

  -- `[x for x in xs if p(x)]`
  unfoldable pub keep_if : (A → Bool) → List A → List A
  keep_if p [] = []
  keep_if p (x ∷ xs) = let rest = keep_if p xs in if p x then x ∷ rest else rest

-- Some element has the property, and every element has it.
pub data Any {ℓ} {A : Type ℓ} (P : A → Type 0) : List A → Type ℓ where
  first : {x : A} {xs : List A} → P x → Any P (x ∷ xs)
  later : {x : A} {xs : List A} → Any P xs → Any P (x ∷ xs)

abbrev pub All {ℓ} : {A : Type ℓ} → (A → Type 0) → List A → Type 0
All P [] = Unit
All P (x ∷ xs) = P x × All P xs

module _ {ℓ} {A : Type ℓ} where
  pub any-Any : (p : A → Bool) (xs : List A) → any p xs ≡ true → Any (λ x. p x ≡ true) xs
  unfolding any
  any-Any p [] h = cc
  any-Any p (x ∷ xs) h = elim (Bool-cases (p x)) [
    | inl hit ↦ first hit
    | inr miss ↦ later (any-Any p xs (rw (miss, ◌||◌) at h))
  ]

  pub Any-any : (p : A → Bool) {xs : List A} → Any (λ x. p x ≡ true) xs → any p xs ≡ true
  unfolding any
  Any-any p (first h) = rw h
  Any-any p (later {x = x} r) = ground (arith, Any-any p r)

  pub all-All : (p : A → Bool) (xs : List A) → all p xs ≡ true → All (λ x. p x ≡ true) xs
  unfolding all
  all-All p [] h = tt
  all-All p (x ∷ xs) h = (ground arith, all-All p xs (ground arith))

  pub All-++ : (P : A → Type 0) (xs ys : List A) → All P xs → All P ys → All P (xs ++ ys)
  All-++ P [] ys hx hy = hy
  All-++ P (x ∷ xs) ys hx hy = (hx.0, All-++ P xs ys hx.1 hy)

  pub All-map : {P Q : A → Type 0} (xs : List A) → ((x : A) → P x → Q x) → All P xs → All Q xs
  All-map [] f hs = tt
  All-map (x ∷ xs) f hs = (f x hs.0, All-map xs f hs.1)

  pub any-++ : (p : A → Bool) (xs ys : List A) → any p (xs ++ ys) ≡ (any p xs || any p ys)
  unfolding any
  any-++ p [] ys = refl
  any-++ p (x ∷ xs) ys = ground (arith, any-++ p xs ys)

  pub Any-map : {P Q : A → Type 0} {xs : List A} → ((x : A) → P x → Q x) → Any P xs → Any Q xs
  Any-map f (first h) = first (f _ h)
  Any-map f (later r) = later (Any-map f r)

  -- What all have, the one that is found has too.
  pub Any-All :
      {P Q R : A → Type 0} {xs : List A}
      → ((x : A) → P x → Q x → R x)
      → Any P xs
      → All Q xs
      → Any R xs
  Any-All f (first h) hs = first (f _ h hs.0)
  Any-All f (later r) hs = later (Any-All f r hs.1)

  -- One element that has both properties settles a claim.
  pub Any-All_elim :
      {P Q : A → Type 0} {C : Type 0} {xs : List A}
      → ((x : A) → P x → Q x → C)
      → Any P xs
      → All Q xs
      → C
  Any-All_elim f (first h) hs = f _ h hs.0
  Any-All_elim f (later r) hs = Any-All_elim f r hs.1

module _ {A : Type 0} where
  pub all_intro :
      (p : A → Bool) (xs : List A) → ((x : A) → Any (λ y. y ≡ x) xs → p x ≡ true) → all p xs ≡ true
  unfolding all
  all_intro p [] h = refl
  all_intro p (x ∷ xs) h = rw (h x (first refl)) (all_intro p xs (λ y found. h y (later found)))

  pub any_intro :
      (p : A → Bool) {x : A} {xs : List A} → Any (λ y. y ≡ x) xs → p x ≡ true → any p xs ≡ true
  any_intro p found h = Any-any p (Any-map (λ y e. rw e h) found)
