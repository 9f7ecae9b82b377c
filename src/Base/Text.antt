-- ===== src/Base/Text.antt =====
-- Text: whole texts are native strings, and a text that the program walks is its code points.
use Prim.Native.Char.{code}
use Prim.Native.String.{String}
use Prim.Native.Nat.{ℕ}
use mathlib.Core.Path.{◌≡◌, refl}
use mathlib.Core.Logic.{◌↔◌, ◌⊎◌}
use mathlib.Core.Bool.{Bool, true, false, ◌&&◌, ◌||◌}
use mathlib.Core.List.{List, [], ◌∷◌}
use native.Mathlib.Omega.{arith}
use text.Mathlib.Text.{◌==◌ as str_eq}
use text.Mathlib.TextEquality.{eq_iff}
use aws_foundations.Base.Tests.{◌==◌, ==→eq, &&-eq_true}
use aws_foundations.Base.Lists.{any}

-- The code points of a text.
unfoldable pub codes : String → List ℕ
codes String.[] = []
codes (String.◌∷◌ c s) = code c ∷ codes s

-- Equality of two texts that are given by their code points.
unfoldable pub text_eq : List ℕ → List ℕ → Bool
text_eq [] [] = true
text_eq (c ∷ s) (d ∷ t) = c == d && text_eq s t
text_eq _ _ = false

-- `c in "…"` and `any(c in text for c in "…")`
unfoldable pub has_char : String → List ℕ → Bool
unfolding any codes
has_char marks text = any (λ c. any (λ d. d == c) (codes marks)) text

-- `value in (…)` for texts
unfoldable pub one_of : String → List String → Bool
one_of s [] = false
one_of s (t ∷ ts) = str_eq s t || one_of s ts

pub text_eq_sound : (s t : List ℕ) → text_eq s t ≡ true → s ≡ t
unfolding text_eq
text_eq_sound [] [] h = refl
text_eq_sound [] (d ∷ t) h = cc
text_eq_sound (c ∷ s) [] h = cc
text_eq_sound (c ∷ s) (d ∷ t) h = cc (
  ==→eq c d (&&-eq_true (c == d) (text_eq s t) h).0,
  text_eq_sound s t (&&-eq_true (c == d) (text_eq s t) h).1,
)

pub text_eq_refl : (s : List ℕ) → text_eq s s ≡ true
unfolding text_eq
text_eq_refl [] = refl
text_eq_refl (c ∷ s) = ground (arith, text_eq_refl s)

pub str_eq_refl : (s : String) → str_eq s s ≡ true
str_eq_refl s = (eq_iff s s).1 refl

pub str_eq_sound : (s t : String) → str_eq s t ≡ true → s ≡ t
str_eq_sound s t = (eq_iff s t).0

-- A text is one of two or three texts.
pub one_of_two : (s a b : String) → (one_of s (a ∷ b ∷ []) ≡ true) ↔ ((s ≡ a) ⊎ (s ≡ b))
unfolding one_of
one_of_two s a b =
    (λ h. ground (arith, eq_iff s a, eq_iff s b), λ h. ground (arith, eq_iff s a, eq_iff s b))

pub one_of_three :
    (s a b c : String) → (one_of s (a ∷ b ∷ c ∷ []) ≡ true) ↔ ((s ≡ a) ⊎ (s ≡ b) ⊎ (s ≡ c))
unfolding one_of
one_of_three s a b c = (
  λ h. ground (arith, eq_iff s a, eq_iff s b, eq_iff s c),
  λ h. ground (arith, eq_iff s a, eq_iff s b, eq_iff s c),
)
