-- ===== src/Iam/Glob.antt =====
-- `fnmatch.fnmatchcase` as the containment check calls it, and the wildcard language that it decides.
use aws_foundations.Base.{
  ℕ, ◌==◌, ◌≡◌, ◌∙◌, ◌≢◌, ◌↔◌, sym, refl, Bool, true, false, ◌&&◌, ◌||◌, List, [], ◌∷◌, arith,
  if◌then◌else◌, Bool-cases, inl, inr, ==→eq,
}

-- Does some suffix of the text satisfy the test?
unfoldable pub some_suffix : (List ℕ → Bool) → List ℕ → Bool
some_suffix p [] = p []
some_suffix p (c ∷ s) = p (c ∷ s) || some_suffix p s

unfoldable pub one_char : (List ℕ → Bool) → List ℕ → Bool
one_char p [] = false
one_char p (c ∷ s) = p s

unfoldable pub this_char : ℕ → (List ℕ → Bool) → List ℕ → Bool
this_char c p [] = false
this_char c p (d ∷ s) = d == c && p s

unfoldable pub no_char : List ℕ → Bool
no_char [] = true
no_char (c ∷ s) = false

-- `fnmatchcase(text, pattern)` for a pattern with no bracket, which is what the check passes it.
unfoldable pub fnmatchcase : List ℕ → List ℕ → Bool
unfolding some_suffix one_char this_char no_char
fnmatchcase [] s = no_char s
fnmatchcase (c ∷ p) s =
    if c == b'*'
    then some_suffix (fnmatchcase p) s
    else if c == b'?'
    then one_char (fnmatchcase p) s
    else this_char c (fnmatchcase p) s

-- The texts that a pattern stands for: `*` for any run of characters, `?` for one.
pub data Glob : List ℕ → List ℕ → Type 0 where
  done : Glob [] []
  skip : {c : ℕ} {p s : List ℕ} → c ≡ b'*' → Glob p s → Glob (c ∷ p) s
  more : {c d : ℕ} {p s : List ℕ} → c ≡ b'*' → Glob (c ∷ p) s → Glob (c ∷ p) (d ∷ s)
  single : {c d : ℕ} {p s : List ℕ} → c ≡ b'?' → Glob p s → Glob (c ∷ p) (d ∷ s)
  letter : {c d : ℕ} {p s : List ℕ} → c ≢ b'*' → c ≢ b'?' → d ≡ c → Glob p s → Glob (c ∷ p) (d ∷ s)

-- A pattern that is one star stands for every text.
pub Glob-star : (s : List ℕ) → Glob (b'*' ∷ []) s
Glob-star [] = skip refl done
Glob-star (d ∷ s) = more refl (Glob-star s)

some_suffix-Glob :
    (c : ℕ) (p s : List ℕ)
    → c ≡ b'*'
    → ((t : List ℕ) → fnmatchcase p t ≡ true → Glob p t)
    → some_suffix (fnmatchcase p) s ≡ true
    → Glob (c ∷ p) s
unfolding some_suffix
some_suffix-Glob c p [] e ih h = skip e (ih [] h)
some_suffix-Glob c p (d ∷ s) e ih h = elim (Bool-cases (fnmatchcase p (d ∷ s))) [
  | inl hit ↦ skip e (ih (d ∷ s) hit)
  | inr miss ↦ more e (some_suffix-Glob c p s e ih (rw (miss, ◌||◌) at h))
]

one_char-Glob :
    (c : ℕ) (p s : List ℕ)
    → c ≡ b'?'
    → ((t : List ℕ) → fnmatchcase p t ≡ true → Glob p t)
    → one_char (fnmatchcase p) s ≡ true
    → Glob (c ∷ p) s
unfolding one_char
one_char-Glob c p [] e ih h = cc
one_char-Glob c p (d ∷ s) e ih h = single e (ih s h)

this_char-Glob :
    (c : ℕ) (p s : List ℕ)
    → c ≢ b'*'
    → c ≢ b'?'
    → ((t : List ℕ) → fnmatchcase p t ≡ true → Glob p t)
    → this_char c (fnmatchcase p) s ≡ true
    → Glob (c ∷ p) s
unfolding this_char
this_char-Glob c p [] star mark ih h = cc
this_char-Glob c p (d ∷ s) star mark ih h = letter star mark (ground arith) (ih s (ground arith))

-- A text that the matcher accepts is one that the pattern stands for.
pub fnmatchcase_sound : (p s : List ℕ) → fnmatchcase p s ≡ true → Glob p s
unfolding fnmatchcase
fnmatchcase_sound [] [] h = done
fnmatchcase_sound [] (d ∷ s) h = cc
fnmatchcase_sound (c ∷ p) s h = elim (Bool-cases (c == b'*')) [
  | inl star ↦ some_suffix-Glob c p s (==→eq c b'*' star) (fnmatchcase_sound p) (rw star at h)
  | inr plain ↦ elim (Bool-cases (c == b'?')) [
    | inl mark ↦
        one_char-Glob c p s (==→eq c b'?' mark) (fnmatchcase_sound p) (rw (plain, mark) at h)
    | inr literal ↦
        this_char-Glob c p s (ground arith) (ground arith) (fnmatchcase_sound p)
          (rw (plain, literal) at h)
  ]
]

some_suffix_here : (p : List ℕ → Bool) (s : List ℕ) → p s ≡ true → some_suffix p s ≡ true
unfolding some_suffix
some_suffix_here p [] h = h
some_suffix_here p (c ∷ s) h = rw h

some_suffix_later :
    (p : List ℕ → Bool) (c : ℕ) (s : List ℕ) → some_suffix p s ≡ true → some_suffix p (c ∷ s) ≡ true
unfolding some_suffix
some_suffix_later p c s h = ground arith

fnmatchcase_star :
    (c : ℕ) (p s : List ℕ) → c ≡ b'*' → fnmatchcase (c ∷ p) s ≡ some_suffix (fnmatchcase p) s
unfolding fnmatchcase
fnmatchcase_star c p s e = rw e

fnmatchcase_mark :
    (c d : ℕ) (p s : List ℕ) → c ≡ b'?' → fnmatchcase (c ∷ p) (d ∷ s) ≡ fnmatchcase p s
unfolding fnmatchcase
fnmatchcase_mark c d p s e = rw e

fnmatchcase_letter :
    (c d : ℕ) (p s : List ℕ)
    → c ≢ b'*'
    → c ≢ b'?'
    → d ≡ c
    → fnmatchcase (c ∷ p) (d ∷ s) ≡ fnmatchcase p s
unfolding fnmatchcase
fnmatchcase_letter c d p s star mark e = ground arith

-- A text that the pattern stands for is accepted.
pub fnmatchcase_complete : (p s : List ℕ) → Glob p s → fnmatchcase p s ≡ true
fnmatchcase_complete _ _ done = unfold fnmatchcase in refl
fnmatchcase_complete _ _ (skip {c = c} {p = p} {s = s} e g) =
    fnmatchcase_star c p s e ∙ some_suffix_here (fnmatchcase p) s (fnmatchcase_complete p s g)
fnmatchcase_complete _ _ (more {c = c} {d = d} {p = p} {s = s} e g) =
    fnmatchcase_star c p (d ∷ s) e
    ∙ some_suffix_later (fnmatchcase p) d s
        (sym (fnmatchcase_star c p s e) ∙ fnmatchcase_complete (c ∷ p) s g)
fnmatchcase_complete _ _ (single {c = c} {d = d} {p = p} {s = s} e g) =
    fnmatchcase_mark c d p s e ∙ fnmatchcase_complete p s g
fnmatchcase_complete _ _ (letter {c = c} {d = d} {p = p} {s = s} star mark e g) =
    fnmatchcase_letter c d p s star mark e ∙ fnmatchcase_complete p s g

-- The matcher decides the wildcard language: it accepts exactly the texts of the pattern.
pub fnmatchcase_iff : (p s : List ℕ) → (fnmatchcase p s ≡ true) ↔ Glob p s
fnmatchcase_iff p s = (fnmatchcase_sound p s, fnmatchcase_complete p s)

-- Every pattern stands for its own text.
pub Glob-refl : (p : List ℕ) → Glob p p
Glob-refl [] = done
Glob-refl (c ∷ p) = elim (Bool-cases (c == b'*')) [
  | inl star ↦ more (==→eq c b'*' star) (skip (==→eq c b'*' star) (Glob-refl p))
  | inr plain ↦ elim (Bool-cases (c == b'?')) [
    | inl mark ↦ single (==→eq c b'?' mark) (Glob-refl p)
    | inr other ↦ letter (ground arith) (ground arith) refl (Glob-refl p)
  ]
]
