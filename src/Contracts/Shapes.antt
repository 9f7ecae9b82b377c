-- ===== src/Contracts/Shapes.antt =====
-- What the patterns of agent/orchestration/contracts.py accept, said without them.
use aws_foundations.Base.{
  ℕ, ◌≤◌, ◌≡◌, ◌⊎◌, ◌∙◌, refl, ap, Bool, true, ◌||◌, List, [], ◌∷◌, ◌++◌, some, String, arith,
  length, any, all, all-All, All, All-map, codes, text_eq, text_eq_sound, ◌==◌, ==→eq, Bool-cases,
  Option-cases, inl, inr,
}
use aws_foundations.Contracts.{
  is_alnum, is_hex, one_of_chars, named, is_principal, after_prefix, before_suffix, hex_32,
  is_run_id, archive_name, is_upload_key, is_https,
}

abbrev pub IsBetween : ℕ → ℕ → ℕ → Type 0
IsBetween lo hi c = (lo ≤ c) × (c ≤ hi)

-- An ASCII letter or digit.
abbrev pub IsAlnum : ℕ → Type 0
IsAlnum c = IsBetween 65 90 c ⊎ IsBetween 97 122 c ⊎ IsBetween 48 57 c

-- One of `_ . @ : + -`.
abbrev pub IsPrincipalMark : ℕ → Type 0
IsPrincipalMark c = (c ≡ b'_') ⊎ (c ≡ b'.') ⊎ (c ≡ b'@') ⊎ (c ≡ b':') ⊎ (c ≡ b'+') ⊎ (c ≡ b'-')

-- One of `_ . -`.
abbrev pub IsNameMark : ℕ → Type 0
IsNameMark c = (c ≡ b'_') ⊎ (c ≡ b'.') ⊎ (c ≡ b'-')

-- 1 to 128 letters, digits and marks, the first of them a letter or a digit.
abbrev pub IsNamed : (ℕ → Type 0) → List ℕ → Type 0
IsNamed Mark [] = ⊥
IsNamed Mark (c ∷ t) = IsAlnum c × All (λ d. IsAlnum d ⊎ Mark d) t × (length (c ∷ t) ≤ 128)

-- "run-" and 32 lower-case hexadecimal digits.
abbrev pub IsRunId : List ℕ → Type 0
IsRunId s =
    (t : List ℕ) × (s ≡ codes "run-" ++ t)
    × All (λ c. IsBetween 48 57 c ⊎ IsBetween 97 102 c) t
    × (length t ≡ 32)

-- "https://" and anything.
abbrev pub IsHttps : List ℕ → Type 0
IsHttps s = (t : List ℕ) × (s ≡ codes "https://" ++ t)

-- "upload:", a name, and ".zip".
abbrev pub IsUpload : List ℕ → Type 0
IsUpload s =
    (name : List ℕ) × (s ≡ codes "upload:" ++ (name ++ codes ".zip")) × IsNamed IsNameMark name

is_alnum-IsAlnum : (c : ℕ) → is_alnum c ≡ true → IsAlnum c
unfolding is_alnum
is_alnum-IsAlnum c h = ground arith

is_hex-digit : (c : ℕ) → is_hex c ≡ true → IsBetween 48 57 c ⊎ IsBetween 97 102 c
unfolding is_hex
is_hex-digit c h = ground arith

principal_mark_lem : (c : ℕ) → one_of_chars "_.@:+-" c ≡ true → IsPrincipalMark c
unfolding any codes
principal_mark_lem c h = ground arith

name_mark_lem : (c : ℕ) → one_of_chars "_.-" c ≡ true → IsNameMark c
unfolding any codes
name_mark_lem c h = ground arith

named-IsNamed :
    (Mark : ℕ → Type 0) (more : ℕ → Bool) (s : List ℕ)
    → ((c : ℕ) → more c ≡ true → Mark c)
    → named more s ≡ true
    → IsNamed Mark s
unfolding named
named-IsNamed Mark more [] marks h = cc
named-IsNamed Mark more (c ∷ t) marks h =
    let rest : all (λ d. is_alnum d || more d) t ≡ true = ground arith in
    (
      is_alnum-IsAlnum c (ground arith),
      All-map t
          (λ d e. elim (Bool-cases (is_alnum d)) [
            | inl plain ↦ inl (is_alnum-IsAlnum d plain)
            | inr other ↦ inr (marks d (ground arith))
          ])
          (all-All _ t rest),
      ground arith,
    )

after_prefix-eq : (p s t : List ℕ) → after_prefix p s ≡ some t → s ≡ p ++ t
unfolding after_prefix
after_prefix-eq [] s t h = cc
after_prefix-eq (c ∷ p) [] t h = cc
after_prefix-eq (c ∷ p) (d ∷ s) t h = elim (Bool-cases (c == d)) [
  | inl same ↦ cc (==→eq c d same, after_prefix-eq p s t (ground arith))
  | inr differs ↦ absurd (ground arith)
]

before_suffix-eq :
    (suffix s front : List ℕ) → before_suffix suffix s ≡ some front → s ≡ front ++ suffix
unfolding before_suffix
before_suffix-eq suffix [] front h = elim (Bool-cases (text_eq suffix [])) [
  | inl same ↦
      let e = text_eq_sound suffix [] same in
      let f : ◌≡◌ {A = List ℕ} [] front = ground arith in rw (e, ← f) refl
  | inr differs ↦ absurd (ground arith)
]
before_suffix-eq suffix (c ∷ t) front h = elim (Bool-cases (text_eq (c ∷ t) suffix)) [
  | inl same ↦
      let f : ◌≡◌ {A = List ℕ} [] front = ground arith in
      rw (← f) (text_eq_sound (c ∷ t) suffix same)
  | inr differs ↦ elim (Option-cases (before_suffix suffix t)) [
    | inl other ↦ absurd (ground arith)
    | inr (rest, found) ↦
        let f : c ∷ rest ≡ front = ground arith in
        rw (← f) (ap (λ u. c ∷ u) (before_suffix-eq suffix t rest found))
  ]
]

pub is_principal-IsNamed : (s : String) → is_principal s ≡ true → IsNamed IsPrincipalMark (codes s)
unfolding is_principal
is_principal-IsNamed s h =
    named-IsNamed IsPrincipalMark (one_of_chars "_.@:+-") (codes s) principal_mark_lem h

pub is_run_id-IsRunId : (s : String) → is_run_id s ≡ true → IsRunId (codes s)
unfolding is_run_id hex_32
is_run_id-IsRunId s h = elim (Option-cases (after_prefix (codes "run-") (codes s))) [
  | inl other ↦ absurd (ground arith)
  | inr (t, found) ↦
      let digits : all is_hex t ≡ true = ground arith in
      (
        t,
        after_prefix-eq (codes "run-") (codes s) t found,
        All-map t is_hex-digit (all-All is_hex t digits),
        ==→eq (length t) 32 (ground arith),
      )
]

pub is_https-IsHttps : (s : String) → is_https s ≡ true → IsHttps (codes s)
unfolding is_https
is_https-IsHttps s h = elim (Option-cases (after_prefix (codes "https://") (codes s))) [
  | inl other ↦ absurd (ground arith)
  | inr (t, found) ↦ (t, after_prefix-eq (codes "https://") (codes s) t found)
]

pub is_upload_key-IsUpload : (s : String) → is_upload_key s ≡ true → IsUpload (codes s)
unfolding is_upload_key archive_name
is_upload_key-IsUpload s h = elim (Option-cases (after_prefix (codes "upload:") (codes s))) [
  | inl other ↦ absurd (ground arith)
  | inr (t, found) ↦ elim (Option-cases (before_suffix (codes ".zip") t)) [
    | inl plain ↦ absurd (ground arith)
    | inr (name, ends) ↦ (
      name,
      after_prefix-eq (codes "upload:") (codes s) t found
          ∙ ap (λ u. codes "upload:" ++ u) (before_suffix-eq (codes ".zip") t name ends),
      named-IsNamed IsNameMark (one_of_chars "_.-") name name_mark_lem (ground arith),
    )
  ]
]
