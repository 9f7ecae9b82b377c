-- ===== src/LeastPrivilege/Named.antt =====
-- Which wanted actions a static candidate of agent/least_privilege.py names.
use aws_foundations.Base.{
  is_empty, ℕ, ◌≡◌, refl, ap, Bool, true, false, not, ◌||◌, List, [], ◌∷◌, String, ok, raised,
  >>=-eq-ok, any, keep_if, one_of, codes, text_eq, text_eq_refl, str_eq, str_eq_sound, Bool-cases,
  inl, inr, any-++, subst, ok-injective, arith,
}
use aws_foundations.Base.Json.{Value, obj, Fields, get}
use aws_foundations.Base.Dicts.{put, get-put}
use aws_foundations.LeastPrivilege.Documents.{values_of, rows, mapping, is_wildcard, one_or_list}
use aws_foundations.LeastPrivilege.Candidates.{
  in_lower, needed_of, narrow_statement, narrow_all, static_candidate,
}
use aws_foundations.LeastPrivilege.Kept.{
  one_of-keep_if, values_of-one_or_list, static_candidate-cases,
}

module _ (lower : List ℕ → List ℕ) (fnmatch : List ℕ → List ℕ → Bool) (wanted : List String) where
  -- an action that a statement of the candidate names
  unfoldable pub names : String → Value → Bool
  names a (obj s) = elim (values_of (get "Action" s)) [
    | ok granted ↦ in_lower lower granted a
    | raised e ↦ false
  ]
  names a _ = false

  in_lower-one_of :
      (a : String) (xs : List String) → one_of a xs ≡ true → in_lower lower xs a ≡ true
  unfolding in_lower any one_of
  in_lower-one_of a [] h = h
  in_lower-one_of a (x ∷ xs) h = elim (Bool-cases (str_eq a x)) [
    | inl same ↦
        let e : a ≡ x = str_eq_sound a x same in
        let r : text_eq (lower (codes a)) (lower (codes x)) ≡ true =
          subst (λ b. text_eq (lower (codes a)) (lower (codes b)) ≡ true) e
            (text_eq_refl (lower (codes a))) in
        ground arith
    | inr differs ↦ ground (arith, in_lower-one_of a xs (ground arith))
  ]

  names-eq-in_lower :
      (a : String) (s : Fields) (granted : List String)
      → values_of (get "Action" s) ≡ ok granted
      → names a (obj s) ≡ in_lower lower granted a
  unfolding names
  names-eq-in_lower a s granted h = ground arith

  is_empty-one_of : (a : String) (xs : List String) → is_empty xs ≡ true → one_of a xs ≡ false
  unfolding one_of
  is_empty-one_of a [] h = refl
  is_empty-one_of a (x ∷ xs) h = cc

  -- A wanted action is named by what is kept of a statement, or remains.
  narrow_statement-names :
      (remaining : List String) (s : Fields) (granted : List String) (a : String)
      → values_of (get "Action" s) ≡ ok granted
      → one_of a remaining ≡ true
      → (any (names a) (narrow_statement lower fnmatch remaining s granted).0
          || one_of a (narrow_statement lower fnmatch remaining s granted).1)
        ≡ true
  unfolding narrow_statement any
  narrow_statement-names remaining s granted a h found =
      let broad = keep_if is_wildcard granted in
      let needed = needed_of lower fnmatch broad remaining in
      let e = one_of-keep_if (λ b. not (in_lower lower granted b)) a remaining in
      let f = one_of-keep_if (λ b. not (one_of b needed)) a remaining in
      elim (Bool-cases (is_empty broad)) [
        | inl exact ↦ let n = names-eq-in_lower a s granted h in rw (exact, n) (ground arith)
        | inr wild ↦ elim (Bool-cases (is_empty needed)) [
          | inl unused ↦ rw (wild, unused) (ground (arith, is_empty-one_of a needed unused))
          | inr used ↦
              let put_there = put "Action" (one_or_list needed) s in
              let read : values_of (get "Action" put_there) ≡ ok needed =
                rw (get-put "Action" (one_or_list needed) s) (values_of-one_or_list needed) in
              let n = names-eq-in_lower a put_there needed read in
              rw (wild, used, n)
                (elim (Bool-cases (one_of a needed)) [
                  | inl hit ↦ ground (arith, in_lower-one_of a needed hit)
                  | inr miss ↦ ground arith
                ])
        ]
      ]

  narrow_all-names :
      (remaining : List String) (vs kept : List Value) (left : List String) (a : String)
      → narrow_all lower fnmatch remaining vs ≡ ok (kept, left)
      → one_of a remaining ≡ true
      → (any (names a) kept || one_of a left) ≡ true
  unfolding narrow_all mapping any
  narrow_all-names remaining [] kept left a h found =
      let e : remaining ≡ left = ap (λ (r : List Value × List String). r.1) (ok-injective h) in
      let k : one_of a left ≡ true = subst (λ xs. one_of a xs ≡ true) e found in ground arith
  narrow_all-names remaining (obj s ∷ vs) kept left a h found =
      let (granted, g, h1) = >>=-eq-ok (values_of (get "Action" s)) _ h in
      let one = narrow_statement lower fnmatch remaining s granted in
      let (rest, r, h2) = >>=-eq-ok (narrow_all lower fnmatch one.1 vs) _ h1 in
      let here = narrow_statement-names remaining s granted a g found in
      let split = any-++ (names a) one.0 rest.0 in
      subst (λ (r : List Value × List String). (any (names a) r.0 || one_of a r.1) ≡ true)
        (ok-injective h2)
        (elim (Bool-cases (one_of a one.1)) [
          | inl remains ↦
              let deeper = narrow_all-names one.1 vs rest.0 rest.1 a r remains in ground arith
          | inr gone ↦ ground arith
        ])
  narrow_all-names remaining (_ ∷ vs) kept left a h found = cc

-- A wanted action that a static candidate does not report as missing is named, but for letter
-- case, by one of the candidate's statements.
pub static_candidate-names :
    (lower : List ℕ → List ℕ) (fnmatch : List ℕ → List ℕ → Bool) (wanted : List String)
    (before candidate : Fields) (reported : List String) (a : String)
    → static_candidate lower fnmatch before wanted ≡ ok (candidate, reported)
    → one_of a wanted ≡ true
    → one_of a reported ≡ false
    → (kept : List Value) × (rows (get "Statement" candidate) ≡ ok kept)
      × (any (names lower fnmatch wanted a) kept ≡ true)
static_candidate-names lower fnmatch wanted before candidate reported a h found unreported =
    let (vs, kept, v, k, n) =
      static_candidate-cases lower fnmatch wanted before candidate reported h in
    let m = narrow_all-names lower fnmatch wanted wanted vs kept reported a n found in
    (kept, k, ground arith)
