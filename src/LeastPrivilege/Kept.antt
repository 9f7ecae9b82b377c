-- ===== src/LeastPrivilege/Kept.antt =====
-- What `static_candidate` of agent/least_privilege.py keeps of a policy.
use aws_foundations.Base.{
  is_empty, ℕ, ◌≡◌, refl, ap, Bool, true, false, not, ◌&&◌, List, [], ◌∷◌, ◌++◌, map, some, String,
  ok, raise_if, >>=-eq-ok, any, keep_if, one_of, str_eq, str_eq_sound, Bool-cases, inl, inr, Any,
  first, later, All, All-++, All-map, subst, ok-injective, arith,
}
use aws_foundations.Base.Json.{Value, str, obj, Fields, get, items-to_items}
use aws_foundations.Base.Dicts.{put}
use aws_foundations.Iam.Meaning.{texts_of}
use aws_foundations.LeastPrivilege.Documents.{
  values_of, rows, mapping, is_wildcard, one_or_list, value_error,
}
use aws_foundations.LeastPrivilege.Candidates.{
  document, version_of, in_lower, granted_by, needed_of, narrow_statement, narrow_all,
  static_candidate,
}

pub one_of-keep_if :
    (p : String → Bool) (s : String) (xs : List String)
    → one_of s (keep_if p xs) ≡ (one_of s xs && p s)
unfolding keep_if one_of
one_of-keep_if p s [] = refl
one_of-keep_if p s (x ∷ xs) = elim (Bool-cases (str_eq s x)) [
  | inl same ↦
      let e = str_eq_sound s x same in
      let alike : p s ≡ p x = cc in ground (arith, one_of-keep_if p s xs)
  | inr differs ↦ ground (arith, one_of-keep_if p s xs)
]

texts_of-map_str : (ss : List String) → texts_of (map str ss) ≡ ss
unfolding texts_of
texts_of-map_str [] = refl
texts_of-map_str (s ∷ ss) = ap (λ (r : List String). s ∷ r) (texts_of-map_str ss)

-- The field that is written is read back as the values.
pub values_of-one_or_list : (ss : List String) → values_of (some (one_or_list ss)) ≡ ok ss
unfolding values_of one_or_list texts_of
values_of-one_or_list [] = rw (items-to_items (map str [])) refl
values_of-one_or_list (s ∷ []) = refl
values_of-one_or_list (s ∷ t ∷ ss) =
    rw (items-to_items (map str (s ∷ t ∷ ss)), texts_of-map_str (s ∷ t ∷ ss)) refl

module _ (lower : List ℕ → List ℕ) (fnmatch : List ℕ → List ℕ → Bool) (wanted : List String) where
  -- A statement of the candidate and the one that it comes from: the same, or with those wanted
  -- actions for its own that one of its wildcards grants.
  pub data Derived : Value → Value → Type 0 where
    untouched : {s : Fields} → Derived (obj s) (obj s)
    narrowed :
        {s : Fields} (granted needed : List String)
        → values_of (get "Action" s) ≡ ok granted
        → is_empty needed ≡ false
        → ((a : String)
            → one_of a needed ≡ true
            → (one_of a wanted ≡ true)
              × (any (granted_by lower fnmatch a) (keep_if is_wildcard granted) ≡ true))
        → Derived (obj s) (obj (put "Action" (one_or_list needed) s))

  narrow_statement-Derived :
      (remaining : List String) (s : Fields) (granted : List String)
      → ((a : String) → one_of a remaining ≡ true → one_of a wanted ≡ true)
      → values_of (get "Action" s) ≡ ok granted
      → All (Derived (obj s)) (narrow_statement lower fnmatch remaining s granted).0
  unfolding narrow_statement needed_of
  narrow_statement-Derived remaining s granted sub h =
      let broad = keep_if is_wildcard granted in
      let needed = keep_if (λ a. any (granted_by lower fnmatch a) broad) remaining in
      elim (Bool-cases (is_empty broad)) [
        | inl exact ↦ rw exact (untouched, tt)
        | inr wild ↦ elim (Bool-cases (is_empty needed)) [
          | inl unused ↦ rw (wild, unused) tt
          | inr used ↦
              rw (wild, used)
                (
                  narrowed granted needed h used (λ a found.
                      let e =
                        one_of-keep_if (λ b. any (granted_by lower fnmatch b) broad) a remaining in
                      (sub a (ground arith), ground arith)),
                  tt,
                )
        ]
      ]

  -- The wanted actions that remain after a statement are among those before it.
  narrow_statement-remaining :
      (remaining : List String) (s : Fields) (granted : List String) (a : String)
      → one_of a (narrow_statement lower fnmatch remaining s granted).1 ≡ true
      → one_of a remaining ≡ true
  unfolding narrow_statement
  narrow_statement-remaining remaining s granted a h =
      let broad = keep_if is_wildcard granted in
      let needed = needed_of lower fnmatch broad remaining in
      let e = one_of-keep_if (λ b. not (in_lower lower granted b)) a remaining in
      let f = one_of-keep_if (λ b. not (one_of b needed)) a remaining in ground arith

  narrow_all-Derived :
      (remaining : List String) (vs : List Value) (kept : List Value) (left : List String)
      → ((a : String) → one_of a remaining ≡ true → one_of a wanted ≡ true)
      → narrow_all lower fnmatch remaining vs ≡ ok (kept, left)
      → All (λ w. Any (λ u. Derived u w) vs) kept
  unfolding narrow_all mapping
  narrow_all-Derived remaining [] kept left sub h =
      subst (All _) (ap (λ (r : List Value × List String). r.0) (ok-injective h)) tt
  narrow_all-Derived remaining (obj s ∷ vs) kept left sub h =
      let (granted, g, h1) = >>=-eq-ok (values_of (get "Action" s)) _ h in
      let one = narrow_statement lower fnmatch remaining s granted in
      let (rest, r, h2) = >>=-eq-ok (narrow_all lower fnmatch one.1 vs) _ h1 in
      let here = narrow_statement-Derived remaining s granted sub g in
      let deeper =
        narrow_all-Derived one.1 vs rest.0 rest.1
          (λ a found. sub a (narrow_statement-remaining remaining s granted a found)) r in
      let e : one.0 ++ rest.0 ≡ kept =
        ap (λ (r : List Value × List String). r.0) (ok-injective h2) in
      subst (All (λ w. Any (λ u. Derived u w) (obj s ∷ vs))) e (
        All-++ _ one.0 rest.0 (All-map one.0 (λ w d. first d) here)
          (All-map rest.0 (λ w d. later d) deeper))
  narrow_all-Derived remaining (_ ∷ vs) kept left sub h = cc

  -- What a static candidate is: its statements come from the policy, one by one.
  pub static_candidate-cases :
      (before candidate : Fields) (reported : List String)
      → static_candidate lower fnmatch before wanted ≡ ok (candidate, reported)
      → (vs : List Value) × (kept : List Value) × (rows (get "Statement" before) ≡ ok vs)
        × (rows (get "Statement" candidate) ≡ ok kept)
        × (narrow_all lower fnmatch wanted vs ≡ ok (kept, reported))
  unfolding static_candidate rows get
  static_candidate-cases before candidate reported h =
      let (t1, c1, h1) =
        >>=-eq-ok (raise_if (is_empty wanted) (value_error "no_static_actions")) _ h in
      let (vs, v, h2) = >>=-eq-ok (rows (get "Statement" before)) _ h1 in
      let (narrow, n, h3) = >>=-eq-ok (narrow_all lower fnmatch wanted vs) _ h2 in
      let (t2, c2, h4) =
        >>=-eq-ok (raise_if (is_empty narrow.0) (value_error "no_reducible_actions")) _ h3 in
      let made = ok-injective h4 in
      let candidate_eq : document (version_of (get "Version" before)) narrow.0 ≡ candidate =
        ap (λ (r : Fields × List String). r.0) made in
      let reported_eq : narrow.1 ≡ reported = ap (λ (r : Fields × List String). r.1) made in
      (
        vs,
        narrow.0,
        v,
        subst (λ d. rows (get "Statement" d) ≡ ok narrow.0) candidate_eq
            (rw (items-to_items narrow.0) refl),
        subst (λ l. narrow_all lower fnmatch wanted vs ≡ ok (narrow.0, l)) reported_eq n,
      )

-- Each statement of a static candidate is one of the policy's own, unchanged, or that statement
-- with some wanted actions in place of its own, each granted by one of its wildcards.
pub static_candidate-Derived :
    (lower : List ℕ → List ℕ) (fnmatch : List ℕ → List ℕ → Bool) (wanted : List String)
    (before candidate : Fields) (reported : List String)
    → static_candidate lower fnmatch before wanted ≡ ok (candidate, reported)
    → (vs : List Value) × (kept : List Value) × (rows (get "Statement" before) ≡ ok vs)
      × (rows (get "Statement" candidate) ≡ ok kept)
      × All (λ w. Any (λ u. Derived lower fnmatch wanted u w) vs) kept
static_candidate-Derived lower fnmatch wanted before candidate reported h =
    let (vs, kept, v, k, n) =
      static_candidate-cases lower fnmatch wanted before candidate reported h in
    (
      vs,
      kept,
      v,
      k,
      narrow_all-Derived lower fnmatch wanted wanted vs kept reported (λ a found. found) n,
    )
