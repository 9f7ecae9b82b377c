-- ===== src/Iam/Containment.antt =====
-- The containment check against what the policies grant.
use aws_foundations.Base.{
  ℕ, ◌≡◌, refl, sym, true, false, List, [], ◌∷◌, String, subst, ok, Any, All, any, all, any-Any,
  all-All, Any-map, Any-All, Any-All_elim, codes, has_char, text_eq, text_eq_sound, Bool-cases,
  Result-cases, inl, inr, &&-eq_true, arith,
}
use aws_foundations.Base.Json.{Value, Fields}
use aws_foundations.Iam.{
  safe, statements, listed, covered_folded, covered_by, covers_pair, contained, check_no_expansion,
}
use aws_foundations.Iam.Glob.{fnmatchcase, fnmatchcase_sound, Glob-star}
use aws_foundations.Iam.Meaning.{Reading, written_statements, Grants, Allows}
use aws_foundations.Iam.Reading.{Accepted, Read, statements-Read}

-- A text without the four marks of the check has none of the three of a policy variable.
no_variable : (t : List ℕ) → has_char "[]${}" t ≡ false → has_char "${}" t ≡ false
unfolding has_char any codes
no_variable [] h = refl
no_variable (c ∷ t) h = ground (arith, no_variable t)

module _ (R : Reading) where
  open R use {Matches, literal, wildcard}

  star_matches : (e v : List ℕ) → text_eq e (codes "*") ≡ true → Matches e v
  unfolding codes has_char any
  star_matches e v h =
      subst (λ p. Matches p v) (sym (text_eq_sound e (codes "*") h))
        (wildcard (codes "*") v refl (Glob-star v))

  exact_matches :
      (c e v : List ℕ)
      → has_char "*?${}" c ≡ false
      → has_char "[]${}" e ≡ false
      → fnmatchcase e c ≡ true
      → Matches c v
      → Matches e v
  exact_matches c e v plain fixed hit m =
      subst (Matches e) (sym (literal c v plain m))
        (wildcard e c (no_variable e fixed) (fnmatchcase_sound e c hit))

  -- A covered text matches no value that the covering one does not.
  covered_folded-Matches : (c e v : List ℕ) → covered_folded c e ≡ true → Matches c v → Matches e v
  unfolding covered_folded
  covered_folded-Matches c e v h m = elim (Bool-cases (text_eq c e)) [
    | inl same ↦ subst (λ p. Matches p v) (text_eq_sound c e same) m
    | inr differs ↦ elim (Bool-cases (text_eq e (codes "*"))) [
      | inl star ↦ star_matches e v star
      | inr narrow ↦ exact_matches c e v (ground arith) (ground arith) (ground arith) m
    ]
  ]

module _ (R : Reading) (lower : List ℕ → List ℕ) (a r : List ℕ) where
  open R use {Matches}

  covers_pair-Grants :
      (p q : String)
      → Matches (lower (codes p)) (lower a)
      → Matches (codes q) r
      → (e : Fields) → covers_pair lower p q e ≡ true
      → Accepted e
      → Grants R lower a r e
  unfolding covers_pair covered_by
  covers_pair-Grants p q ma mr e h acc = (
    acc.effect,
    subst (Any _) acc.actions (
        Any-map (λ x hx. covered_folded-Matches R _ _ (lower a) hx ma)
          (any-Any _ (listed "Action" e) (&&-eq_true _ _ h).0)),
    subst (Any _) acc.resources (
        Any-map (λ x hx. covered_folded-Matches R _ _ r hx mr)
          (any-Any _ (listed "Resource" e) (&&-eq_true _ _ h).1)),
  )

  -- One statement of the candidate: every pair of its values is covered somewhere in the original.
  statement-Grants :
      (old : List Fields)
      → All Accepted old
      → (s : Fields) → Grants R lower a r s
      → All
          (λ p. all (λ q. any (covers_pair lower p q) old) (listed "Resource" s) ≡ true)
          (listed "Action" s)
      → Accepted s
      → Any (Grants R lower a r) old
  statement-Grants old accepted s (effect, acts, ress) pairs acc =
      Any-All_elim
        (λ p ma covered.
          Any-All_elim
            (λ q mr hit. Any-All (covers_pair-Grants p q ma mr) (any-Any _ old hit) accepted)
            (subst (Any _) (sym acc.resources) ress) (all-All _ (listed "Resource" s) covered))
        (subst (Any _) (sym acc.actions) acts) pairs

  contained-Grants :
      (old new : List Fields)
      → All Accepted old
      → All Accepted new
      → contained lower old new ≡ true
      → Any (Grants R lower a r) new
      → Any (Grants R lower a r) old
  unfolding contained
  contained-Grants old new accepted_old accepted_new h granted =
      Any-All_elim
        (λ s both covered.
          statement-Grants old accepted_old s both.0 (all-All _ (listed "Action" s) covered) both.1)
        (Any-All {R = λ s. Grants R lower a r s × Accepted s} (λ s g acc. (g, acc)) granted
          accepted_new)
        (all-All _ new h)

-- What a safe verdict rests on.
pub check_no_expansion-safe :
    (lower : List ℕ → List ℕ) (before after : Value)
    → (check_no_expansion lower before after).status ≡ safe
    → (old : List Fields) × (new : List Fields) × (statements before ≡ ok old)
      × (statements after ≡ ok new)
      × (contained lower old new ≡ true)
unfolding check_no_expansion
check_no_expansion-safe lower before after h = elim (Result-cases (statements before)) [
  | inr (e, failed) ↦ absurd (ground arith)
  | inl (old, e) ↦ elim (Result-cases (statements after)) [
    | inr (e', failed) ↦ absurd (ground arith)
    | inl (new, e') ↦ (old, new, e, e', ground arith)
  ]
]

-- If the check says `safe`, then whatever the reading of patterns (as AWS documents it) and of
-- letter case, every request that the candidate policy grants is granted by the original policy.
pub check_no_expansion_sound :
    (R : Reading) (lower : List ℕ → List ℕ) (before after : Value) (action resource : List ℕ)
    → (check_no_expansion lower before after).status ≡ safe
    → Allows R lower after action resource
    → Allows R lower before action resource
check_no_expansion_sound R lower before after action resource h granted =
    let (old, new, e, e', c) = check_no_expansion-safe lower before after h in
    let o : Read (written_statements before) old = statements-Read before old e in
    let n : Read (written_statements after) new = statements-Read after new e' in
    subst (Any _) (sym o.same) (
      contained-Grants R lower action resource old new o.accepted n.accepted c
        (subst (Any _) n.same granted))
