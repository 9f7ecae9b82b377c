-- ===== src/LeastPrivilege/Granted.antt =====
-- What a candidate of agent/least_privilege.py grants, once its verdict stands.
use aws_foundations.Base.{
  ℕ, ◌==◌, ◌≡◌, ◌⊎◌, refl, sym, Bool, false, List, [], ◌∷◌, map, Option, none, some, String, ok,
  ◌>>=◌, >>=-eq-ok, Bool-cases, Any, first, later, subst, codes, has_char, any, inl, inr, arith,
  ok-injective,
}
use aws_foundations.Base.Json.{
  Value, str, arr, obj, Fields, items, get, keys, to_items, items-to_items,
}
use aws_foundations.Base.Dicts.{put, get-put, get-put_ne}
use aws_foundations.Iam.{AccessStatus}
use aws_foundations.Iam.Glob.{Glob-star}
use aws_foundations.Iam.Meaning.{
  Reading, Grants, Allows, texts_of, written, objects, written_list, written_statements,
}
use aws_foundations.Iam.Containment.{check_no_expansion_sound}
use aws_foundations.LeastPrivilege.Documents.{
  values_of, rows, mapping, contains_placeholder, is_placeholder,
}
use aws_foundations.LeastPrivilege.Narrow.{
  Verdict, Narrowing, NoNewAccess, widen, copy_statements, proof_copy, answers, evaluate_narrowing,
}
use aws_foundations.LeastPrivilege.Contained.{evaluate_narrowing-Grounds}

-- What is written in a field is among the values that the code reads there.
values_of-written :
    {P : String → Type 0} (v : Option Value) {out : List String}
    → values_of v ≡ ok out
    → Any P (written v)
    → Any P out
unfolding values_of written
values_of-written {P} none h found = subst (Any P) (ok-injective h) found
values_of-written {P} (some (str s)) h found = subst (Any P) (ok-injective h) found
values_of-written {P} (some (arr vs)) h found = subst (Any P) (ok-injective h) found
values_of-written (some _) h found = elim found [ ]

-- What the copy is: the candidate itself, or the candidate with other statements.
proof_copy-cases :
    (candidate copied : Fields)
    → proof_copy candidate ≡ ok copied
    → (candidate ≡ copied)
      ⊎ ((vs : List Value) × (ws : List Value) × (rows (get "Statement" candidate) ≡ ok vs)
          × (copy_statements vs ≡ ok ws)
          × (put "Statement" (arr (to_items ws)) candidate ≡ copied))
unfolding proof_copy
proof_copy-cases candidate copied h =
    let (n, counted, h1) = >>=-eq-ok (contains_placeholder candidate) _ h in
    elim (Bool-cases (n == 0)) [
      | inl plain ↦ inl (ground arith)
      | inr marked ↦
          let k : (do
            statements ← rows (get "Statement" candidate)
            copied' ← copy_statements statements
            ok (put "Statement" (arr (to_items copied')) candidate))
              ≡ ok copied =
            ground arith in
          let (vs, listed, k1) = >>=-eq-ok (rows (get "Statement" candidate)) _ k in
          let (ws, copies, k2) = >>=-eq-ok (copy_statements vs) _ k1 in
          inr (vs, ws, listed, copies, ok-injective k2)
    ]

module _ (R : Reading) (lower : List ℕ → List ℕ) (action resource : List ℕ) where
  open R use {Matches, wildcard}

  widen-Matches : (s : String) → Matches (codes s) resource → Matches (codes (widen s)) resource
  unfolding widen has_char any codes
  widen-Matches s m = elim (Bool-cases (is_placeholder s)) [
    | inl marked ↦
        let e : widen s ≡ "*" = rw marked refl in
        subst (λ t. Matches (codes t) resource) (sym e)
          (wildcard (codes "*") resource refl (Glob-star resource))
    | inr plain ↦
        let e : widen s ≡ s = rw plain refl in subst (λ t. Matches (codes t) resource) (sym e) m
  ]

  widened_texts :
      (ss : List String)
      → Any (λ p. Matches (codes p) resource) ss
      → Any
          (λ p. Matches (codes p) resource)
          (texts_of (items (to_items (map (λ r. str (widen r)) ss))))
  unfolding texts_of items to_items
  widened_texts [] found = elim found [ ]
  widened_texts (s ∷ ss) (first m) = first (widen-Matches s m)
  widened_texts (s ∷ ss) (later m) = later (widened_texts ss m)

  -- One statement of the copy grants what the statement itself grants.
  copied-Grants :
      (s : Fields) (resources : List String)
      → values_of (get "Resource" s) ≡ ok resources
      → Grants R lower action resource s
      → Grants R lower action resource
          (put "Resource" (arr (to_items (map (λ r. str (widen r)) resources))) s)
  unfolding written
  copied-Grants s resources h (effect, acts, ress) =
      let v = arr (to_items (map (λ r. str (widen r)) resources)) in
      (
        rw (get-put_ne "Resource" "Effect" v s refl) effect,
        rw (get-put_ne "Resource" "Action" v s refl) acts,
        rw (get-put "Resource" v s)
            (widened_texts resources (values_of-written (get "Resource" s) h ress)),
      )

  copy_statements-Grants :
      (vs ws : List Value)
      → copy_statements vs ≡ ok ws
      → Any (Grants R lower action resource) (objects vs)
      → Any (Grants R lower action resource) (objects ws)
  unfolding copy_statements objects mapping
  copy_statements-Grants [] ws h found = elim found [ ]
  copy_statements-Grants (obj d ∷ vs) ws h found =
      let (resources, e, k) = >>=-eq-ok (values_of (get "Resource" d)) _ h in
      let (rest, r, final) = >>=-eq-ok (copy_statements vs) _ k in
      let more = copy_statements-Grants vs rest r in
      subst (λ us. Any (Grants R lower action resource) (objects us)) (ok-injective final)
        (elim found [
          | first granted ↦ first (copied-Grants d resources e granted)
          | later deeper ↦ later (more deeper)
        ])
  copy_statements-Grants (_ ∷ vs) ws h found = cc

  listed-Grants :
      (v : Option Value) (vs ws : List Value)
      → rows v ≡ ok vs
      → copy_statements vs ≡ ok ws
      → Any (Grants R lower action resource) (written_list v)
      → Any (Grants R lower action resource) (objects ws)
  unfolding rows written_list copy_statements mapping keys get
  listed-Grants none vs ws h e found = elim found [ ]
  listed-Grants (some (arr us)) vs ws h e found =
      copy_statements-Grants (items us) ws
        (subst (λ t. copy_statements t ≡ ok ws) (sym (ok-injective h)) e) found
  listed-Grants (some (obj Fields.end)) vs ws h e (first (effect, g, m)) = absurd (cc)
  listed-Grants (some (obj Fields.end)) vs ws h e (later g) = elim g [ ]
  listed-Grants (some (obj (Fields.field k v fs))) vs ws h e found = absurd (cc)
  listed-Grants (some _) vs ws h e found = elim found [ ]

  -- The copy that is proved grants all that the candidate grants, its placeholders included.
  pub proof_copy-Allows :
      (candidate copied : Fields)
      → proof_copy candidate ≡ ok copied
      → Allows R lower (obj candidate) action resource
      → Allows R lower (obj copied) action resource
  unfolding written_statements written_list
  proof_copy-Allows candidate copied h granted = elim (proof_copy-cases candidate copied h) [
    | inl same ↦ subst (λ d. Allows R lower (obj d) action resource) same granted
    | inr (vs, ws, listed, copies, made) ↦
        subst (λ d. Allows R lower (obj d) action resource) made
          (rw (get-put "Statement" (arr (to_items ws)) candidate, items-to_items ws)
            (listed-Grants (get "Statement" candidate) vs ws listed copies granted))
  ]

  -- If a candidate is called strictly narrower, and AWS was not asked or did not answer `safe`, then
  -- under any reading of patterns as AWS documents it and of letter case, every request that the
  -- candidate grants, its placeholders for resources included, is granted by the policy that it
  -- replaces.
  pub evaluate_narrowing_sound :
      (generator : Option NoNewAccess) (verify : Bool) (before candidate : Fields) (n : Narrowing)
      → evaluate_narrowing lower generator verify before candidate ≡ ok n
      → n.verdict ≡ Verdict.strictly_narrower
      → answers n.aws AccessStatus.safe ≡ false
      → Allows R lower (obj candidate) action resource
      → Allows R lower (obj before) action resource
  evaluate_narrowing_sound generator verify before candidate n h strict local granted =
      let g =
        evaluate_narrowing-Grounds lower generator verify before candidate n h (rw strict refl) in
      elim (g.proved strict) [
        | inl safe ↦
            check_no_expansion_sound R lower (obj before) (obj g.copied) action resource safe
              (proof_copy-Allows candidate g.copied g.copy granted)
        | inr aws ↦ absurd (ground arith)
      ]
