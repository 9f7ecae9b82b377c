-- ===== src/Iam/Reading.antt =====
-- What the check reads of a policy is what the policy holds.
use aws_foundations.Base.{
  ◌≡◌, refl, sym, ap, true, List, [], ◌∷◌, Option, none, some, String, subst, ok, >>=-eq-ok, All,
  Result-cases, inl, inr, arith,
}
use aws_foundations.Base.Json.{Value, str, arr, obj, Items, Fields, items, get, is_text}
use aws_foundations.Iam.{
  texts, values, check_statement, check_statements, statement_list, statements, listed,
}
use aws_foundations.Iam.Meaning.{texts_of, written, objects, written_list, written_statements}

-- The texts that the check reads are those that are written.
texts-eq-texts_of : (vs : List Value) {out : List String} → texts vs ≡ ok out → texts_of vs ≡ out
unfolding texts texts_of
texts-eq-texts_of [] h = ground arith
texts-eq-texts_of (str s ∷ vs) h = elim (Result-cases (texts vs)) [
  | inl (rest, e) ↦ ground (arith, texts-eq-texts_of vs e)
  | inr (e, failed) ↦ ground arith
]
texts-eq-texts_of (_ ∷ vs) h = cc

values-eq-written : (v : Option Value) {out : List String} → values v ≡ ok out → written v ≡ out
unfolding values written texts_of
values-eq-written none h = cc
values-eq-written (some (str s)) h = texts-eq-texts_of (str s ∷ []) h
values-eq-written (some (arr Items.nil)) h = cc
values-eq-written (some (arr (Items.cons v vs))) h = texts-eq-texts_of (items (Items.cons v vs)) h
values-eq-written (some _) h = cc

listed-eq-written :
    (key : String) (s : Fields) {out : List String}
    → values (get key s) ≡ ok out
    → listed key s ≡ written (get key s)
unfolding listed
listed-eq-written key s h = rw (h, listed) (sym (values-eq-written (get key s) h))

-- A statement that the check accepts is an `Allow` whose fields are read as they are written.
pub record Accepted (s : Fields) : Type 0 where
  pub effect : is_text (get "Effect" s) "Allow" ≡ true
  pub actions : listed "Action" s ≡ written (get "Action" s)
  pub resources : listed "Resource" s ≡ written (get "Resource" s)

check_statement-Accepted : (d s : Fields) → check_statement (obj d) ≡ ok s → (d ≡ s) × Accepted d
unfolding check_statement
check_statement-Accepted d s h = elim (Result-cases (values (get "Action" d))) [
  | inr (e, failed) ↦ absurd (ground arith)
  | inl (actions, a) ↦ elim (Result-cases (values (get "Resource" d))) [
    | inr (e, failed) ↦ absurd (ground arith)
    | inl (resources, r) ↦ (
      ground arith,
      record {
        effect = ground arith;
        actions = listed-eq-written "Action" d a;
        resources = listed-eq-written "Resource" d r;
      },
    )
  ]
]

-- The statements that the check goes through are those that the document holds, all accepted.
pub record Read (found : List Fields) (ss : List Fields) : Type 0 where
  pub same : found ≡ ss
  pub accepted : All Accepted ss

Read-cons :
    (d s : Fields) (found rest : List Fields)
    → (d ≡ s) × Accepted d
    → Read found rest
    → Read (d ∷ found) (s ∷ rest)
Read-cons d s found rest (e, a) r = record {
  same = cc (r.same);
  accepted = (subst Accepted e a, r.accepted);
}

check_statements-Read :
    (vs : List Value) (ss : List Fields) → check_statements vs ≡ ok ss → Read (objects vs) ss
unfolding check_statements objects
check_statements-Read [] [] h = record { same = refl; accepted = tt }
check_statements-Read [] (s ∷ ss) h = cc
check_statements-Read (obj d ∷ vs) ss h =
    let (s, e, k) = >>=-eq-ok (check_statement (obj d)) _ h in
    let (rest, r, final) = >>=-eq-ok (check_statements vs) _ k in
    let same : s ∷ rest ≡ ss = cc in
    subst (λ (ts : List Fields). Read (d ∷ objects vs) ts) same
      (Read-cons d s (objects vs) rest (check_statement-Accepted d s e)
        (check_statements-Read vs rest r))
check_statements-Read (v ∷ vs) ss h = unfold check_statement in cc

written_list-eq-objects :
    (o : Option Value) (found : List Value)
    → statement_list o ≡ ok found
    → written_list o ≡ objects found
unfolding statement_list written_list objects
written_list-eq-objects none found h = cc
written_list-eq-objects (some (obj s)) found h = ap objects {x = obj s ∷ []} {y = found} (cc)
written_list-eq-objects (some (arr Items.nil)) found h = cc
written_list-eq-objects (some (arr (Items.cons v vs))) found h =
    ap objects {x = items (Items.cons v vs)} {y = found} (ground arith)
written_list-eq-objects (some _) found h = cc

pub statements-Read :
    (v : Value) (ss : List Fields) → statements v ≡ ok ss → Read (written_statements v) ss
unfolding statements written_statements
statements-Read (obj d) ss h = elim (Result-cases (statement_list (get "Statement" d))) [
  | inr (e, failed) ↦ absurd (ground arith)
  | inl (found, e) ↦
      rw (written_list-eq-objects (get "Statement" d) found e)
        (check_statements-Read found ss (ground arith))
]
statements-Read _ ss h = cc
