-- ===== src/LeastPrivilege/Contained.antt =====
-- What a narrowing verdict of agent/least_privilege.py rests on, and what a candidate grants then.
use aws_foundations.Base.{
  is_empty, ℕ, ◌≡◌, refl, sym, Bool, true, false, ◌&&◌, ◌||◌, List, Option, ok, ◌>>=◌, >>=-eq-ok,
  Bool-cases, subst, inl, inr, ◌⊎◌, arith, ok-injective,
}
use aws_foundations.Base.Json.{obj, Fields}
use aws_foundations.Base.Dicts.{same_value}
use aws_foundations.Iam.{AccessStatus, check_no_expansion}
use aws_foundations.LeastPrivilege.Removed.{Removes, compared-Removes}
use aws_foundations.LeastPrivilege.Narrow.{
  ExpansionCheck, Verdict, Narrowing, NoNewAccess, proof_copy, same_status, answers, conclude,
  ask_aws, compared, evaluate_narrowing,
}

-- What stands behind a verdict that a candidate is offered on.
pub record Grounds (lower : List ℕ → List ℕ) (before candidate : Fields) (n : Narrowing)
    : Type 0 where
  pub copied : Fields
  pub copy : proof_copy candidate ≡ ok copied
  pub not_expansion :
      same_status (check_no_expansion lower (obj before) (obj copied)).status AccessStatus.expansion
      ≡ false
  pub removes : Removes lower before candidate
  pub aws_agrees : answers n.aws AccessStatus.expansion ≡ false
  pub proved :
      n.verdict ≡ Verdict.strictly_narrower
      → ((check_no_expansion lower (obj before) (obj copied)).status ≡ AccessStatus.safe)
        ⊎ (answers n.aws AccessStatus.safe ≡ true)

-- a verdict on which a candidate is offered
abbrev pub is_offered_on : Verdict → Bool
is_offered_on Verdict.strictly_narrower = true
is_offered_on Verdict.inconclusive = true
is_offered_on _ = false

-- What an offered verdict of `conclude` rests on.
conclude-offered :
    (proof : Narrowing) (local : AccessStatus) (aws : Option ExpansionCheck)
    → is_offered_on (conclude proof local aws).verdict ≡ true
    → ((conclude proof local aws).aws ≡ aws) × (answers aws AccessStatus.expansion ≡ false)
unfolding conclude
conclude-offered proof local aws h = (ground arith, ground arith)

conclude-proved :
    (proof : Narrowing) (local : AccessStatus) (aws : Option ExpansionCheck)
    → (conclude proof local aws).verdict ≡ Verdict.strictly_narrower
    → same_status local AccessStatus.expansion ≡ false
    → (local ≡ AccessStatus.safe) ⊎ (answers aws AccessStatus.safe ≡ true)
unfolding conclude
conclude-proved proof AccessStatus.safe aws h e = inl refl
conclude-proved proof AccessStatus.expansion aws h e = cc
conclude-proved proof AccessStatus.inconclusive aws h e = inr (ground arith)

conclude-Grounds :
    (lower : List ℕ → List ℕ) (before candidate copied : Fields) (proof n : Narrowing)
    (aws : Option ExpansionCheck)
    → proof_copy candidate ≡ ok copied
    → same_status (check_no_expansion lower (obj before) (obj copied)).status AccessStatus.expansion
      ≡ false
    → Removes lower before candidate
    → conclude proof (check_no_expansion lower (obj before) (obj copied)).status aws ≡ n
    → is_offered_on n.verdict ≡ true
    → Grounds lower before candidate n
conclude-Grounds lower before candidate copied proof n aws copy narrow removes e offered =
    let local = (check_no_expansion lower (obj before) (obj copied)).status in
    let ends =
      conclude-offered proof local aws
        (subst (λ m. is_offered_on m.verdict ≡ true) (sym e) offered) in
    subst (Grounds lower before candidate) e (record {
      copied = copied;
      copy = copy;
      not_expansion = narrow;
      removes = removes;
      aws_agrees = rw (ends.0) (ends.1);
      proved = λ strict. rw (ends.0) (conclude-proved proof local aws strict narrow);
    })

-- A verdict on which a candidate is offered was reached past every test.
pub evaluate_narrowing-Grounds :
    (lower : List ℕ → List ℕ) (generator : Option NoNewAccess) (verify : Bool)
    (before candidate : Fields) (n : Narrowing)
    → evaluate_narrowing lower generator verify before candidate ≡ ok n
    → is_offered_on n.verdict ≡ true
    → Grounds lower before candidate n
unfolding evaluate_narrowing
evaluate_narrowing-Grounds lower generator verify before candidate n h offered =
    let (copied, copy, h1) = >>=-eq-ok (proof_copy candidate) _ h in
    let (proof, made, h2) = >>=-eq-ok (compared lower before candidate) _ h1 in
    let local = (check_no_expansion lower (obj before) (obj copied)).status in
    elim (Bool-cases (same_status local AccessStatus.expansion)) [
      | inl wide ↦ absurd (ground arith)
      | inr narrow ↦
          elim (Bool-cases (
            same_value (obj candidate) (obj before)
            || is_empty proof.removed_actions && is_empty proof.removed_resources)) [
              | inl same ↦ absurd (ground arith)
              | inr differs ↦
                  let rest : (ask_aws generator verify before candidate >>= λ aws.
                  ok (conclude proof local aws))
                      ≡ ok n =
                    ground arith in
                  let (aws, asked, h3) =
                    >>=-eq-ok (ask_aws generator verify before candidate) _ rest in
                  conclude-Grounds lower before candidate copied proof n aws copy narrow
                    (compared-Removes lower before candidate proof made (ground arith))
                    (ok-injective h3) offered
            ]
    ]
