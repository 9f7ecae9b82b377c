-- ===== src/LeastPrivilege/Offers.antt =====
-- What agent/least_privilege.py offers: the attempts with a candidate, and the chosen one.
use aws_foundations.Base.{
  is_empty, ℕ, ◌≡◌, refl, sym, Bool, true, false, List, [], ◌∷◌, Option, none, some, String, Result,
  ok, raised, ◌>>=◌, >>=-eq-ok, Bool-cases, All, All-++, subst, inl, inr, arith, if◌then◌else◌,
  ok-injective, one_of, str_eq,
}
use aws_foundations.Base.Json.{Fields}
use aws_foundations.LeastPrivilege.Documents.{Problem, value_error}
use aws_foundations.LeastPrivilege.Candidates.{static_candidate}
use aws_foundations.LeastPrivilege.Narrow.{Verdict, Narrowing, NoNewAccess, evaluate_narrowing}
use aws_foundations.LeastPrivilege.Attempts.{
  Method, Status, CodeActions, Attempt, status_for, unavailable_attempt, or_unavailable,
  or_unusable, coverage_of, estimated_attempt, static_report, static_attempt, static_estimate,
  access_analyzer_activity,
}
use aws_foundations.LeastPrivilege.Recommend.{
  Generator, asks, observed_candidate, activity_report, observed_attempt, activity_attempt,
  attempts_for,
}
use aws_foundations.LeastPrivilege.Contained.{Grounds, evaluate_narrowing-Grounds, is_offered_on}

-- a status that can be chosen
abbrev pub is_choice : Status → Bool
is_choice Status.recommended = true
is_choice Status.needs_review = true
is_choice _ = false

-- An attempt that carries a candidate with the grounds for it.
pub record Offer (lower : List ℕ → List ℕ) (ask : Option NoNewAccess) (verify : Bool)
    (before : Fields) (a : Attempt) : Type 0 where
  pub policy : Fields
  pub proof : Narrowing
  pub has_candidate : a.candidate ≡ some policy
  pub has_narrowing : a.narrowing ≡ some proof
  pub evaluated : evaluate_narrowing lower ask verify before policy ≡ ok proof
  pub verdict : is_offered_on proof.verdict ≡ true
  pub grounds : Grounds lower before policy proof
  pub strict : a.status ≡ Status.recommended → proof.verdict ≡ Verdict.strictly_narrower

-- A call that was caught leaves no choice, so that a choice has its result.
or_unavailable-result :
    {A : Type 0} (method : Method) (call : Result Problem A) (next : A → Result Problem Attempt)
    (a : Attempt)
    → or_unavailable method call next ≡ ok a
    → is_choice a.status ≡ true
    → (x : A) × (call ≡ ok x) × (next x ≡ ok a)
unfolding or_unavailable unavailable_attempt
or_unavailable-result method (ok x) next a h choice = (x, refl, h)
or_unavailable-result method (raised (Problem.unavailable code)) next a h choice =
    absurd (ground arith)
or_unavailable-result method (raised _) next a h choice = cc

or_unusable-result :
    {A : Type 0} (method : Method) (call : Result Problem A) (next : A → Result Problem Attempt)
    (a : Attempt)
    → or_unusable method call next ≡ ok a
    → is_choice a.status ≡ true
    → (x : A) × (call ≡ ok x) × (next x ≡ ok a)
unfolding or_unusable unavailable_attempt
or_unusable-result method (raised (value_error message)) next a h choice = absurd (ground arith)
or_unusable-result method call next a h choice = or_unavailable-result method call next a h choice

-- The status that a verdict leads to.
status_for-choice :
    (verdict : Verdict) (review : Bool)
    → is_choice (status_for verdict review) ≡ true
    → is_offered_on verdict ≡ true
unfolding status_for
status_for-choice Verdict.strictly_narrower review h = refl
status_for-choice Verdict.inconclusive review h = refl
status_for-choice Verdict.not_narrower review h = cc
status_for-choice Verdict.expansion review h = cc

status_for-recommended :
    (verdict : Verdict) (review : Bool)
    → status_for verdict review ≡ Status.recommended
    → (verdict ≡ Verdict.strictly_narrower) × (review ≡ false)
unfolding status_for
status_for-recommended Verdict.strictly_narrower true h = cc
status_for-recommended Verdict.strictly_narrower false h = (refl, refl)
status_for-recommended Verdict.inconclusive review h = cc
status_for-recommended Verdict.not_narrower review h = cc
status_for-recommended Verdict.expansion review h = cc

-- A report of a verdict is an offer if it can be chosen.
report-Offer :
    (lower : List ℕ → List ℕ) (ask : Option NoNewAccess) (verify : Bool) (before policy : Fields)
    (proof : Narrowing) (review : Bool) (a : Attempt)
    → evaluate_narrowing lower ask verify before policy ≡ ok proof
    → a.candidate ≡ some policy
    → a.narrowing ≡ some proof
    → a.status ≡ status_for proof.verdict review
    → is_choice a.status ≡ true
    → Offer lower ask verify before a
report-Offer lower ask verify before policy proof review a evaluated c n s choice =
    let offered =
      status_for-choice proof.verdict review (subst (λ t. is_choice t ≡ true) s choice) in
    record {
      policy = policy;
      proof = proof;
      has_candidate = c;
      has_narrowing = n;
      evaluated = evaluated;
      verdict = offered;
      grounds = evaluate_narrowing-Grounds lower ask verify before policy proof evaluated offered;
      strict = λ best. (status_for-recommended proof.verdict review (cc)).0;
    }

-- An attempt that may be left out.
optional-All :
    (P : Attempt → Type 0) (b : Bool) (call : Result Problem Attempt) (attempts : List Attempt)
    → (if b then (call >>= λ a. ok (a ∷ [])) else ok []) ≡ ok attempts
    → ((a : Attempt) → call ≡ ok a → P a)
    → All P attempts
optional-All P true (ok a) attempts h p = subst (All P) (ok-injective h) (p a refl, tt)
optional-All P true (raised e) attempts h p = cc
optional-All P false call attempts h p = subst (All P) (ok-injective h) tt

module _ (lower : List ℕ → List ℕ) (fnmatch : List ℕ → List ℕ → Bool) where
  estimated_attempt-Offer :
      (ask : Option NoNewAccess) (verify : Bool) (estimate : CodeActions) (before : Fields)
      (a : Attempt)
      → estimated_attempt lower fnmatch ask verify estimate before ≡ ok a
      → is_choice a.status ≡ true
      → Offer lower ask verify before a
  unfolding estimated_attempt static_report
  estimated_attempt-Offer ask verify estimate before a h choice =
      let (made, m, h1) =
        or_unusable-result static_estimate (static_candidate lower fnmatch before estimate.actions)
          _ a h choice in
      let (proof, p, h2) = or_unavailable-result static_estimate _ _ a h1 choice in
      let (report, r, h3) = >>=-eq-ok (coverage_of lower fnmatch estimate before made.0 []) _ h2 in
      let e = ok-injective h3 in
      subst (Offer lower ask verify before) e (
        report-Offer lower ask verify before made.0 proof _ _ p refl refl refl
          (subst (λ b. is_choice b.status ≡ true) (sym e) choice))

  static_attempt-Offer :
      (ask : Option NoNewAccess) (verify : Bool) (estimate : CodeActions) (before : Fields)
      (a : Attempt)
      → static_attempt lower fnmatch ask verify estimate before ≡ ok a
      → is_choice a.status ≡ true
      → Offer lower ask verify before a
  unfolding static_attempt unavailable_attempt
  static_attempt-Offer ask verify estimate before a h choice =
      elim (Bool-cases (is_empty estimate.actions)) [
        | inl nothing ↦ absurd (ground arith)
        | inr actions ↦ estimated_attempt-Offer ask verify estimate before a (ground arith) choice
      ]

  observed_attempt-Offer :
      (generator : Generator) (verify : Bool) (estimate : CodeActions) (before : Fields)
      (role : String) (a : Attempt)
      → observed_attempt lower fnmatch generator verify estimate before role ≡ ok a
      → is_choice a.status ≡ true
      → Offer lower (some generator.no_new_access) verify before a
  unfolding observed_attempt activity_report
  observed_attempt-Offer generator verify estimate before role a h choice =
      let ask = some generator.no_new_access in
      let (found, f, h1) =
        or_unusable-result access_analyzer_activity
          (observed_candidate lower fnmatch generator role before) _ a h choice in
      let (proof, p, h2) = or_unavailable-result access_analyzer_activity _ _ a h1 choice in
      let (report, r, h3) =
        >>=-eq-ok (coverage_of lower fnmatch estimate before found.0.0 found.0.1) _ h2 in
      let e = ok-injective h3 in
      subst (Offer lower ask verify before) e (
        report-Offer lower ask verify before found.0.0 proof _ _ p refl refl refl
          (subst (λ b. is_choice b.status ≡ true) (sym e) choice))

  activity_attempt-Offer :
      (generator : Option Generator) (verify : Bool) (estimate : CodeActions) (before : Fields)
      (role : Option String) (a : Attempt)
      → activity_attempt lower fnmatch generator verify estimate before role ≡ ok a
      → is_choice a.status ≡ true
      → Offer lower (asks generator) verify before a
  unfolding activity_attempt unavailable_attempt
  activity_attempt-Offer generator verify estimate before none a h choice = absurd (ground arith)
  activity_attempt-Offer none verify estimate before (some role) a h choice = absurd (ground arith)
  activity_attempt-Offer (some generator) verify estimate before (some role) a h choice =
      elim (Bool-cases (str_eq role "")) [
        | inl blank ↦ absurd (ground arith)
        | inr named ↦
            observed_attempt-Offer generator verify estimate before role a (ground arith) choice
      ]

  pub attempts_for-Offers :
      (method : String) (generator : Option Generator) (verify : Bool) (estimate : CodeActions)
      (before : Fields) (role : Option String) (attempts : List Attempt)
      → attempts_for lower fnmatch method generator verify estimate before role ≡ ok attempts
      → All (λ a. is_choice a.status ≡ true → Offer lower (asks generator) verify before a) attempts
  unfolding attempts_for
  attempts_for-Offers method generator verify estimate before role attempts h =
      let offers =
        λ (a : Attempt). is_choice a.status ≡ true → Offer lower (asks generator) verify before a in
      let (xs, ex, h1) =
        >>=-eq-ok
          (if one_of method ("auto" ∷ "activity" ∷ [])
            then (activity_attempt lower fnmatch generator verify estimate before role >>= λ a.
                ok (a ∷ []))
            else ok [])
          _ h in
      let (ys, ey, h2) =
        >>=-eq-ok
          (if one_of method ("auto" ∷ "static" ∷ [])
            then (static_attempt lower fnmatch (asks generator) verify estimate before >>= λ a.
                ok (a ∷ []))
            else ok [])
          _ h1 in
      subst (All offers) (ok-injective h2) (
        All-++ offers xs ys
          (optional-All offers _ _ xs ex
            (activity_attempt-Offer generator verify estimate before role))
          (optional-All offers _ _ ys ey
            (static_attempt-Offer (asks generator) verify estimate before)))
