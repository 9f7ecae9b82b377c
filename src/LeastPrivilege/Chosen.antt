-- ===== src/LeastPrivilege/Chosen.antt =====
-- The attempt that agent/least_privilege.py chooses.
use aws_foundations.Base.{
  ℕ, ◌≡◌, refl, sym, Bool, true, false, not, List, [], ◌∷◌, Option, some, String, ok, raise_if,
  >>=-eq-ok, Bool-cases, Option-cases, All, subst, inl, inr, arith, ok-injective, one_of, str_eq,
}
use aws_foundations.Base.Json.{Fields, obj}
use aws_foundations.Iam.{AccessStatus}
use aws_foundations.Iam.Meaning.{Reading, Allows}
use aws_foundations.Governance as Governance
use aws_foundations.LeastPrivilege.Recommend.{is_permit}
use aws_foundations.LeastPrivilege.Documents.{Problem}
use aws_foundations.Governance.{Decision, permit}
use aws_foundations.LeastPrivilege.Narrow.{Narrowing, answers}
use aws_foundations.LeastPrivilege.Attempts.{Status, CodeActions, Attempt}
use aws_foundations.LeastPrivilege.Recommend.{
  Generator, asks, attempts_for, same_status, first_with, chosen, Recommendation, recommend,
}
use aws_foundations.LeastPrivilege.Granted.{evaluate_narrowing_sound}
use aws_foundations.LeastPrivilege.Offers.{is_choice, Offer, attempts_for-Offers}

-- The first attempt of a status has it, and what all attempts have.
first_with-All :
    (P : Attempt → Type 0) (status : Status) (attempts : List Attempt) (a : Attempt)
    → first_with status attempts ≡ some a
    → All P attempts
    → (same_status a.status status ≡ true) × P a
unfolding first_with
first_with-All P status [] a h all = cc
first_with-All P status (b ∷ bs) a h all = elim (Bool-cases (same_status b.status status)) [
  | inl hit ↦
      let e : b ≡ a = ground arith in
      (subst (λ c. same_status c.status status ≡ true) e hit, subst P e (all.0))
  | inr miss ↦ first_with-All P status bs a (ground arith) (all.1)
]

recommended-choice : (s : Status) → same_status s Status.recommended ≡ true → is_choice s ≡ true
recommended-choice Status.recommended h = refl
recommended-choice Status.needs_review h = cc
recommended-choice Status.rejected h = cc
recommended-choice Status.unavailable h = cc

needs_review-choice : (s : Status) → same_status s Status.needs_review ≡ true → is_choice s ≡ true
needs_review-choice Status.recommended h = cc
needs_review-choice Status.needs_review h = refl
needs_review-choice Status.rejected h = cc
needs_review-choice Status.unavailable h = cc

chosen-All :
    (P : Attempt → Type 0) (attempts : List Attempt) (a : Attempt)
    → chosen attempts ≡ some a
    → All P attempts
    → (is_choice a.status ≡ true) × P a
unfolding chosen
chosen-All P attempts a h all = elim (Option-cases (first_with Status.recommended attempts)) [
  | inl none_best ↦
      let (s, p) = first_with-All P Status.needs_review attempts a (ground arith) all in
      (needs_review-choice a.status s, p)
  | inr (best, found) ↦
      let (s, p) = first_with-All P Status.recommended attempts a (ground arith) all in
      (recommended-choice a.status s, p)
]

permitted_outcome :
    (o : Governance.Outcome) (problem : Problem) {t : Unit}
    → raise_if (not (is_permit o)) problem ≡ ok t
    → o ≡ permit
permitted_outcome permit problem h = refl
permitted_outcome _ problem h = cc

-- If an attempt is chosen, governance had permitted the proposal, the attempt is recommended or
-- needs review, and it carries a candidate whose evaluation has a verdict to offer it on: the local
-- check of its copy reports no expansion, AWS reports none if it was asked, and some action of the
-- policy is, but for letter case, none of the candidate's, or some resource of it is none of the
-- candidate's. If it is recommended, the verdict is strictly narrower.
pub recommend-Offer :
    (lower : List ℕ → List ℕ) (fnmatch : List ℕ → List ℕ → Bool) (decision : Decision)
    (method verify : String) (generator : Option Generator) (estimate : CodeActions)
    (before : Fields) (role : Option String) (r : Recommendation) (a : Attempt)
    → recommend lower fnmatch decision method verify generator estimate before role ≡ ok r
    → chosen r.attempts ≡ some a
    → (decision.outcome ≡ permit)
      × (is_choice a.status ≡ true)
      × Offer lower (asks generator) (str_eq verify "aws") before a
unfolding recommend
recommend-Offer lower fnmatch decision method verify generator estimate before role r a h picked =
    let (t1, c1, h1) =
      >>=-eq-ok (raise_if (not (one_of method ("auto" ∷ "activity" ∷ "static" ∷ []))) _) _ h in
    let (t2, c2, h2) = >>=-eq-ok (raise_if (not (one_of verify ("local" ∷ "aws" ∷ []))) _) _ h1 in
    let (t3, c3, h3) = >>=-eq-ok (raise_if (not (is_permit decision.outcome)) _) _ h2 in
    let (attempts, made, h4) =
      >>=-eq-ok
        (attempts_for lower fnmatch method generator (str_eq verify "aws") estimate before role) _
        h3 in
    let e = ok-injective h4 in
    let (choice, offer) =
      chosen-All _ attempts a
        (subst (λ (q : Recommendation). chosen q.attempts ≡ some a) (sym e) picked)
        (attempts_for-Offers lower fnmatch method generator (str_eq verify "aws") estimate before
          role attempts made) in
    (permitted_outcome decision.outcome _ c3, choice, offer choice)

-- If the chosen attempt is recommended, and AWS was not asked about its candidate or did not answer
-- `safe`, then under any reading of patterns as AWS documents it and of letter case, every request
-- that the candidate grants is granted by the policy that it replaces.
pub recommend_sound :
    (R : Reading) (lower : List ℕ → List ℕ) (fnmatch : List ℕ → List ℕ → Bool) (decision : Decision)
    (method verify : String) (generator : Option Generator) (estimate : CodeActions)
    (before : Fields) (role : Option String) (r : Recommendation) (a : Attempt) (policy : Fields)
    (proof : Narrowing) (action resource : List ℕ)
    → recommend lower fnmatch decision method verify generator estimate before role ≡ ok r
    → chosen r.attempts ≡ some a
    → a.status ≡ Status.recommended
    → a.candidate ≡ some policy
    → a.narrowing ≡ some proof
    → answers proof.aws AccessStatus.safe ≡ false
    → Allows R lower (obj policy) action resource
    → Allows R lower (obj before) action resource
recommend_sound R lower fnmatch decision method verify generator estimate before role r a policy
      proof action resource h picked best has_policy has_proof local granted =
    let (permission, choice, offer) =
      recommend-Offer lower fnmatch decision method verify generator estimate before role r a h
        picked in
    let p : offer.policy ≡ policy = cc (offer.has_candidate, has_policy) in
    let n : offer.proof ≡ proof = cc (offer.has_narrowing, has_proof) in
    evaluate_narrowing_sound R lower action resource (asks generator) (str_eq verify "aws") before
      offer.policy offer.proof offer.evaluated (offer.strict best) (rw n local)
      (subst (λ d. Allows R lower (obj d) action resource) (sym p) granted)
