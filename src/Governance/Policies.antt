-- ===== src/Governance/Policies.antt =====
-- What the repository's own policies decide.
use aws_foundations.Base.{
  ℕ, ◌<◌, ◌≡◌, ◌≢◌, ◌↔◌, ◌⊎◌, refl, sym, inl, inr, Bool, true, false, not, ◌&&◌, [], ◌∷◌, some,
  String, arith, subst, Bool-cases, str_eq, eq_iff, one_of, one_of_three,
}
use aws_foundations.Governance.{
  Operation, Given, no_approval, malformed, approval, permit, needs_human_approval, deny, Context,
  replied, context_of, is_reviewable, decide, is_approved, evaluate, remediation, permits, forbids,
  is_trusted,
}
use aws_foundations.Governance.Decisions.{
  approved_in, evaluate-permit, matches_iff, decide-refused, decide-reviewed,
}

-- The facts that every permission of the repository's policies needs: a tenant that owns the source,
-- a known environment, and a source that has not changed since.
abbrev pub IsTrusted : Operation → Type 0
IsTrusted o =
    ((o.tenant ≢ "") × (o.tenant ≡ o.owner))
    × ((o.environment ≡ "development")
        ⊎ (o.environment ≡ "staging")
        ⊎ (o.environment ≡ "production"))
    × ((o.source_hash ≢ "") × (o.source_hash ≡ o.current_hash))

-- An approval by a named reviewer that has not run out, for this proposal, this source, these
-- policies, this tenant and this environment.
abbrev pub IsApproved : (String → Bool) → String → Operation → Given → ℕ → Type 0
IsApproved is_blank version o no_approval now = ⊥
IsApproved is_blank version o malformed now = ⊥
IsApproved is_blank version o (approval a) now =
    (is_blank a.reviewer ≡ false)
    × (now < a.expires_at)
    × (a.proposal_id ≡ o.proposal_id)
    × (a.source_hash ≡ o.source_hash)
    × (a.policy_version ≡ version)
    × (a.tenant ≡ o.tenant)
    × (a.environment ≡ o.environment)

-- A candidate that all the validators passed.
abbrev pub IsChecked : Operation → Type 0
IsChecked o = (o.validated ≡ true) × (o.runtime_validated ≡ true) × (o.access_safe ≡ true)

named_same : (a b : String) → ((not (str_eq a "") && str_eq a b) ≡ true) ↔ ((a ≢ "") × (a ≡ b))
named_same a b = (
  λ h. (λ blank. let same = (eq_iff a "").1 blank in ground arith, (eq_iff a b).0 (ground arith)),
  λ (named, same). elim (Bool-cases (str_eq a "")) [
    | inl blank ↦ absurd (named ((eq_iff a "").0 blank))
    | inr h ↦ rw (h, (eq_iff a b).1 same) refl
  ],
)

is_trusted-IsTrusted :
    (o : Operation) (approved : Bool) → (is_trusted (context_of o approved) ≡ true) ↔ IsTrusted o
unfolding context_of
is_trusted-IsTrusted o approved =
    let known = one_of_three o.environment "development" "staging" "production" in
    let owns = named_same o.tenant o.owner in
    let fresh = named_same o.source_hash o.current_hash in
    (
      λ h. (owns.0 (ground arith), known.0 (ground arith), fresh.0 (ground arith)),
      λ h. rw (owns.1 (h.0), known.1 (h.1), fresh.1 (h.2)) refl,
    )

approved_in-IsApproved :
    (is_blank : String → Bool) (version : String) (o : Operation) (given : Given) (now : ℕ)
    → (approved_in is_blank version o given now ≡ some true)
      ↔ IsApproved is_blank version o given now
unfolding approved_in
approved_in-IsApproved is_blank version o no_approval now = (λ h. cc, λ h. absurd h)
approved_in-IsApproved is_blank version o malformed now = (λ h. cc, λ h. absurd h)
approved_in-IsApproved is_blank version o (approval a) now =
    let exact = matches_iff is_blank version o a now in
    (λ h. exact.0 (cc h), λ h. rw (exact.1 h) refl)

open_pr_allowed :
    (c : Context)
    → (remediation "openPR" c ≡ replied false true) ↔ (
        (is_trusted c ≡ true)
        × (c.validated ≡ true)
        × (c.runtime_validated ≡ true)
        × (c.access_safe ≡ true)
        × (c.approved ≡ true))
unfolding remediation permits forbids
open_pr_allowed c = (λ h. ground arith, λ h. ground arith)

review_allowed : (c : Context) → remediation "review" c ≡ replied false (is_trusted c)
unfolding remediation permits forbids
review_allowed c = ground arith

open_pr_refused : (c : Context) → c.approved ≡ false → remediation "openPR" c ≡ replied false false
unfolding remediation permits forbids
open_pr_refused c h = ground arith

mutation_refused :
    (action : String) (c : Context)
    → one_of action ("directCommit" ∷ "merge" ∷ "deploy" ∷ []) ≡ true
    → remediation action c ≡ replied false false
unfolding remediation permits forbids one_of
mutation_refused action c h = ground arith

-- With the repository's policies a pull request is permitted exactly if a tenant with a name owns the
-- source, the environment is one of the three known ones, the source has a hash and it is the current
-- one, all three validators passed the candidate, and there is an approval by a named reviewer that
-- has not run out, for this proposal, source, tenant and environment and these policies.
pub pull_request-permit :
    (is_blank : String → Bool) (version : String) (o : Operation) (given : Given) (now : ℕ)
    → o.action ≡ "openPR"
    → ((evaluate is_blank remediation version o given now).outcome ≡ permit)
      ↔ (IsTrusted o × IsChecked o × IsApproved is_blank version o given now)
unfolding context_of
pull_request-permit is_blank version o given now pr =
    let (to, from) = evaluate-permit is_blank remediation version o given now in
    let trust = is_trusted-IsTrusted o in
    let (counts, counted) = approved_in-IsApproved is_blank version o given now in
    (
      λ h.
          let (approved, e, allows) = to h in
          let (t, v, r, s, a) = (open_pr_allowed (context_of o approved)).0 (rw pr at allows) in
          ((trust approved).0 t, (v, r, s), counts (rw (← a) e)),
      λ (t, (v, r, s), e). from (
        true,
        counted e,
        rw pr ((open_pr_allowed (context_of o true)).1 ((trust true).1 t, v, r, s, refl)),
      ),
    )

-- A pull request that has no approval waits for a person exactly if an approval is all that it
-- lacks.
pub pull_request_waits :
    (is_blank : String → Bool) (version : String) (o : Operation) (now : ℕ)
    → o.action ≡ "openPR"
    → ((evaluate is_blank remediation version o no_approval now).outcome ≡ needs_human_approval)
      ↔ (IsTrusted o × IsChecked o)
unfolding evaluate is_reviewable context_of
pull_request_waits is_blank version o now pr =
    let refused : remediation o.action (context_of o false) ≡ replied false false =
      subst (λ a. remediation a (context_of o false) ≡ replied false false) (sym pr)
        (open_pr_refused (context_of o false) refl) in
    let same = (eq_iff o.action "openPR").1 pr in
    let (trusts, trusted) = is_trusted-IsTrusted o false in
    elim (Bool-cases (is_reviewable o false)) [
      | inl waiting ↦
          let answer =
            decide-reviewed remediation version o false _ refused
              (review_allowed (context_of o false)) waiting in
          (
            λ h. (trusts (ground arith), (ground arith, ground arith, ground arith)),
            λ (t, checked). let holds = trusted t in ground arith,
          )
      | inr plain ↦
          let answer = decide-refused remediation version o false refused plain in
          (
            λ h. (trusts (ground arith), (ground arith, ground arith, ground arith)),
            λ (t, checked). let holds = trusted t in ground arith,
          )
    ]

decide-mutation :
    (version : String) (o : Operation) (approved : Bool)
    → one_of o.action ("directCommit" ∷ "merge" ∷ "deploy" ∷ []) ≡ true
    → (decide remediation version o approved).outcome ≡ deny
unfolding is_reviewable
decide-mutation version o approved direct = elim (Bool-cases (str_eq o.action "openPR")) [
  | inl pr ↦ absurd (
      unfold one_of in
      ground (
        arith,
        subst (λ a. one_of a ("directCommit" ∷ "merge" ∷ "deploy" ∷ []) ≡ true)
            ((eq_iff o.action "openPR").0 pr) direct,
      ))
  | inr other ↦
      decide-refused remediation version o approved
        (mutation_refused o.action (context_of o approved) direct) (rw other)
]

-- Committing, merging and deploying directly is denied, whoever asks with whatever approval.
pub mutation-deny :
    (is_blank : String → Bool) (version : String) (o : Operation) (given : Given) (now : ℕ)
    → one_of o.action ("directCommit" ∷ "merge" ∷ "deploy" ∷ []) ≡ true
    → (evaluate is_blank remediation version o given now).outcome ≡ deny
unfolding evaluate
mutation-deny is_blank version o malformed now direct = refl
mutation-deny is_blank version o no_approval now direct = decide-mutation version o false direct
mutation-deny is_blank version o (approval a) now direct =
    decide-mutation version o (is_approved is_blank version o a now) direct
