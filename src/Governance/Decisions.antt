-- ===== src/Governance/Decisions.antt =====
-- Decisions over any Cedar engine: nothing is permitted but by the engine, and errors deny.
use aws_foundations.Base.{
  ℕ, ◌<◌, ◌≡◌, ◌↔◌, refl, Bool, true, false, Option, none, some, String, raised, arith, subst,
  if◌then◌else◌, eq_iff,
}
use aws_foundations.Governance.{
  Approval, Operation, matches, Given, no_approval, malformed, approval, permit,
  needs_human_approval, deny, Context, replied, Engine, allowed, context_of, review_or_deny,
  is_reviewable, decide, is_approved, evaluate,
}

-- What `evaluate` takes for the fact that the operation is approved; nothing for a malformed record.
unfoldable pub approved_in : (String → Bool) → String → Operation → Given → ℕ → Option Bool
approved_in is_blank version o malformed now = none
approved_in is_blank version o no_approval now = some false
approved_in is_blank version o (approval a) now = some (is_approved is_blank version o a now)

decide-permit :
    (engine : Engine) (version : String) (o : Operation) (approved : Bool)
    → ((decide engine version o approved).outcome ≡ permit)
      ↔ (engine o.action (context_of o approved) ≡ replied false true)
unfolding decide allowed review_or_deny
decide-permit engine version o approved = (λ h. ground arith, λ h. ground arith)

same_flag : (a b : Bool) → ◌≡◌ {A = Option Bool} (some a) (some b) → b ≡ a
same_flag a b h = cc

decide-permit_for :
    (engine : Engine) (version : String) (o : Operation) (a : Bool)
    → ((decide engine version o a).outcome ≡ permit) ↔ (
        (approved : Bool) × (some a ≡ some approved)
        × (engine o.action (context_of o approved) ≡ replied false true))
decide-permit_for engine version o a = (
  λ h. (a, refl, (decide-permit engine version o a).0 h),
  λ (approved, same, allows). (decide-permit engine version o a).1 (
      subst (λ b. engine o.action (context_of o b) ≡ replied false true) (same_flag a approved same)
        allows),
)

-- An operation is permitted exactly if the approval is no malformed record and the engine, without
-- an error, allows that very action in the context of the facts.
pub evaluate-permit :
    (is_blank : String → Bool) (engine : Engine) (version : String) (o : Operation) (given : Given)
    (now : ℕ)
    → ((evaluate is_blank engine version o given now).outcome ≡ permit) ↔ (
        (approved : Bool) × (approved_in is_blank version o given now ≡ some approved)
        × (engine o.action (context_of o approved) ≡ replied false true))
unfolding evaluate approved_in
evaluate-permit is_blank engine version o malformed now =
    (λ h. absurd (ground arith), λ (a, e, _). absurd (ground arith))
evaluate-permit is_blank engine version o no_approval now = decide-permit_for engine version o false
evaluate-permit is_blank engine version o (approval a) now =
    decide-permit_for engine version o (is_approved is_blank version o a now)

decide-error :
    (engine : Engine) (version : String) (o : Operation) (approved : Bool)
    → allowed (engine o.action (context_of o approved)) ≡ raised tt
    → (decide engine version o approved).outcome ≡ deny
unfolding decide
decide-error engine version o approved h = rw (h, decide)

-- A policy or engine that fails on the action denies, whatever the approval is.
pub evaluate_fails_closed :
    (is_blank : String → Bool) (engine : Engine) (version : String) (o : Operation) (given : Given)
    (now : ℕ)
    → ((c : Context) → allowed (engine o.action c) ≡ raised tt)
    → (evaluate is_blank engine version o given now).outcome ≡ deny
unfolding evaluate
evaluate_fails_closed is_blank engine version o malformed now fails = refl
evaluate_fails_closed is_blank engine version o no_approval now fails =
    decide-error engine version o false (fails (context_of o false))
evaluate_fails_closed is_blank engine version o (approval a) now fails =
    let approved = is_approved is_blank version o a now in
    decide-error engine version o approved (fails (context_of o approved))

-- An approval counts exactly if it names a reviewer, has not run out, and is for this proposal, this
-- source, these policies, this tenant and this environment.
pub matches_iff :
    (is_blank : String → Bool) (version : String) (o : Operation) (a : Approval) (now : ℕ)
    → (is_approved is_blank version o a now ≡ true) ↔ (
        (is_blank a.reviewer ≡ false)
        × (now < a.expires_at)
        × (a.proposal_id ≡ o.proposal_id)
        × (a.source_hash ≡ o.source_hash)
        × (a.policy_version ≡ version)
        × (a.tenant ≡ o.tenant)
        × (a.environment ≡ o.environment))
unfolding is_approved matches
matches_iff is_blank version o a now = (
  λ h. ground (
    arith,
    eq_iff a.proposal_id o.proposal_id,
    eq_iff a.source_hash o.source_hash,
    eq_iff a.policy_version version,
    eq_iff a.tenant o.tenant,
    eq_iff a.environment o.environment,
  ),
  λ h. ground (
    arith,
    eq_iff a.proposal_id o.proposal_id,
    eq_iff a.source_hash o.source_hash,
    eq_iff a.policy_version version,
    eq_iff a.tenant o.tenant,
    eq_iff a.environment o.environment,
  ),
)

pub decide-refused :
    (engine : Engine) (version : String) (o : Operation) (approved : Bool)
    → engine o.action (context_of o approved) ≡ replied false false
    → is_reviewable o approved ≡ false
    → (decide engine version o approved).outcome ≡ deny
unfolding decide allowed
decide-refused engine version o approved refused plain = ground arith

pub decide-reviewed :
    (engine : Engine) (version : String) (o : Operation) (approved review : Bool)
    → engine o.action (context_of o approved) ≡ replied false false
    → engine "review" (context_of o approved) ≡ replied false review
    → is_reviewable o approved ≡ true
    → (decide engine version o approved).outcome ≡ (if review then needs_human_approval else deny)
unfolding decide allowed review_or_deny
decide-reviewed engine version o approved review refused answer waiting = ground arith
