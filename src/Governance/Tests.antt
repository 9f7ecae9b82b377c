-- ===== src/Governance/Tests.antt =====
-- Decisions at concrete operations.
use aws_foundations.Base.{◌<◌, ◌≡◌, ◌↔◌, refl, Bool, true, false, some, String, one_of, any, str_eq}
use aws_foundations.Governance.{
  Approval, Operation, no_approval, approval, permit, needs_human_approval, deny, replied, Engine,
  allowed, context_of, is_approved, evaluate, remediation,
}
use aws_foundations.Governance.Decisions.{
  approved_in, evaluate-permit, evaluate_fails_closed, matches_iff,
}
use aws_foundations.Governance.Policies.{
  IsTrusted, IsApproved, IsChecked, pull_request-permit, pull_request_waits, mutation-deny,
}

deciding : Unit {0}
unfolding allowed one_of any
deciding = tt

abbrev is_blank : String → Bool
is_blank s = str_eq s ""

abbrev pull_request : Operation
pull_request = record {
  action = "openPR";
  tenant = "acme";
  owner = "acme";
  environment = "staging";
  source_hash = "h";
  current_hash = "h";
  proposal_id = "p1";
  validated = true;
  runtime_validated = true;
  access_safe = true;
}

abbrev merge : Operation
merge = record pull_request { action = "merge" }

abbrev signed : Approval
signed = record {
  proposal_id = "p1";
  source_hash = "h";
  policy_version = "v1";
  tenant = "acme";
  environment = "staging";
  reviewer = "ada";
  expires_at = 100;
}

abbrev failing : Engine
failing action context = replied true true

evaluate-permit_example :
    ((evaluate is_blank remediation "v1" pull_request (approval signed) 50).outcome ≡ permit) ↔ (
      (approved : Bool) × (approved_in is_blank "v1" pull_request (approval signed) 50
        ≡ some approved)
      × (remediation "openPR" (context_of pull_request approved) ≡ replied false true))
evaluate-permit_example =
    evaluate-permit is_blank remediation "v1" pull_request (approval signed) 50

evaluate_fails_closed_example :
    (evaluate is_blank failing "v1" pull_request (approval signed) 50).outcome ≡ deny
evaluate_fails_closed_example =
    evaluate_fails_closed is_blank failing "v1" pull_request (approval signed) 50
      (λ c. unfold deciding in refl)

matches_iff_example : (is_approved is_blank "v1" pull_request signed 50 ≡ true) ↔ (
    (is_blank "ada" ≡ false)
    × (50 < 100)
    × (signed.proposal_id ≡ "p1")
    × (signed.source_hash ≡ "h")
    × (signed.policy_version ≡ "v1")
    × (signed.tenant ≡ "acme")
    × (signed.environment ≡ "staging"))
matches_iff_example = matches_iff is_blank "v1" pull_request signed 50

pull_request-permit_example :
    ((evaluate is_blank remediation "v1" pull_request (approval signed) 50).outcome ≡ permit) ↔ (
      IsTrusted pull_request
      × IsChecked pull_request
      × IsApproved is_blank "v1" pull_request (approval signed) 50)
pull_request-permit_example =
    pull_request-permit is_blank "v1" pull_request (approval signed) 50 refl

pull_request_waits_example :
    ((evaluate is_blank remediation "v1" pull_request no_approval 50).outcome
      ≡ needs_human_approval)
    ↔ (IsTrusted pull_request × IsChecked pull_request)
pull_request_waits_example = pull_request_waits is_blank "v1" pull_request 50 refl

mutation-deny_example :
    (evaluate is_blank remediation "v1" merge (approval signed) 50).outcome ≡ deny
mutation-deny_example =
    mutation-deny is_blank "v1" merge (approval signed) 50 (unfold deciding in refl)
