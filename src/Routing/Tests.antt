-- ===== src/Routing/Tests.antt =====
-- Routes of concrete groups and questions.
use aws_foundations.Base.{
  ◌+◌, ◌<◌, ◌≡◌, ◌≢◌, ◌↔◌, ◌⊎◌, refl, true, false, List, [], ◌∷◌, none, some, length, all, any,
  one_of, str_eq, eq_iff,
}
use aws_foundations.Base.Int.{pos, ◌≤ℤ◌}
use aws_foundations.Routing.{
  deterministic, small, large, rank, Route, route, EvidenceUnit, is_denied, group_score,
  group_weight, route_group, tier_of, clean_flags, weight_in, Packet, is_deterministic,
  some_flagged, route_synthesis, route_question, escalate,
}
use aws_foundations.Routing.Group.{
  IsMild, route_group-IsMild, route_group-untrusted, escalate-rank, route_synthesis-tier,
}
use aws_foundations.Routing.Question.{route_question-tier}

routing : Unit {0}
unfolding route_group tier_of clean_flags group_score group_weight weight_in one_of any
routing = tt

abbrev hostile : EvidenceUnit
hostile = record {
  severity = "low";
  category = "secret";
  decision = "permit";
  flags = "untrusted_text" ∷ [];
  count = 1;
  evidence_class = "deterministic_fact";
  deterministic_ok = true;
}

abbrev harmless : EvidenceUnit
harmless = record hostile { flags = [] }

harmless_is_explained_without_a_model : (route_group harmless).tier ≡ deterministic
unfolding routing
harmless_is_explained_without_a_model = refl

permit_is_not_deny : harmless.decision ≢ "deny"
permit_is_not_deny same =
    let e : str_eq "permit" "deny" ≡ true = (eq_iff "permit" "deny").1 same in cc

abbrev both : Packet
both = record { groups = hostile ∷ harmless ∷ []; is_complete = true }

abbrev routes : List Route
routes = route large (pos 1) none ∷ route deterministic (pos 1) none ∷ []

route_group-IsMild_example : IsMild harmless
route_group-IsMild_example =
    route_group-IsMild harmless harmless_is_explained_without_a_model permit_is_not_deny

route_group-untrusted_example : (route_group hostile).tier ≡ large
route_group-untrusted_example = route_group-untrusted hostile (unfold routing in refl)

escalate-rank_example :
    let r = route small (pos 3) none in
    let r' = escalate r "ambiguous" in
    ((rank r'.tier ≡ rank r.tier + 1)
        × (r'.escalated_from ≡ some r.tier)
        × (r'.escalation_reason ≡ some "ambiguous")
      ⊎ (r.tier ≡ large) × (r'.tier ≡ large) × (r'.escalated_from ≡ r.escalated_from))
    × (r'.score ≡ r.score)
    × (r'.forced ≡ r.forced)
escalate-rank_example = escalate-rank (route small (pos 3) none) "ambiguous"

route_synthesis-tier_example :
    ((route_synthesis both routes ≡ none) ↔ (length both.groups < 2))
    × ((r : Route)
        → route_synthesis both routes ≡ some r
        → ((r.tier ≡ deterministic) ↔ (
            (all is_denied both.groups ≡ true)
            ⊎ ((all is_deterministic routes ≡ true)
                × (some_flagged "compound_risk" both ≡ false)
                × (some_flagged "production" both ≡ false)
                × (both.is_complete ≡ true))))
          × ((r.tier ≡ deterministic) ⊎ (r.tier ≡ large)))
route_synthesis-tier_example = route_synthesis-tier both routes

route_question-tier_example :
    let r = route_question ("compare" ∷ "compare" ∷ []) (hostile ∷ []) "high" in
    (r.tier ≢ deterministic) × ((r.tier ≡ large) ↔ (pos 6 ≤ℤ r.score))
route_question-tier_example = route_question-tier ("compare" ∷ "compare" ∷ []) (hostile ∷ []) "high"
