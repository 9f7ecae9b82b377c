-- ===== src/Routing/Group.antt =====
-- Where a group of findings, and the summary of a scan, are sent.
use aws_foundations.Base.{
  ◌+◌, ◌≤◌, ◌<◌, ◌≡◌, ◌≢◌, ◌↔◌, ◌⊎◌, inl, inr, refl, Bool-cases, true, false, List, none, some,
  String, arith, length, all, str_eq, eq_iff, if◌then◌else◌,
}
use aws_foundations.Base.Int.{leb_ℤ}
use aws_foundations.Routing.{
  weight_in, severity_weight, category_weight, group_weight, bit, deterministic, large, rank, Route,
  EvidenceUnit, deterministic_max_score, tier_of, has_flag, is_denied, group_score, clean_flags,
  route_group, Packet, is_deterministic, is_simple, some_flagged, route_synthesis, escalate,
}

-- The branches of `route_group` that go without a model.
route_group-deterministic :
    (group : EvidenceUnit)
    → ((route_group group).tier ≡ deterministic) ↔ (
        (is_denied group ≡ true)
        ⊎ ((group.deterministic_ok ≡ true)
            × (has_flag "untrusted_text" group ≡ false)
            × (has_flag "suppressed_checks" group ≡ false)
            × (has_flag "truncated" group ≡ false)
            × (leb_ℤ (group_score group) deterministic_max_score ≡ true)))
unfolding route_group tier_of clean_flags
route_group-deterministic group = (λ h. ground arith, λ h. ground arith)

-- The severities and categories that settle a bound on the score.
severity_weight_lem :
    (s : String)
    → let n = weight_in s severity_weight 1 in
      (s ≡ "critical" → n ≡ 3) × (s ≡ "high" → n ≡ 2) × (n ≡ 0 → (s ≡ "low") ⊎ (s ≡ "info"))
unfolding weight_in
severity_weight_lem s =
    (λ h. rw h refl, λ h. rw h refl, λ h. ground (arith, eq_iff "low" s, eq_iff "info" s))

category_weight_lem :
    (s : String)
    → let n = weight_in s category_weight 2 in
      (s ≡ "iam_wildcard" → n ≡ 3)
      × (s ≡ "secret" → n ≡ 2)
      × (n ≡ 0 → s ≡ "missing_environment_variable")
unfolding weight_in
category_weight_lem s =
    (λ h. rw h refl, λ h. rw h refl, λ h. ground (arith, eq_iff "missing_environment_variable" s))

group_weight-le :
    (group : EvidenceUnit)
    → leb_ℤ (group_score group) deterministic_max_score ≡ true
    → group_weight group ≤ 1 + bit (str_eq group.evidence_class "deterministic_fact")
unfolding group_score
group_weight-le group h = ground arith

-- What a group is that may be explained without a model though the policy did not deny it.
pub record IsMild (group : EvidenceUnit) : Type 0 where
  pub playbook : group.deterministic_ok ≡ true
  pub trusted : has_flag "untrusted_text" group ≡ false
  pub checked : has_flag "suppressed_checks" group ≡ false
  pub whole : has_flag "truncated" group ≡ false
  pub severity : group.severity ≢ "critical"
  pub category : group.category ≢ "iam_wildcard"
  pub inferred :
      (group.evidence_class ≡ "deterministic_fact")
      ⊎ (group.severity ≢ "high")
        × (group.category ≢ "secret")
        × (has_flag "production" group ≡ false)
        × (group.count ≤ 10)
  pub production :
      (has_flag "production" group ≡ false)
      ⊎ (group.evidence_class ≡ "deterministic_fact")
        × ((group.severity ≡ "low") ⊎ (group.severity ≡ "info"))
        × (group.category ≡ "missing_environment_variable")
        × (group.decision ≡ "permit")
        × (has_flag "compound_risk" group ≡ false)
        × (group.count ≤ 1)

score-IsMild :
    (group : EvidenceUnit)
    → group.deterministic_ok ≡ true
    → has_flag "untrusted_text" group ≡ false
    → has_flag "suppressed_checks" group ≡ false
    → has_flag "truncated" group ≡ false
    → group_weight group ≤ 1 + bit (str_eq group.evidence_class "deterministic_fact")
    → IsMild group
unfolding group_weight
score-IsMild group playbook trusted checked whole light =
    let (critical, high, mild) = severity_weight_lem group.severity in
    let (wildcard, secret, missing) = category_weight_lem group.category in
    let fact = eq_iff group.evidence_class "deterministic_fact" in
    let permit = eq_iff group.decision "permit" in
    record {
      playbook = playbook;
      trusted = trusted;
      checked = checked;
      whole = whole;
      severity = λ e. let n = critical e in ground arith;
      category = λ e. let n = wildcard e in ground arith;
      inferred = elim (Bool-cases (str_eq group.evidence_class "deterministic_fact")) [
        | inl exact ↦ inl (fact.0 exact)
        | inr guess ↦ inr (
          λ e. let n = high e in ground arith,
          λ e. let n = secret e in ground arith,
          ground arith,
          ground arith,
        )
      ];
      production = elim (Bool-cases (has_flag "production" group)) [
        | inr away ↦ inl away
        | inl there ↦ inr (
          fact.0 (ground arith),
          mild (ground arith),
          missing (ground arith),
          permit.0 (ground arith),
          ground arith,
          ground arith,
        )
      ];
    }

-- A group that the policy did not deny is explained without a model only if its playbook allows that,
-- none of the three flags that call for a model is set, and it is neither critical nor an IAM
-- wildcard. Unless its evidence is a deterministic fact, it is besides not of high severity, not a
-- secret, not in production and at no more than 10 places; and one in production is of low or info
-- severity, about a missing environment variable, permitted, not compound, and at one place at most.
pub route_group-IsMild :
    (group : EvidenceUnit)
    → (route_group group).tier ≡ deterministic
    → group.decision ≢ "deny"
    → IsMild group
route_group-IsMild group chosen allowed = elim ((route_group-deterministic group).0 chosen) [
  | inl denied ↦ absurd (allowed ((eq_iff group.decision "deny").0 denied))
  | inr (playbook, trusted, checked, whole, light) ↦
      score-IsMild group playbook trusted checked whole (group_weight-le group light)
]

-- Text of the repository that looks like instructions goes to the large model, whatever its score,
-- unless the policy denied the group: then it goes to none.
pub route_group-untrusted :
    (group : EvidenceUnit)
    → has_flag "untrusted_text" group ≡ true
    → (route_group group).tier ≡ (if is_denied group then deterministic else large)
unfolding route_group
route_group-untrusted group h = ground arith

-- What a request to move up does: it never moves a route down, it moves it up by exactly one tier if
-- there is one, records the tier that it came from, and keeps the score and a forced route.
pub escalate-rank :
    (r : Route) (reason : String)
    → let r' = escalate r reason in
      ((rank r'.tier ≡ rank r.tier + 1)
          × (r'.escalated_from ≡ some r.tier)
          × (r'.escalation_reason ≡ some reason)
        ⊎ (r.tier ≡ large) × (r'.tier ≡ large) × (r'.escalated_from ≡ r.escalated_from))
      × (r'.score ≡ r.score)
      × (r'.forced ≡ r.forced)
unfolding escalate rank
escalate-rank r reason = ground arith

-- There is no summary of fewer than two groups. A summary is written without a model exactly if every
-- group is denied, or every group was explained without one, nothing is compound or in production,
-- and the scan is complete; otherwise it is for the large model.
pub route_synthesis-tier :
    (packet : Packet) (routes : List Route)
    → ((route_synthesis packet routes ≡ none) ↔ (length packet.groups < 2))
      × ((r : Route)
          → route_synthesis packet routes ≡ some r
          → ((r.tier ≡ deterministic) ↔ (
              (all is_denied packet.groups ≡ true)
              ⊎ ((all is_deterministic routes ≡ true)
                  × (some_flagged "compound_risk" packet ≡ false)
                  × (some_flagged "production" packet ≡ false)
                  × (packet.is_complete ≡ true))))
            × ((r.tier ≡ deterministic) ⊎ (r.tier ≡ large)))
unfolding route_synthesis is_simple
route_synthesis-tier packet routes = (
  (λ h. ground arith, λ h. ground arith),
  λ r h. ((λ d. ground arith, λ d. ground arith), ground arith),
)
