-- ===== src/Routing.antt =====
-- The difficulty router of agent/reasoning/routing.py. The score of a unit is a signed sum of
-- features; the list of features that `to_dict` shows is not modelled, their sum is. A group carries
-- the flag of its playbook; an unknown severity, category or intent has the code's default weight.
pub mod Group
pub mod Question
mod Tests
use aws_foundations.Base.{
  ℕ, suc, ◌+◌, ◌-◌, ◌*◌, ◌/◌, min, Bool, true, false, not, ◌&&◌, ◌||◌, List, [], ◌∷◌, Option, none,
  some, String, ltb, leb, length, any, all, one_of, str_eq, map, if◌then◌else◌,
}
use aws_foundations.Base.Int.{ℤ, pos, negsuc, sub_ℕ, ◌+ℤ◌, leb_ℤ}

pub data Tier : Type 0 where
  deterministic small large : Tier

-- `TIER_RANK`
unfoldable pub rank : Tier → ℕ
rank deterministic = 0
rank small = 1
rank large = 2

unfoldable pub weight_in : String → List (String × ℕ) → ℕ → ℕ
weight_in key [] default = default
weight_in key ((k, n) ∷ rest) default = if str_eq k key then n else weight_in key rest default

abbrev pub severity_weight : List (String × ℕ)
severity_weight = ("critical", 3) ∷ ("high", 2) ∷ ("medium", 1) ∷ ("low", 0) ∷ ("info", 0) ∷ []

abbrev pub category_weight : List (String × ℕ)
category_weight =
    ("iam_wildcard", 3)
    ∷ ("secret", 2)
    ∷ ("missing_auth", 2)
    ∷ ("unsafe_command_execution", 2)
    ∷ ("missing_input_validation", 1)
    ∷ ("missing_environment_variable", 0)
    ∷ []

abbrev pub small_max_score : ℤ
small_max_score = pos 5

abbrev pub deterministic_max_score : ℤ
deterministic_max_score = pos 1

abbrev intent_weight : List (String × ℕ)
intent_weight =
    ("explain_finding", 0)
    ∷ ("why_risky", 1)
    ∷ ("how_to_fix", 1)
    ∷ ("concept", 1)
    ∷ ("general", 2)
    ∷ ("scan_overview", 2)
    ∷ ("prioritize", 2)
    ∷ ("compare", 4)
    ∷ ("false_positive_challenge", 6)
    ∷ []

pub record Route : Type 0 where
  pub tier : Tier
  pub score : ℤ
  pub forced : Option String
  pub escalated_from : Option Tier
  pub escalation_reason : Option String

abbrev pub route : Tier → ℤ → Option String → Route
route tier score forced = record {
  tier = tier;
  score = score;
  forced = forced;
  escalated_from = none;
  escalation_reason = none;
}

-- What the router reads of a `Group`.
pub record EvidenceUnit : Type 0 where
  pub severity : String
  pub category : String
  pub decision : String
  pub flags : List String
  pub count : ℕ
  pub evidence_class : String
  pub deterministic_ok : Bool

-- `_tier`
unfoldable pub tier_of : ℤ → Bool → Tier
tier_of score deterministic_ok =
    if deterministic_ok && leb_ℤ score deterministic_max_score
    then deterministic
    else if leb_ℤ score small_max_score
    then small
    else large

-- `int(b)`
abbrev pub bit : Bool → ℕ
bit true = 1
bit false = 0

abbrev pub has_flag : String → EvidenceUnit → Bool
has_flag flag group = one_of flag group.flags

abbrev pub is_denied : EvidenceUnit → Bool
is_denied group = str_eq group.decision "deny"

-- the features that raise the score
unfoldable pub group_weight : EvidenceUnit → ℕ
group_weight group =
    weight_in group.severity severity_weight 1
    + weight_in group.category category_weight 2
    + bit (not (str_eq group.decision "permit"))
    + bit (has_flag "compound_risk" group)
    + 2 * bit (has_flag "production" group)
    + bit (has_flag "batch_summary" group)
    + (bit (ltb 1 group.count) + bit (ltb 10 group.count))
    + 2 * bit (has_flag "suppressed_checks" group)
    + bit (has_flag "mixed_evidence" group)
    + bit (has_flag "truncated" group)

-- less the feature `deterministic_fact`
unfoldable pub group_score : EvidenceUnit → ℤ
group_score group =
    sub_ℕ (group_weight group) (bit (str_eq group.evidence_class "deterministic_fact"))

unfoldable pub clean_flags : EvidenceUnit → Bool
clean_flags group = not (
    has_flag "untrusted_text" group
    || has_flag "suppressed_checks" group
    || has_flag "truncated" group)

unfoldable pub route_group : EvidenceUnit → Route
route_group group =
    let score = group_score group in
    if is_denied group
    then route deterministic score (some "policy_denied")
    else if has_flag "untrusted_text" group
    then route large score (some "untrusted_text")
    else route (tier_of score (group.deterministic_ok && clean_flags group)) score none

-- the members of a set, or the keys of a dictionary, that is built from a list
unfoldable pub distinct : List String → List String
distinct [] = []
distinct (s ∷ t) = let rest = distinct t in if one_of s rest then rest else s ∷ rest

abbrev pub is_deterministic : Route → Bool
is_deterministic r = elim r.tier [ deterministic ↦ true | _ ↦ false ]

-- What the router reads of an `EvidencePacket`.
pub record Packet : Type 0 where
  pub groups : List EvidenceUnit
  pub is_complete : Bool

unfoldable pub model_routed : List Route → ℕ
model_routed [] = 0
model_routed (r ∷ rs) = bit (not (is_deterministic r)) + model_routed rs

unfoldable pub some_flagged : String → Packet → Bool
some_flagged flag packet = any (has_flag flag) packet.groups

unfoldable pub synthesis_score : Packet → List Route → ℕ
synthesis_score packet routes =
    min (length packet.groups) 6
    + length (distinct (map (λ g. g.category) packet.groups))
    + model_routed routes
    + 2 * bit (some_flagged "compound_risk" packet)
    + 2 * bit (some_flagged "production" packet)
    + 3 * bit (not packet.is_complete)

unfoldable pub is_simple : Packet → List Route → Bool
is_simple packet routes =
    all is_deterministic routes
    && not (
        some_flagged "compound_risk" packet
        || some_flagged "production" packet
        || not packet.is_complete)

-- `routes` are the values of the dictionary of routes
unfoldable pub route_synthesis : Packet → List Route → Option Route
route_synthesis packet routes =
    let score = pos (synthesis_score packet routes) in
    if ltb (length packet.groups) 2
    then none
    else if all is_denied packet.groups
    then some (route deterministic score (some "policy_denied"))
    else some (route (if is_simple packet routes then deterministic else large) score none)

-- `n // 2`, which rounds down
unfoldable pub half : ℤ → ℤ
half (pos n) = pos (n / 2)
half (negsuc n) = negsuc (n / 2)

abbrev max_ℤ : ℤ → ℤ → ℤ
max_ℤ a b = if leb_ℤ a b then b else a

-- `max(scores, default=0)`
unfoldable pub hardest : List EvidenceUnit → ℤ
hardest [] = pos 0
hardest (g ∷ []) = (route_group g).score
hardest (g ∷ h ∷ t) = max_ℤ (route_group g).score (hardest (h ∷ t))

unfoldable pub intents_weight : List String → ℕ
intents_weight [] = 0
intents_weight (i ∷ is) = weight_in i intent_weight 2 + intents_weight is

-- `min(len(groups), 3) - 1 if groups else 0`
unfoldable pub groups_referenced : List EvidenceUnit → ℕ
groups_referenced groups = min (length groups) 3 - 1

-- `difficulty or ""`, as a text
unfoldable pub model_difficulty : String → ℕ
model_difficulty difficulty = weight_in difficulty (("high", 4) ∷ ("medium", 1) ∷ []) 0

unfoldable pub question_score : List String → List EvidenceUnit → String → ℤ
question_score intents groups difficulty =
    pos (
      intents_weight (distinct intents)
      + bit (ltb 1 (length intents))
      + groups_referenced groups
      + model_difficulty difficulty)
    +ℤ half (hardest groups)

unfoldable pub route_question : List String → List EvidenceUnit → String → Route
route_question intents groups difficulty =
    let score = question_score intents groups difficulty in
    route (if leb_ℤ score small_max_score then small else large) score none

-- `route.escalation_reason or reason`
unfoldable pub or_text : Option String → String → String
or_text none reason = reason
or_text (some s) reason = if str_eq s "" then reason else s

unfoldable pub escalate : Route → String → Route
escalate r reason = elim r.tier [
  | large ↦ record r { escalation_reason = some (or_text r.escalation_reason reason) }
  | small ↦ record r { tier = large; escalated_from = some small; escalation_reason = some reason }
  | deterministic ↦ record r {
    tier = small;
    escalated_from = some deterministic;
    escalation_reason = some reason;
  }
]
