-- ===== src/Routing/Question.antt =====
-- Where a question goes.
use aws_foundations.Base.{◌≡◌, ◌≢◌, ◌↔◌, List, String, arith}
use aws_foundations.Base.Int.{pos, ◌≤ℤ◌}
use aws_foundations.Routing.{deterministic, large, EvidenceUnit, route_question}

-- A question always goes to a model, and to the large one exactly if its score is above 5.
pub route_question-tier :
    (intents : List String) (groups : List EvidenceUnit) (difficulty : String)
    → let r = route_question intents groups difficulty in
      (r.tier ≢ deterministic) × ((r.tier ≡ large) ↔ (pos 6 ≤ℤ r.score))
unfolding route_question
route_question-tier intents groups difficulty =
    (λ h. ground arith, (λ h. ground arith, λ h. ground arith))
