-- ===== src/Triage/Decisions.antt =====
-- Every finding gets its decision, or the triage is an error.
use aws_foundations.Base.{◌≡◌, false, List, [], ◌∷◌, String, any}
use aws_foundations.Triage.{Facts, Decision, Triage}

-- `[d["finding_id"] for d in decisions]`
abbrev pub decided : List Decision → List String
decided [] = []
decided (d ∷ ds) = d.finding_id ∷ decided ds

abbrev pub ids : List Facts → List String
ids [] = []
ids (f ∷ fs) = f.id ∷ ids fs

-- What is said of an evaluated triage.
abbrev pub IsComplete : List Facts → Triage → Type 0
IsComplete fs t =
    (decided t.decisions ≡ ids fs) × (any (λ d. d.evaluation_error) t.decisions ≡ false)
