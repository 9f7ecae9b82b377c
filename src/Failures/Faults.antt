-- ===== src/Failures/Faults.antt =====
-- The fault injection of agent/orchestration/faults.py.
pub mod Attempts
use aws_foundations.Base.{
  ℕ, zero, suc, ◌+◌, ◌-◌, ◌==◌, Bool, true, false, not, ◌&&◌, ◌||◌, List, [], ◌∷◌, ◌++◌, Option,
  none, some, String, Result, ok, raised, ◌>>=◌, ◌>>◌, raise_if, ltb, leb, length, all, any, one_of,
  codes, text_eq, str_eq, if◌then◌else◌,
}
use aws_foundations.Failures.{
  StepError, step_error, detector_defect, detector_timeout, tool_unavailable, transient_step_error,
  between,
}

-- `KINDS`
pub data FaultKind : Type 0 where
  crash defect timeout unavailable transient transient_after_write : FaultKind

pub record Fault : Type 0 where
  pub step : List ℕ
  pub kind : FaultKind
  pub times : ℕ

-- `Fault.active`
unfoldable pub active : Fault → ℕ → Bool
active fault attempt = elim fault.kind [
  | transient ↦ ltb attempt fault.times
  | transient_after_write ↦ ltb attempt fault.times
  | _ ↦ true
]

-- `FaultPlan(faults)`: of two faults of one step the later one counts.
unfoldable pub fault_of : List ℕ → List Fault → Option Fault
fault_of step [] = none
fault_of step (f ∷ fs) = elim (fault_of step fs) [
  | some later ↦ some later
  | none ↦ if text_eq f.step step then some f else none
]

-- What a call may raise: a step error, or a crash that nobody classified.
pub data Injected : Type 0 where
  injected_crash : Injected
  injected : StepError → Injected

abbrev Outcome : Type 0
Outcome = Result Injected (Unit {0})

unfoldable pub raise_kind : FaultKind → Outcome
raise_kind crash = raised injected_crash
raise_kind defect = raised (injected (step_error detector_defect "injected_defect"))
raise_kind timeout = raised (injected (step_error detector_timeout "timeout"))
raise_kind unavailable = raised (injected (step_error tool_unavailable "tool_unavailable"))
raise_kind transient = raised (injected (step_error transient_step_error "injected_transient"))
raise_kind transient_after_write = ok tt

-- `before`, of the fault that the plan has for the step
unfoldable pub before_fault : Option Fault → ℕ → Outcome
before_fault none attempt = ok tt
before_fault (some f) attempt = elim f.kind [
  | transient_after_write ↦ ok tt
  | kind ↦ if active f attempt then raise_kind kind else ok tt
]

unfoldable pub before : List Fault → List ℕ → ℕ → Outcome
before plan step attempt = before_fault (fault_of step plan) attempt

unfoldable pub after_fault : Option Fault → ℕ → Outcome
after_fault none attempt = ok tt
after_fault (some f) attempt = elim f.kind [
  | transient_after_write ↦
      if active f attempt
      then raised (injected (step_error transient_step_error "injected_transient_after_write"))
      else ok tt
  | _ ↦ ok tt
]

-- `after_write`
unfoldable pub after_write : List Fault → List ℕ → ℕ → Outcome
after_write plan step attempt = after_fault (fault_of step plan) attempt

-- the text before the first `c`, and the text behind it
unfoldable pub split_at : ℕ → List ℕ → Option (List ℕ × List ℕ)
split_at c [] = none
split_at c (d ∷ t) =
    let rest = split_at c t in
    if d == c then some ([], t) else elim rest [ none ↦ none | some (a, b) ↦ some (d ∷ a, b) ]

-- `[a-z][a-z0-9-]{0,39}`
unfoldable pub is_step_name : List ℕ → Bool
is_step_name [] = false
is_step_name (c ∷ t) =
    between b'a' b'z' c
    && all (λ d. between b'a' b'z' d || between b'0' b'9' d || d == b'-') t
    && leb (length t) 39

-- `match["kind"] in KINDS`
unfoldable pub kind_named : List ℕ → Option FaultKind
kind_named t =
    if text_eq t (codes "crash")
    then some crash
    else if text_eq t (codes "defect")
    then some defect
    else if text_eq t (codes "timeout")
    then some timeout
    else if text_eq t (codes "unavailable")
    then some unavailable
    else if text_eq t (codes "transient")
    then some transient
    else if text_eq t (codes "transient_after_write")
    then some transient_after_write
    else none

-- the group `times`: one digit from 1 to 9
unfoldable pub times_named : List ℕ → Option ℕ
times_named (c ∷ []) = if between b'1' b'9' c then some (c - b'0') else none
times_named _ = none

abbrev invalid : Result String Fault
invalid = raised "invalid fault specification"

unfoldable pub known_fault :
    List (List ℕ) → List ℕ → Option FaultKind → Option ℕ → Result String Fault
known_fault known step (some kind) (some times) =
    if is_step_name step && any (λ s. text_eq s step) known
    then ok (record { step = step; kind = kind; times = times })
    else invalid
known_fault known step _ _ = invalid

unfoldable pub parse_kind :
    List (List ℕ) → List ℕ → List ℕ → Option (List ℕ × List ℕ) → Result String Fault
parse_kind known step rest none = known_fault known step (kind_named rest) (some 1)
parse_kind known step rest (some (kind, times)) =
    known_fault known step (kind_named kind) (times_named times)

unfoldable pub parse_spec : List (List ℕ) → Option (List ℕ × List ℕ) → Result String Fault
parse_spec known none = invalid
parse_spec known (some (step, rest)) = parse_kind known step rest (split_at b':' rest)

-- `FaultPlan.parse`; `strip` is Python's `str.strip`
unfoldable pub parse :
    (List ℕ → List ℕ) → List (List ℕ) → List (List ℕ) → Result String (List Fault)
parse strip known [] = ok []
parse strip known (spec ∷ specs) = do
  fault ← parse_spec known (split_at b'=' (strip spec))
  faults ← parse strip known specs
  ok (fault ∷ faults)
