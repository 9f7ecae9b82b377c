-- ===== src/Budget/Circuit.antt =====
-- The circuit breaker: it opens in time, and it never closes again.
use aws_foundations.Base.{
  ℕ, ◌+◌, ◌≤◌, ◌<◌, ◌≡◌, refl, true, List, [], ◌∷◌, String, none, is_some, arith, ok, raised,
  Option-cases, inl, inr, ◌⊎◌, length, ap,
}
use aws_foundations.Budget.{
  Budget, Ledger, new_ledger, reserve, reserve_locked, local_basis, over, release, record_response,
  record_failure, trip, note, make_budget,
}
use aws_foundations.Budget.Bounds.{Call, failure_call, reserve_call, after, run}

abbrev pub IsOpen : Ledger → Type 0
IsOpen l = is_some l.circuit ≡ true

after-IsOpen :
    (c : Call) (l : Ledger) → IsOpen l → IsOpen (after c l) × ((after c l).calls ≡ l.calls)
unfolding after reserve reserve_locked local_basis release record_response record_failure trip note
after-IsOpen (reserve_call m i o p) l h = ground arith
after-IsOpen _ l h = ground arith

run_IsOpen :
    (cs : List Call) (l : Ledger) → IsOpen l → IsOpen (run cs l) × ((run cs l).calls ≡ l.calls)
unfolding run
run_IsOpen [] l h = (h, refl)
run_IsOpen (c ∷ cs) l h =
    let (opened, same) = after-IsOpen c l h in
    let (opened', same') = run_IsOpen cs (after c l) opened in (opened', rw (same', same))

reserve-IsOpen :
    (model provider : String) (i o : ℕ) (l : Ledger)
    → IsOpen l
    → (reason : String) × ((reserve model i o provider l).0 ≡ raised reason)
unfolding reserve reserve_locked local_basis
reserve-IsOpen model provider i o l h = elim (Option-cases l.circuit) [
  | inl closed ↦ absurd (ground arith)
  | inr (reason, opened) ↦ (reason, ground arith)
]

-- Once the circuit is open no call of any method closes it: no further model call is counted, and
-- every later reservation raises.
pub open_circuit_stops :
    (cs : List Call) (l : Ledger) (model provider : String) (i o : ℕ)
    → IsOpen l
    → ((run cs l).calls ≡ l.calls)
      × ((reason : String) × ((reserve model i o provider (run cs l)).0 ≡ raised reason))
open_circuit_stops cs l model provider i o h =
    let (opened, same) = run_IsOpen cs l h in
    (same, reserve-IsOpen model provider i o (run cs l) opened)

-- A closed circuit has seen fewer failures in a row than the threshold.
pub record IsArmed (b : Budget) (l : Ledger) : Type 0 where
  pub same : l.budget ≡ b
  pub below : l.circuit ≡ none → l.consecutive_failures < b.breaker_threshold

after-IsArmed :
    (b : Budget) (c : Call) (l : Ledger)
    → 0 < b.breaker_threshold
    → IsArmed b l
    → IsArmed b (after c l)
unfolding after reserve reserve_locked local_basis over release record_response record_failure trip
    note
after-IsArmed b (reserve_call m i o p) l positive h = ground (arith, h.below)
after-IsArmed b _ l positive h = ground (arith, h.below)

run-IsArmed :
    (b : Budget) (cs : List Call) (l : Ledger)
    → 0 < b.breaker_threshold
    → IsArmed b l
    → IsArmed b (run cs l)
unfolding run
run-IsArmed b [] l positive h = h
run-IsArmed b (c ∷ cs) l positive h =
    run-IsArmed b cs (after c l) positive (after-IsArmed b c l positive h)

-- With a budget that `make_budget` accepts, after any calls on a new ledger: while the circuit is
-- closed, fewer failures than the threshold have come in a row.
pub closed_circuit_below :
    (b b' : Budget) (cs : List Call)
    → make_budget b ≡ ok b'
    → (run cs (new_ledger b')).circuit ≡ none
    → (run cs (new_ledger b')).consecutive_failures < b.breaker_threshold
unfolding make_budget
closed_circuit_below b b' cs valid closed =
    let same : b ≡ b' = ground arith in
    let positive : 0 < b'.breaker_threshold = ground arith in
    rw same (
      (run-IsArmed b' cs (new_ledger b') positive
          (record { same = refl; below = λ _. positive })).below
        closed)

-- One failure opens the circuit or is one more in a row.
failure_counts :
    (kind : String) (n : ℕ) (l : Ledger)
    → let l' = record_failure kind n l in
      (l'.budget ≡ l.budget)
      × (IsOpen l'
          ⊎ ((l'.consecutive_failures ≡ l.consecutive_failures + 1)
              × (l'.consecutive_failures < l.budget.breaker_threshold)))
unfolding record_failure trip
failure_counts kind n l = ground arith

abbrev pub failed_calls : List (String × ℕ) → List Call
failed_calls [] = []
failed_calls ((kind, n) ∷ fs) = failure_call kind n ∷ failed_calls fs

-- From any state, as many failures in a row as the threshold still allows, of any kinds, leave
-- the circuit open.
pub breaker_trips :
    (fs : List (String × ℕ)) (l : Ledger)
    → 0 < length fs
    → l.budget.breaker_threshold ≤ l.consecutive_failures + length fs
    → IsOpen (run (failed_calls fs) l)
unfolding run after
breaker_trips [] l some_failure enough = absurd (omega arith)
breaker_trips ((kind, n) ∷ fs) l some_failure enough =
    let (same, counted) = failure_counts kind n l in
    elim counted [
      | inl opened ↦ (run_IsOpen (failed_calls fs) (record_failure kind n l) opened).0
      | inr (more, room) ↦
          breaker_trips fs (record_failure kind n l)
            (omega (arith, ap (λ (x : Budget). x.breaker_threshold) same))
            (omega (arith, ap (λ (x : Budget). x.breaker_threshold) same))
    ]
