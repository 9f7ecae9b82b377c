-- ===== src/LeastPrivilege/Waiting.antt =====
-- `await_generation` of agent/access_analyzer.py ends once its time is over.
use aws_foundations.Base.{
  ℕ, zero, suc, ◌+◌, ◌≤◌, ◌<◌, ◌≡◌, refl, Bool, true, false, not, some, Result, ok, raised, leb,
  ◌==◌, ==→eq, subst, str_eq, Result-cases, Bool-cases, inl, inr, arith,
}
use aws_foundations.LeastPrivilege.Documents.{Problem}
use aws_foundations.LeastPrivilege.Attempts.{Outcome, await_from, await_generation}

-- a failure, or an outcome that is no longer in progress
abbrev pub is_settled : Result Problem Outcome → Bool
is_settled (raised problem) = true
is_settled (ok outcome) = not (str_eq outcome.status "IN_PROGRESS")

-- A poll that is in time is not the last one.
before_last :
    (clock : ℕ → ℕ) (deadline i j : ℕ)
    → i ≤ j
    → leb deadline (clock i) ≡ false
    → leb deadline (clock j) ≡ true
    → suc i ≤ j
before_last clock deadline i j low early late = elim (Bool-cases (i == j)) [
  | inl same ↦
      let e = ==→eq i j same in
      let again : leb deadline (clock j) ≡ false =
        subst (λ k. leb deadline (clock k) ≡ false) e early in
      absurd (cc)
  | inr differs ↦ ground arith
]

await_from-settles :
    (generated : ℕ → Result Problem Outcome) (clock : ℕ → ℕ) (deadline fuel i j : ℕ)
    → i ≤ j
    → j < i + fuel
    → leb deadline (clock j) ≡ true
    → (r : Result Problem Outcome) × (await_from generated clock deadline fuel i ≡ some r)
      × (is_settled r ≡ true)
unfolding await_from
await_from-settles generated clock deadline zero i j low high late = absurd (omega arith)
await_from-settles generated clock deadline (suc fuel) i j low high late =
    elim (Result-cases (generated i)) [
      | inr (problem, failed) ↦ (raised problem, ground arith, refl)
      | inl (outcome, answered) ↦ elim (Bool-cases (str_eq outcome.status "IN_PROGRESS")) [
        | inr settled ↦ (ok outcome, ground arith, ground arith)
        | inl pending ↦ elim (Bool-cases (leb deadline (clock i))) [
          | inl over ↦ (raised (Problem.unavailable "generation_timeout"), ground arith, refl)
          | inr early ↦
              let past : suc i ≤ j = before_last clock deadline i j low early late in
              let (r, found, ended) =
                await_from-settles generated clock deadline fuel (suc i) j past (omega arith)
                  late in
              (r, ground arith, ended)
        ]
      ]
    ]

-- If the clock has passed the deadline at some poll, the wait ends at that poll or before it, and
-- not with an outcome that is still in progress: so many polls are fuel enough.
pub await_generation-settles :
    (generated : ℕ → Result Problem Outcome) (clock : ℕ → ℕ) (started timeout last : ℕ)
    → leb (started + timeout) (clock last) ≡ true
    → (r : Result Problem Outcome) × (await_generation generated clock started timeout (suc last)
        ≡ some r)
      × (is_settled r ≡ true)
unfolding await_generation
await_generation-settles generated clock started timeout last late =
    await_from-settles generated clock (started + timeout) (suc last) 0 last (omega arith)
      (omega arith) late
