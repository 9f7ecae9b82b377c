-- ===== src/Runs/Merge.antt =====
-- What a late or duplicated step can do to a run: nothing that undoes a newer outcome.
use aws_foundations.Base.{ℕ, ◌+◌, ◌≤◌, ◌≡◌, refl, true, List, [], ◌∷◌, none, some, arith, All}
use aws_foundations.Runs.{Run, Changes, is_final, is_active, or_else, overlay, merge_run}

-- The store keeps the record when a merge is refused.
unfoldable pub apply : Run → Changes → Run
apply run changes = or_else (merge_run run changes) run

unfoldable pub apply_all : Run → List Changes → Run
apply_all run [] = run
apply_all run (c ∷ cs) = apply_all (apply run c) cs

-- The generation that a change speaks for.
abbrev pub speaks_for : Run → Changes → ℕ
speaks_for run changes = or_else changes.generation run.generation

-- An accepted merge has the next version and no older generation, and keeps whose run it is.
pub merge_run-accepted :
    (run run' : Run) (changes : Changes)
    → merge_run run changes ≡ some run'
    → (run'.version ≡ run.version + 1)
      × (run.generation ≤ run'.generation)
      × (run'.tenant_id ≡ run.tenant_id)
      × (run'.user_id ≡ run.user_id)
      × (run'.run_id ≡ run.run_id)
      × (run'.request ≡ run.request)
      × (run'.created_at ≡ run.created_at)
unfolding merge_run overlay
merge_run-accepted run run' changes h = ground arith

pub merge_run-overlay :
    (run run' : Run) (changes : Changes)
    → merge_run run changes ≡ some run'
    → run' ≡ overlay run changes
unfolding merge_run
merge_run-overlay run run' changes h = ground arith

-- A change of a generation that is not newer than `g`.
abbrev pub IsLate : ℕ → Changes → Type 0
IsLate g changes = elim changes.generation [ none ↦ Unit {0} | some n ↦ n ≤ g ]

apply-final :
    (g : ℕ) (run : Run) (changes : Changes)
    → is_final run.status ≡ true
    → run.generation ≡ g
    → IsLate g changes
    → (is_final (apply run changes).status ≡ true) × ((apply run changes).generation ≡ g)
unfolding apply merge_run overlay is_final is_active
apply-final g run changes final same late = ground arith

apply_all-final :
    (g : ℕ) (run : Run) (cs : List Changes)
    → is_final run.status ≡ true
    → run.generation ≡ g
    → All (IsLate g) cs
    → (is_final (apply_all run cs).status ≡ true) × ((apply_all run cs).generation ≡ g)
unfolding apply_all
apply_all-final g run [] final same late = (final, same)
apply_all-final g run (c ∷ cs) final same (late, rest) =
    let (final', same') = apply-final g run c final same late in
    apply_all-final g (apply run c) cs final' same' rest

-- Whatever steps of this or older generations arrive late, repeated or out of order, a run with a
-- final outcome keeps a final outcome and its generation.
pub final_outcome_stays :
    (run : Run) (cs : List Changes)
    → is_final run.status ≡ true
    → All (IsLate run.generation) cs
    → (is_final (apply_all run cs).status ≡ true) × ((apply_all run cs).generation ≡ run.generation)
final_outcome_stays run cs final late = apply_all-final run.generation run cs final refl late

-- Under any changes at all, the generation and the version of a run never go back.
pub apply_all-monotone :
    (run : Run) (cs : List Changes)
    → (run.generation ≤ (apply_all run cs).generation) × (run.version ≤ (apply_all run cs).version)
unfolding apply_all apply merge_run overlay
apply_all-monotone run [] = omega arith
apply_all-monotone run (c ∷ cs) =
    ground (arith, apply_all-monotone (or_else (merge_run run c) run) cs)
