-- ===== src/Budget/Bounds.antt =====
-- Whatever is called on the ledger, and in whatever order, the number of model calls is bounded.
use aws_foundations.Base.{ℕ, ◌≤◌, ◌≡◌, refl, List, [], ◌∷◌, String, arith}
use aws_foundations.Budget.{
  Budget, Ledger, Response, new_ledger, reserve, reserve_locked, local_basis, over, release,
  record_response, record_failure, trip, note,
}

-- One call of a method of the ledger.
pub data Call : Type 0 where
  reserve_call : String → ℕ → ℕ → String → Call
  release_call : ℕ → Call
  record_call : String → Response → ℕ → String → Call
  failure_call : String → ℕ → Call
  note_call : String → ℕ → Call

unfoldable pub after : Call → Ledger → Ledger
after (reserve_call model estimated_input max_tokens provider) l =
    (reserve model estimated_input max_tokens provider l).1
after (release_call n) l = release n l
after (record_call tier r n provider) l = record_response tier r n provider l
after (failure_call kind n) l = record_failure kind n l
after (note_call event n) l = note event n l

-- any calls, in the order in which they take the lock
unfoldable pub run : List Call → Ledger → Ledger
run [] l = l
run (c ∷ cs) l = run cs (after c l)

pub record IsWithin (b : Budget) (l : Ledger) : Type 0 where
  pub same : l.budget ≡ b
  pub counted : l.calls ≤ b.max_calls

after-IsWithin : (b : Budget) (c : Call) (l : Ledger) → IsWithin b l → IsWithin b (after c l)
unfolding after reserve reserve_locked local_basis over release record_response record_failure trip
    note
after-IsWithin b (reserve_call m i o p) l h = ground arith
after-IsWithin b _ l h = ground arith

run-IsWithin : (b : Budget) (cs : List Call) (l : Ledger) → IsWithin b l → IsWithin b (run cs l)
unfolding run
run-IsWithin b [] l h = h
run-IsWithin b (c ∷ cs) l h = run-IsWithin b cs (after c l) (after-IsWithin b c l h)

-- After any sequence of calls on a new ledger, it has admitted at most `max_calls` model calls.
pub calls-le-max_calls : (b : Budget) (cs : List Call) → (run cs (new_ledger b)).calls ≤ b.max_calls
calls-le-max_calls b cs =
    (run-IsWithin b cs (new_ledger b) (record { same = refl; counted = omega arith })).counted
