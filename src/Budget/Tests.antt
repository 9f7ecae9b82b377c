-- ===== src/Budget/Tests.antt =====
-- The ledger at concrete calls.
use aws_foundations.Base.{ℕ, ◌+◌, ◌≤◌, ◌<◌, ◌≡◌, refl, List, [], ◌∷◌, String, raised, some, arith}
use aws_foundations.Budget.{
  Budget, Ledger, new_ledger, make_budget, price, price_or, max_of, remove_prefix, strip,
  worst_case, response_cost, reserve, reserve_locked, local_basis, over, record_failure,
  is_transient, trip,
}
use aws_foundations.Base.{one_of}
use aws_foundations.Budget.Bounds.{reserve_call, failure_call, after, run, calls-le-max_calls}
use aws_foundations.Budget.Circuit.{IsOpen, open_circuit_stops, closed_circuit_below, breaker_trips}
use aws_foundations.Budget.Spending.{begin, start, next, cost-le-max_cost}

-- `Budget()`, in units of 10⁻⁸ USD
abbrev default_budget : Budget
default_budget = record {
  max_calls = 12;
  max_cost = 50_000_000;
  max_input_tokens = 200_000;
  max_output_tokens = 60_000;
  breaker_threshold = 2;
}

computing : Unit {0}
unfolding price price_or max_of remove_prefix strip worst_case response_cost reserve reserve_locked
    local_basis over record_failure trip is_transient one_of make_budget after run
computing = tt

unknown_models_are_dear : price "anthropic.made-up" "anthropic" ≡ (5, 25)
unfolding computing
unknown_models_are_dear = refl

prefixed_models_are_known : price "anthropic.claude-haiku-4-5" "bedrock" ≡ (1, 5)
unfolding computing
prefixed_models_are_known = refl

abbrev two_failures : List (String × ℕ)
two_failures = ("throttled", 0) ∷ ("timeout", 0) ∷ []

calls-le-max_calls_example :
    (run (reserve_call "claude-haiku-4-5" 10 10 "anthropic" ∷ []) (new_ledger default_budget)).calls
    ≤ 12
calls-le-max_calls_example =
    calls-le-max_calls default_budget (reserve_call "claude-haiku-4-5" 10 10 "anthropic" ∷ [])

breaker_trips_example :
    IsOpen
      (run (failure_call "throttled" 0 ∷ failure_call "timeout" 0 ∷ []) (new_ledger default_budget))
breaker_trips_example =
    breaker_trips two_failures (new_ledger default_budget) (omega arith) (omega arith)

closed_circuit_below_example :
    (run (failure_call "throttled" 0 ∷ []) (new_ledger default_budget)).consecutive_failures < 2
unfolding computing
closed_circuit_below_example =
    closed_circuit_below default_budget default_budget (failure_call "throttled" 0 ∷ []) refl refl

abbrev tripped : Ledger
tripped = record (new_ledger default_budget) { circuit = some "provider_auth" }

open_circuit_stops_example :
    ((run (failure_call "timeout" 0 ∷ []) tripped).calls ≡ 0)
    × ((reason : String) × ((reserve "claude-opus-5" 1 1 "anthropic"
            (run (failure_call "timeout" 0 ∷ []) tripped)).0
          ≡ raised reason))
open_circuit_stops_example =
    open_circuit_stops (failure_call "timeout" 0 ∷ []) tripped "claude-opus-5" "anthropic" 1 1 refl

abbrev one_call : Ledger
one_call = record (new_ledger default_budget) { calls = 1; reserved = 6000 }

cost-le-max_cost_example : 0 + 6000 ≤ 50_000_000
unfolding computing
cost-le-max_cost_example =
    cost-le-max_cost default_budget (record { ledger = one_call; pending = 6000 ∷ [] })
      (next start (begin "claude-haiku-4-5" "anthropic" 10 10 refl))
