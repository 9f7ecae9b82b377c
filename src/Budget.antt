-- ===== src/Budget.antt =====
-- The per-run model budget, circuit breaker and usage ledger of agent/reasoning/budget.py. Money is
-- counted in units of 10⁻⁸ USD, in which every list price and cache multiplier is a whole number;
-- the rounding of Python's floats is left out. A method that takes the lock is one atomic step.
pub mod Bounds
pub mod Circuit
pub mod Spending
mod Tests
use Prim.Native.Char.{code}
use aws_foundations.Base.{
  ℕ, ◌+◌, ◌-◌, ◌*◌, ◌==◌, Bool, true, false, not, ◌||◌, ◌&&◌, List, [], ◌∷◌, Option, none, some,
  String, Result, ok, raised, ltb, leb, one_of, str_eq, is_some, if◌then◌else◌,
}

-- USD per million tokens, input and output
abbrev Price : Type 0
Price = ℕ × ℕ

abbrev prices : List (String × Price)
prices =
    ("claude-haiku-4-5", (1, 5))
    ∷ ("claude-sonnet-5", (2, 10))
    ∷ ("claude-opus-5", (5, 25))
    ∷ ("claude-opus-4-8", (5, 25))
    ∷ []

-- `max` of two tuples
abbrev max_price : Price → Price → Price
max_price (a, b) (c, d) = if ltb a c || (a == c && ltb b d) then (c, d) else (a, b)

unfoldable pub max_of : List (String × Price) → Price
max_of [] = (0, 0)
max_of ((_, p) ∷ ps) = max_price p (max_of ps)

-- `PRICES.get(base, default)`
unfoldable pub price_or : String → List (String × Price) → Price → Price
price_or base [] default = default
price_or base ((name, p) ∷ ps) default = if str_eq name base then p else price_or base ps default

unfoldable pub strip : String → String → Option String
strip String.[] s = some s
strip (String.◌∷◌ c p) String.[] = none
strip (String.◌∷◌ c p) (String.◌∷◌ d s) = if code c == code d then strip p s else none

-- `model.removeprefix(prefix)`
unfoldable pub remove_prefix : String → String → String
remove_prefix prefix model = elim (strip prefix model) [ none ↦ model | some rest ↦ rest ]

unfoldable pub price : String → String → Price
price model provider =
    if str_eq provider "ollama"
    then (0, 0)
    else price_or (remove_prefix "anthropic." model) prices (max_of prices)

pub record Budget : Type 0 where
  pub max_calls : ℕ
  pub max_cost : ℕ
  pub max_input_tokens : ℕ
  pub max_output_tokens : ℕ
  pub breaker_threshold : ℕ

-- `Budget.__post_init__`; the limits are not negative here
unfoldable pub make_budget : Budget → Result String Budget
make_budget b = if ltb b.breaker_threshold 1 then raised "invalid_model_budget" else ok b

-- `collections.Counter`
abbrev Counter : Type 0
Counter = List (String × ℕ)

unfoldable pub count : String → Counter → ℕ
count k [] = 0
count k ((j, n) ∷ c) = if str_eq j k then n else count k c

unfoldable pub add_count : String → ℕ → Counter → Counter
add_count k n [] = (k, n) ∷ []
add_count k n ((j, m) ∷ c) = if str_eq j k then (j, m + n) ∷ c else (j, m) ∷ add_count k n c

pub record Ledger : Type 0 where
  pub budget : Budget
  pub calls : ℕ
  pub calls_by_tier : Counter
  pub input_tokens : ℕ
  pub output_tokens : ℕ
  pub cache_read_tokens : ℕ
  pub cache_write_tokens : ℕ
  pub cost : ℕ
  pub reserved : ℕ
  pub failures : Counter
  pub consecutive_failures : ℕ
  pub circuit : Option String
  pub events : Counter
  pub cost_basis : String

-- `Ledger(budget)`
abbrev new_ledger : Budget → Ledger
new_ledger b = record {
  budget = b;
  calls = 0;
  calls_by_tier = [];
  input_tokens = 0;
  output_tokens = 0;
  cache_read_tokens = 0;
  cache_write_tokens = 0;
  cost = 0;
  reserved = 0;
  failures = [];
  consecutive_failures = 0;
  circuit = none;
  events = [];
  cost_basis = "anthropic_first_party_list_price";
}

pub record Response : Type 0 where
  pub model : String
  pub input_tokens : ℕ
  pub output_tokens : ℕ
  pub cache_read_tokens : ℕ
  pub cache_write_tokens : ℕ

-- the worst-case cost of one call
unfoldable pub worst_case : Price → ℕ → ℕ → ℕ
worst_case p estimated_input max_tokens = (estimated_input * p.0 + max_tokens * p.1) * 100

-- the cost of a response: a cache read is a tenth of an input token, a cache write five quarters
unfoldable pub response_cost : Price → Response → ℕ
response_cost p r =
    r.input_tokens * p.0 * 100
    + r.cache_read_tokens * p.0 * 10
    + r.cache_write_tokens * p.0 * 125
    + r.output_tokens * p.1 * 100

unfoldable pub over : Ledger → ℕ → ℕ → ℕ → Bool
over l worst estimated_input max_tokens =
    ltb l.budget.max_calls (l.calls + 1)
    || ltb l.budget.max_cost (l.cost + l.reserved + worst)
    || ltb l.budget.max_input_tokens (l.input_tokens + estimated_input)
    || ltb l.budget.max_output_tokens (l.output_tokens + max_tokens)

-- `BudgetExhausted` leaves the ledger changed, so it comes back beside the error.
abbrev Outcome : Type 0
Outcome = Result String ℕ × Ledger

unfoldable pub reserve_locked : ℕ → ℕ → ℕ → Ledger → Outcome
reserve_locked worst estimated_input max_tokens l = elim l.circuit [
  | some reason ↦ (raised reason, l)
  | none ↦
      if over l worst estimated_input max_tokens
      then (raised "budget_exhausted", record l { circuit = some "budget_exhausted" })
      else (ok worst, record l { reserved = l.reserved + worst; calls = l.calls + 1 })
]

unfoldable pub local_basis : String → Ledger → Ledger
local_basis provider l =
    if str_eq provider "ollama" then record l { cost_basis = "local_compute_no_api_charge" } else l

unfoldable pub reserve : String → ℕ → ℕ → String → Ledger → Outcome
reserve model estimated_input max_tokens provider l =
    reserve_locked (worst_case (price model provider) estimated_input max_tokens) estimated_input
      max_tokens (local_basis provider l)

-- `max(0.0, self.reserved_usd - reserved)` is the truncated difference
unfoldable pub release : ℕ → Ledger → Ledger
release reserved l = record l { reserved = l.reserved - reserved }

unfoldable pub record_response : String → Response → ℕ → String → Ledger → Ledger
record_response tier r reserved provider l = record l {
  reserved = l.reserved - reserved;
  calls_by_tier = add_count tier 1 l.calls_by_tier;
  input_tokens = l.input_tokens + r.input_tokens;
  output_tokens = l.output_tokens + r.output_tokens;
  cache_read_tokens = l.cache_read_tokens + r.cache_read_tokens;
  cache_write_tokens = l.cache_write_tokens + r.cache_write_tokens;
  cost = l.cost + response_cost (price r.model provider) r;
  consecutive_failures = 0;
}

-- `kind in TRANSIENT`
unfoldable pub is_transient : String → Bool
is_transient kind = one_of kind ("throttled" ∷ "overloaded" ∷ "unavailable" ∷ "timeout" ∷ [])

-- `f"provider_{kind}"`
unfoldable pub provider_reason : String → String
provider_reason kind = Prim.Native.String.◌++◌ "provider_" kind

unfoldable pub trip : Ledger → Ledger
trip l =
    if leb l.budget.breaker_threshold l.consecutive_failures
    then record l { circuit = some "provider_unavailable" }
    else l

unfoldable pub record_failure : String → ℕ → Ledger → Ledger
record_failure kind reserved l =
    let counted = record l {
      reserved = l.reserved - reserved;
      failures = add_count kind 1 l.failures;
    } in
    if is_transient kind
    then trip (record counted { consecutive_failures = counted.consecutive_failures + 1 })
    else record counted { circuit = some (provider_reason kind) }

unfoldable pub note : String → ℕ → Ledger → Ledger
note event amount l = record l { events = add_count event amount l.events }
