-- ===== src/Budget/Spending.antt =====
-- Calls to a model that overlap: each reserves its worst case, runs, and settles.
use aws_foundations.Base.{ℕ, ◌+◌, ◌*◌, ◌≤◌, ◌≡◌, refl, List, [], ◌∷◌, String, arith, ok, raised}
use native.Mathlib.Nat.{mul-le-mul_right}
use aws_foundations.Budget.{
  Budget, Ledger, Response, Price, new_ledger, price, worst_case, response_cost, reserve,
  reserve_locked, local_basis, over, release, record_response, record_failure, trip,
}

unfoldable pub sum : List ℕ → ℕ
sum [] = 0
sum (n ∷ ns) = n + sum ns

-- `Removed w ps qs`: `qs` is `ps` without one occurrence of `w`.
pub data Removed (w : ℕ) : List ℕ → List ℕ → Type 0 where
  here : {ps : List ℕ} → Removed w (w ∷ ps) ps
  there : {p : ℕ} {ps qs : List ℕ} → Removed w ps qs → Removed w (p ∷ ps) (p ∷ qs)

sum-Removed : {w : ℕ} {ps qs : List ℕ} → Removed w ps qs → sum ps ≡ w + sum qs
unfolding sum
sum-Removed here = refl
sum-Removed (there r) = omega (arith, sum-Removed r)

-- The ledger, with the reservations of the calls that are under way.
pub record State : Type 0 where
  pub ledger : Ledger
  pub pending : List ℕ

-- One step of some call. A response settles its own reservation and costs no more than that.
pub data Step : State → State → Type 0 where
  begin :
      {l l' : Ledger} {ps : List ℕ} {w : ℕ} (model provider : String) (i o : ℕ)
      → reserve model i o provider l ≡ (ok w, l')
      → Step (record { ledger = l; pending = ps }) (record { ledger = l'; pending = w ∷ ps })
  refuse :
      {l l' : Ledger} {ps : List ℕ} (e model provider : String) (i o : ℕ)
      → reserve model i o provider l ≡ (raised e, l')
      → Step (record { ledger = l; pending = ps }) (record { ledger = l'; pending = ps })
  respond :
      {l : Ledger} {ps qs : List ℕ} {w : ℕ} (tier provider : String) (r : Response)
      → Removed w ps qs
      → response_cost (price r.model provider) r ≤ w
      → Step
          (record { ledger = l; pending = ps })
          (record { ledger = record_response tier r w provider l; pending = qs })
  fail :
      {l : Ledger} {ps qs : List ℕ} {w : ℕ} (kind : String)
      → Removed w ps qs
      → Step
          (record { ledger = l; pending = ps })
          (record { ledger = record_failure kind w l; pending = qs })
  give_back :
      {l : Ledger} {ps qs : List ℕ} {w : ℕ}
      → Removed w ps qs
      → Step (record { ledger = l; pending = ps }) (record { ledger = release w l; pending = qs })

pub data Reach (s : State) : State → Type 0 where
  start : Reach s s
  next : {t u : State} → Reach s t → Step t u → Reach s u

-- What is reserved is exactly what is under way, and with what is spent it fits the budget.
pub record IsCovered (b : Budget) (s : State) : Type 0 where
  pub same : s.ledger.budget ≡ b
  pub reserved : s.ledger.reserved ≡ sum s.pending
  pub fits : s.ledger.cost + s.ledger.reserved ≤ b.max_cost

reserve_ok :
    (model provider : String) (i o w : ℕ) (l l' : Ledger)
    → reserve model i o provider l ≡ (ok w, l')
    → (l'.budget ≡ l.budget)
      × (l'.cost ≡ l.cost)
      × (l'.reserved ≡ l.reserved + w)
      × (l.cost + l.reserved + w ≤ l.budget.max_cost)
unfolding reserve reserve_locked local_basis over
reserve_ok model provider i o w l l' h = ground arith

reserve_refused :
    (model provider e : String) (i o : ℕ) (l l' : Ledger)
    → reserve model i o provider l ≡ (raised e, l')
    → (l'.budget ≡ l.budget) × (l'.cost ≡ l.cost) × (l'.reserved ≡ l.reserved)
unfolding reserve reserve_locked local_basis over
reserve_refused model provider e i o l l' h = ground arith

Step-IsCovered : (b : Budget) {s t : State} → Step s t → IsCovered b s → IsCovered b t
unfolding release record_response record_failure trip sum
Step-IsCovered b (begin {l = l} {l' = l'} {w = w} model provider i o h) c =
    ground (arith, reserve_ok model provider i o w l l' h, c.same)
Step-IsCovered b (refuse {l = l} {l' = l'} e model provider i o h) c =
    ground (arith, reserve_refused model provider e i o l l' h)
Step-IsCovered b (respond {l = l} tier provider r x small) c = ground (arith, sum-Removed x)
Step-IsCovered b (fail {l = l} kind x) c = ground (arith, sum-Removed x)
Step-IsCovered b (give_back x) c = ground (arith, sum-Removed x)

Reach-IsCovered : (b : Budget) {s t : State} → Reach s t → IsCovered b s → IsCovered b t
Reach-IsCovered b start c = c
Reach-IsCovered b (next r st) c = Step-IsCovered b st (Reach-IsCovered b r c)

abbrev pub initial : Budget → State
initial b = record { ledger = new_ledger b; pending = [] }

-- However model calls overlap, as long as each response costs no more than its call reserved, what
-- is spent and what is still reserved never pass `max_cost` together.
pub cost-le-max_cost :
    (b : Budget) (s : State) → Reach (initial b) s → s.ledger.cost + s.ledger.reserved ≤ b.max_cost
cost-le-max_cost b s reached =
    (Reach-IsCovered b reached
      (record { same = refl; reserved = unfold sum in refl; fits = omega arith })).fits

-- A response costs no more than its call reserved if its output is within `max_tokens` and its
-- input, with cache reads at a tenth and cache writes at five quarters, is within the estimate.
pub response_cost-le-worst_case :
    (p : Price) (r : Response) (i o : ℕ)
    → r.input_tokens * 100 + r.cache_read_tokens * 10 + r.cache_write_tokens * 125 ≤ i * 100
    → r.output_tokens ≤ o
    → response_cost p r ≤ worst_case p i o
unfolding response_cost worst_case
response_cost-le-worst_case (a, b) r i o input output =
    let inputs = mul-le-mul_right a input in let outputs = mul-le-mul_right b output in omega arith
