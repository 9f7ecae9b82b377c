-- ===== src/Runs/Store.antt =====
-- `LocalPipelineState`: the SQLite tables of runs, checkpoints and review items. Each method is one
-- transaction. A body is stored as the value it encodes; the snapshot files are not modelled.
pub mod Isolation
pub mod Checkpoints
pub mod Reviews
pub mod Updates
use aws_foundations.Base.{
  ℕ, ◌+◌, Bool, true, false, ◌&&◌, ◌||◌, not, List, [], ◌∷◌, Option, none, some, String, ltb, leb,
  str_eq, is_some, if◌then◌else◌,
}
use aws_foundations.Base.Json.{Value}
use aws_foundations.Base.Table.{Table, select, update, insert, pair_key}
use aws_foundations.Runs.{Run, Changes, merge_run}

pub record Review : Type 0 where
  pub tenant_id : String
  pub review_id : String
  pub run_id : String
  pub generation : ℕ
  pub step : String
  pub error : String
  pub reason : String
  pub disposition : String
  pub is_open : Bool
  pub resolved_by_generation : Option ℕ
  pub resolved_at : Option ℕ
  pub created_at : ℕ

-- The primary keys are (tenant, run_id), (tenant, key) and (tenant, review_id).
pub record State : Type 0 where
  pub runs : Table (String × String) Run
  pub checkpoints : Table (String × String) Value
  pub reviews : Table (String × String) Review

abbrev pub empty : State
empty = record { runs = []; checkpoints = []; reviews = [] }

unfoldable pub create_run : Run → State → Bool × State
create_run run s =
    let (created, runs) = insert (run.tenant_id, run.run_id) run s.runs in
    (created, record s { runs = runs })

unfoldable pub get_run : String → String → State → Option Run
get_run tenant run_id s = select (tenant, run_id) s.runs

unfoldable pub update_found : String → String → Changes → Option Run → State → Option Run × State
update_found tenant run_id changes none s = (none, s)
update_found tenant run_id changes (some current) s = elim (merge_run current changes) [
  | none ↦ (none, s)
  | some merged ↦ (some merged, record s { runs = update (tenant, run_id) merged s.runs })
]

unfoldable pub update_run : String → String → Changes → State → Option Run × State
update_run tenant run_id changes s = update_found tenant run_id changes (get_run tenant run_id s) s

unfoldable pub get_checkpoint : String → String → State → Option Value
get_checkpoint tenant key s = select (tenant, key) s.checkpoints

unfoldable pub put_checkpoint : String → String → Value → State → Bool × State
put_checkpoint tenant key body s =
    let (created, checkpoints) = insert (tenant, key) body s.checkpoints in
    (created, record s { checkpoints = checkpoints })

unfoldable pub put_review : Review → State → Bool × State
put_review item s =
    let (created, reviews) = insert (item.tenant_id, item.review_id) item s.reviews in
    (created, record s { reviews = reviews })

-- the rows that `resolve_reviews` closes
unfoldable pub closes : String → String → String → ℕ → (String × String) × Review → Bool
closes tenant run_id step generation ((t, _), item) =
    str_eq t tenant
    && str_eq item.run_id run_id
    && str_eq item.step step
    && item.is_open
    && ltb item.generation generation

abbrev resolved : ℕ → ℕ → Review → Review
resolved generation now item = record item {
  is_open = false;
  resolved_by_generation = some generation;
  resolved_at = some now;
}

unfoldable pub resolve_rows :
    String
    → String
    → String
    → ℕ
    → ℕ
    → Table (String × String) Review
    → ℕ × Table (String × String) Review
resolve_rows tenant run_id step generation now [] = (0, [])
resolve_rows tenant run_id step generation now ((k, item) ∷ rows) =
    let (n, rest) = resolve_rows tenant run_id step generation now rows in
    if closes tenant run_id step generation (k, item)
    then (n + 1, (k, resolved generation now item) ∷ rest)
    else (n, (k, item) ∷ rest)

unfoldable pub resolve_reviews : String → String → String → ℕ → ℕ → State → ℕ × State
resolve_reviews tenant run_id step generation now s =
    let (n, rows) = resolve_rows tenant run_id step generation now s.reviews in
    (n, record s { reviews = rows })

-- One call of a method that writes.
pub data Write : Type 0 where
  create_run_call : Run → Write
  update_run_call : String → String → Changes → Write
  put_checkpoint_call : String → String → Value → Write
  put_review_call : Review → Write
  resolve_reviews_call : String → String → String → ℕ → ℕ → Write

unfoldable pub after : Write → State → State
after (create_run_call run) s = (create_run run s).1
after (update_run_call tenant run_id changes) s = (update_run tenant run_id changes s).1
after (put_checkpoint_call tenant key body) s = (put_checkpoint tenant key body s).1
after (put_review_call item) s = (put_review item s).1
after (resolve_reviews_call tenant run_id step generation now) s =
    (resolve_reviews tenant run_id step generation now s).1

unfoldable pub after_all : List Write → State → State
after_all [] s = s
after_all (w ∷ ws) s = after_all ws (after w s)

-- the tenant that a call is made for
unfoldable pub caller : Write → String
caller (create_run_call run) = run.tenant_id
caller (update_run_call tenant run_id changes) = tenant
caller (put_checkpoint_call tenant key body) = tenant
caller (put_review_call item) = item.tenant_id
caller (resolve_reviews_call tenant run_id step generation now) = tenant
