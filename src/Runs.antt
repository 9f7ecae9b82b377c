-- ===== src/Runs.antt =====
-- The durable run records of agent/orchestration/state.py: `merge_run` and the state that it guards.
pub mod Merge
pub mod Store
pub mod Optimistic
mod Tests
use aws_foundations.Base.{
  ℕ, ◌+◌, ◌==◌, Bool, true, false, ◌&&◌, ◌||◌, List, [], ◌∷◌, ◌++◌, Option, none, some, String, ltb,
  if◌then◌else◌,
}
use aws_foundations.Base.Json.{Value}

pub data RunStatus : Type 0 where
  queued running completed partial failed : RunStatus

-- `status in FINAL`
unfoldable pub is_final : RunStatus → Bool
is_final completed = true
is_final partial = true
is_final failed = true
is_final _ = false

-- `status in {"queued", "running"}`
unfoldable pub is_active : RunStatus → Bool
is_active queued = true
is_active running = true
is_active _ = false

pub record RunRequest : Type 0 where
  pub source_ref : String
  pub environments : List String
  pub audience : String

-- A run record. `details` holds the keys that are only passed on (counts, coverage, …); an absent
-- `resumable` reads as false, as `run.get("resumable")` does.
pub record Run : Type 0 where
  pub tenant_id : String
  pub user_id : String
  pub run_id : String
  pub request : RunRequest
  pub status : RunStatus
  pub reason : Option String
  pub resumable : Bool
  pub generation : ℕ
  pub version : ℕ
  pub result_ref : Option String
  pub created_at : ℕ
  pub updated_at : ℕ
  pub details : List (String × Value)

-- The keys of a `changes` dictionary; `none` is a key that it lacks.
pub record Changes : Type 0 where
  pub status : Option RunStatus
  pub reason : Option (Option String)
  pub resumable : Option Bool
  pub generation : Option ℕ
  pub result_ref : Option (Option String)
  pub updated_at : Option ℕ
  pub details : List (String × Value)

abbrev pub no_changes : Changes
no_changes = record {
  status = none;
  reason = none;
  resumable = none;
  generation = none;
  result_ref = none;
  updated_at = none;
  details = [];
}

-- `changes.get(key, default)`
abbrev pub or_else {ℓ} : {A : Type ℓ} → Option A → A → A
or_else none a = a
or_else (some a) _ = a

-- `changes.get("status") in {"queued", "running"}`
abbrev pub reactivates : Option RunStatus → Bool
reactivates none = false
reactivates (some s) = is_active s

-- `{**current, **changes, "version": current["version"] + 1}`
unfoldable pub overlay : Run → Changes → Run
overlay current changes = record current {
  status = or_else changes.status current.status;
  reason = or_else changes.reason current.reason;
  resumable = or_else changes.resumable current.resumable;
  generation = or_else changes.generation current.generation;
  version = current.version + 1;
  result_ref = or_else changes.result_ref current.result_ref;
  updated_at = or_else changes.updated_at current.updated_at;
  details = changes.details ++ current.details;
}

unfoldable pub merge_run : Run → Changes → Option Run
merge_run current changes =
    let generation = or_else changes.generation current.generation in
    if ltb generation current.generation
    then none
    else if generation == current.generation
        && is_final current.status
        && reactivates changes.status
    then none
    else some (overlay current changes)
