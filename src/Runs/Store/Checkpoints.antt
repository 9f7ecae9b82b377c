-- ===== src/Runs/Store/Checkpoints.antt =====
-- Checkpoints are written once.
use aws_foundations.Base.{
  ◌≡◌, Bool, true, false, List, [], ◌∷◌, none, some, String, arith, eq_iff, Option-cases, inl, inr,
  Result, ok, raised,
}
use aws_foundations.Base.Json.{Value}
use aws_foundations.Base.Table.{select, insert, pair_key, same_pair, select-insert_present}
use aws_foundations.Runs.Store.{
  State, Write, create_run, update_run_call, put_checkpoint_call, update_found, update_run,
  get_checkpoint, put_checkpoint, put_review, resolve_reviews, after, after_all,
}

after-checkpoint :
    (w : Write) (tenant key : String) (body : Value) (s : State)
    → get_checkpoint tenant key s ≡ some body
    → get_checkpoint tenant key (after w s) ≡ some body
unfolding after get_checkpoint create_run update_run update_found put_checkpoint put_review
    resolve_reviews
after-checkpoint (put_checkpoint_call t k b) tenant key body s h =
    select-insert_present (t, k) (tenant, key) b body s.checkpoints h
after-checkpoint (update_run_call t r c) tenant key body s h = ground arith
after-checkpoint _ tenant key body s h = h

-- A checkpoint that is there keeps its body, whatever is written afterwards and by whom.
pub checkpoint_stays :
    (ws : List Write) (tenant key : String) (body : Value) (s : State)
    → get_checkpoint tenant key s ≡ some body
    → get_checkpoint tenant key (after_all ws s) ≡ some body
unfolding after_all
checkpoint_stays [] tenant key body s h = h
checkpoint_stays (w ∷ ws) tenant key body s h =
    checkpoint_stays ws tenant key body (after w s) (after-checkpoint w tenant key body s h)

-- `_load` of agent/orchestration/steps.py
unfoldable pub load : String → String → State → Result String Value
load tenant key s = elim (get_checkpoint tenant key s) [
  | none ↦ raised "checkpoint_missing"
  | some body ↦ ok body
]

unfoldable pub stored_or_own : String → String → Value → Bool × State → Result String Value × State
stored_or_own tenant key body (true, s) = (ok body, s)
stored_or_own tenant key body (false, s) = elim (get_checkpoint tenant key s) [
  | none ↦ (raised "checkpoint_unavailable", s)
  | some existing ↦ (ok existing, s)
]

-- `_write_once` of agent/orchestration/steps.py
unfoldable pub write_once : String → String → Value → State → Result String Value × State
write_once tenant key body s = stored_or_own tenant key body (put_checkpoint tenant key body s)

write_once_free :
    (tenant key : String) (body : Value) (s : State)
    → get_checkpoint tenant key s ≡ none
    → let (r, s') = write_once tenant key body s in
      (r ≡ ok body) × (get_checkpoint tenant key s' ≡ some body)
unfolding write_once stored_or_own put_checkpoint get_checkpoint insert select
write_once_free tenant key body s h =
    ground (arith, same_pair tenant key tenant key, eq_iff tenant tenant, eq_iff key key)

write_once_taken :
    (tenant key : String) (body old : Value) (s : State)
    → get_checkpoint tenant key s ≡ some old
    → let (r, s') = write_once tenant key body s in
      (r ≡ ok old) × (get_checkpoint tenant key s' ≡ some old)
unfolding write_once stored_or_own put_checkpoint get_checkpoint insert
write_once_taken tenant key body old s h = ground arith

load_present :
    (tenant key : String) (body : Value) (s : State)
    → get_checkpoint tenant key s ≡ some body
    → load tenant key s ≡ ok body
unfolding load
load_present tenant key body s h = rw (h, load)

-- On the local store a write never raises, and a retry of it, with whatever body and after whatever
-- other writes, returns what the first attempt returned, as a load does.
pub write_once_retried :
    (tenant key : String) (body : Value) (s : State)
    → let (r, s') = write_once tenant key body s in
      (stored : Value) × (r ≡ ok stored)
      × ((ws : List Write) (body' : Value)
          → (write_once tenant key body' (after_all ws s')).0 ≡ ok stored)
      × ((ws : List Write) → load tenant key (after_all ws s') ≡ ok stored)
write_once_retried tenant key body s = elim (Option-cases (get_checkpoint tenant key s)) [
  | inl free ↦
      let (returned, held) = write_once_free tenant key body s free in settled body returned held
  | inr (old, taken) ↦
      let (returned, held) = write_once_taken tenant key body old s taken in
      settled old returned held
]
  where
    settled :
        (stored : Value)
        → (write_once tenant key body s).0 ≡ ok stored
        → get_checkpoint tenant key (write_once tenant key body s).1 ≡ some stored
        → (v : Value) × ((write_once tenant key body s).0 ≡ ok v)
          × ((ws : List Write) (body' : Value)
              → (write_once tenant key body' (after_all ws (write_once tenant key body s).1)).0
                ≡ ok v)
          × ((ws : List Write)
              → load tenant key (after_all ws (write_once tenant key body s).1) ≡ ok v)
    settled stored returned held = (
      stored,
      returned,
      λ ws body'.
          (write_once_taken tenant key body' stored _
            (checkpoint_stays ws tenant key stored _ held)).0,
      λ ws. load_present tenant key stored _ (checkpoint_stays ws tenant key stored _ held),
    )
