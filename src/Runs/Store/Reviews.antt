-- ===== src/Runs/Store/Reviews.antt =====
-- Closing review items after a check has succeeded on a later generation.
use aws_foundations.Base.{
  ℕ, ◌<◌, ◌≡◌, ◌↔◌, ◌⊎◌, refl, true, false, [], ◌∷◌, Option, none, some, String, arith, eq_iff,
  if◌then◌else◌, Bool-cases, inl, inr,
}
use aws_foundations.Base.Table.{Table, select, pair_key, same_pair}
use aws_foundations.Runs.Store.{State, Review, closes, resolved, resolve_rows, resolve_reviews}

-- What a call does to one row.
abbrev pub after_call : String → String → String → ℕ → ℕ → String × String → Review → Review
after_call tenant run_id step generation now k item =
    if closes tenant run_id step generation (k, item) then resolved generation now item else item

module _ (tenant run_id step : String) (generation now : ℕ) where
  select-resolve_rows :
      (k : String × String) (rows : Table (String × String) Review)
      → select k (resolve_rows tenant run_id step generation now rows).1 ≡ elim (select k rows) [
        | none ↦ none
        | some item ↦ some (after_call tenant run_id step generation now k item)
      ]
  unfolding select resolve_rows
  select-resolve_rows k [] = refl
  select-resolve_rows k ((j, item) ∷ rows) =
      ground (arith, same_pair j.0 j.1 k.0 k.1, select-resolve_rows k rows)

  stays_closed :
      (k : String × String) (item : Review)
      → closes tenant run_id step generation (k, resolved generation now item) ≡ false
  unfolding closes
  stays_closed k item = ground arith

  closed_count :
      (rows : Table (String × String) Review)
      → (resolve_rows tenant run_id step generation now
          (resolve_rows tenant run_id step generation now rows).1).0
        ≡ 0
  unfolding resolve_rows
  closed_count [] = refl
  closed_count ((j, item) ∷ rows) =
      elim (Bool-cases (closes tenant run_id step generation (j, item))) [
        | inl hit ↦ rw hit (rw (stays_closed j item) (closed_count rows))
        | inr miss ↦ rw miss (rw miss (closed_count rows))
      ]

  pub select-resolve_reviews :
      (k : String × String) (s : State)
      → select k (resolve_reviews tenant run_id step generation now s).1.reviews
        ≡ elim (select k s.reviews) [
          | none ↦ none
          | some item ↦ some (after_call tenant run_id step generation now k item)
        ]
  unfolding resolve_reviews
  select-resolve_reviews k s = select-resolve_rows k s.reviews

  -- An open item of this run and step, of this tenant, from an older generation.
  abbrev pub IsDue : String × String → Review → Type 0
  IsDue k item =
      (k.0 ≡ tenant)
      × (item.run_id ≡ run_id)
      × (item.step ≡ step)
      × (item.is_open ≡ true)
      × (item.generation < generation)

  -- What a call leaves of the row of a key.
  abbrev pub Settled : String × String → Option Review → Option Review → Type 0
  Settled k none left = left ≡ none
  Settled k (some item) left =
      (IsDue k item
        × (left
            ≡ some (record item {
              is_open = false;
              resolved_by_generation = some generation;
              resolved_at = some now;
            })))
      ⊎ (¬ (IsDue k item) × (left ≡ some item))

  closes-IsDue :
      (k : String × String) (item : Review)
      → (closes tenant run_id step generation (k, item) ≡ true) ↔ IsDue k item
  unfolding closes
  closes-IsDue k item =
      let same_tenant = eq_iff k.0 tenant in
      let same_run = eq_iff item.run_id run_id in
      let same_step = eq_iff item.step step in (λ h. ground arith, λ h. ground arith)

  settles :
      (k : String × String) (before : Option Review)
      → Settled k before (elim before [
        | none ↦ none
        | some item ↦ some (after_call tenant run_id step generation now k item)
      ])
  settles k none = refl
  settles k (some item) = elim (Bool-cases (closes tenant run_id step generation (k, item))) [
    | inl hit ↦ inl ((closes-IsDue k item).0 hit, rw hit refl)
    | inr miss ↦ inr (λ due. cc (miss, (closes-IsDue k item).1 due), rw miss refl)
  ]

  -- A review item is resolved, with the generation and the time of the call and otherwise as it was,
  -- exactly if it is an open item of this run and step, of this tenant, from an older generation;
  -- every other item, of any tenant, is left as it was, and no item is added.
  pub resolve_reviews-exact :
      (k : String × String) (s : State)
      → Settled k
          (select k s.reviews)
          (select k (resolve_reviews tenant run_id step generation now s).1.reviews)
  resolve_reviews-exact k s = rw (select-resolve_reviews k s) (settles k (select k s.reviews))

  -- Nothing is left to close: a repeated call finds no item.
  pub resolve_reviews_again :
      (s : State)
      → (resolve_reviews tenant run_id step generation now
          (resolve_reviews tenant run_id step generation now s).1).0
        ≡ 0
  unfolding resolve_reviews
  resolve_reviews_again s = closed_count s.reviews
