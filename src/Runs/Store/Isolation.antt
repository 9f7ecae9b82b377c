-- ===== src/Runs/Store/Isolation.antt =====
-- One tenant's calls change no row of another.
use aws_foundations.Base.{
  ℕ, ◌≡◌, refl, ◌∙◌, false, ◌&&◌, List, [], ◌∷◌, Option, none, some, String, arith, str_eq, eq_iff,
  All, Option-cases, inl, inr,
}
use aws_foundations.Base.Table.{select, pair_key, select-insert_ne, select-update}
use aws_foundations.Runs.{Run, Changes, merge_run}
use aws_foundations.Runs.Store.{
  State, Write, Review, create_run, create_run_call, update_run_call, put_checkpoint_call,
  put_review_call, resolve_reviews_call, update_found, update_run, get_run, get_checkpoint,
  put_checkpoint, put_review, resolve_reviews, closes, after, after_all, caller,
}
use aws_foundations.Runs.Store.Reviews.{after_call, select-resolve_reviews}

-- The rows of a tenant are the same in two states.
pub record SameRows (tenant : String) (s t : State) : Type 0 where
  pub runs : (run_id : String) → get_run tenant run_id t ≡ get_run tenant run_id s
  pub checkpoints : (key : String) → get_checkpoint tenant key t ≡ get_checkpoint tenant key s
  pub reviews : (id : String) → select (tenant, id) t.reviews ≡ select (tenant, id) s.reviews

other_key : (t u k j : String) → str_eq t u ≡ false → (str_eq t u && str_eq k j) ≡ false
other_key t u k j h = rw h

after_call_other :
    (tenant other run_id step id : String) (generation now : ℕ) (o : Option Review)
    → str_eq tenant other ≡ false
    → (elim o [
      | none ↦ none
      | some item ↦ some (after_call other run_id step generation now (tenant, id) item)
    ])
      ≡ o
unfolding closes
after_call_other tenant other run_id step id generation now none h = refl
after_call_other tenant other run_id step id generation now (some item) h = rw h

sym_differs : (t u : String) → str_eq t u ≡ false → str_eq u t ≡ false
sym_differs t u h = ground (arith, eq_iff t u, eq_iff u t)

module _ (t r : String) (c : Changes) (tenant : String) where
  update_found-runs :
      (j : String) (found : Option Run) (s : State)
      → str_eq t tenant ≡ false
      → select (tenant, j) (update_found t r c found s).1.runs ≡ select (tenant, j) s.runs
  unfolding update_found
  update_found-runs j none s h = refl
  update_found-runs j (some current) s h = elim (Option-cases (merge_run current c)) [
    | inl refused ↦ ground arith
    | inr (merged, e) ↦
        ground (arith, select-update (t, r) (tenant, j) merged s.runs, other_key t tenant r j h)
  ]

  update_found-checkpoints :
      (k : String) (found : Option Run) (s : State)
      → select (tenant, k) (update_found t r c found s).1.checkpoints
        ≡ select (tenant, k) s.checkpoints
  unfolding update_found
  update_found-checkpoints k none s = refl
  update_found-checkpoints k (some current) s = ground arith

  update_found-reviews :
      (i : String) (found : Option Run) (s : State)
      → select (tenant, i) (update_found t r c found s).1.reviews ≡ select (tenant, i) s.reviews
  unfolding update_found
  update_found-reviews i none s = refl
  update_found-reviews i (some current) s = ground arith

after-SameRows :
    (w : Write) (tenant : String) (s : State)
    → str_eq (caller w) tenant ≡ false
    → SameRows tenant s (after w s)
unfolding after caller get_run get_checkpoint create_run put_checkpoint put_review update_run
    resolve_reviews
after-SameRows (create_run_call run) tenant s h = record {
  runs = λ r.
      select-insert_ne (run.tenant_id, run.run_id) (tenant, r) run s.runs
        (other_key run.tenant_id tenant run.run_id r h);
  checkpoints = λ k. refl;
  reviews = λ i. refl;
}
after-SameRows (update_run_call t r c) tenant s h = record {
  runs = λ j. update_found-runs t r c tenant j (get_run t r s) s h;
  checkpoints = λ k. update_found-checkpoints t r c tenant k (get_run t r s) s;
  reviews = λ i. update_found-reviews t r c tenant i (get_run t r s) s;
}
after-SameRows (put_checkpoint_call t k b) tenant s h = record {
  runs = λ r. refl;
  checkpoints = λ j. select-insert_ne (t, k) (tenant, j) b s.checkpoints (other_key t tenant k j h);
  reviews = λ i. refl;
}
after-SameRows (put_review_call item) tenant s h = record {
  runs = λ r. refl;
  checkpoints = λ k. refl;
  reviews = λ i.
      select-insert_ne (item.tenant_id, item.review_id) (tenant, i) item s.reviews
        (other_key item.tenant_id tenant item.review_id i h);
}
after-SameRows (resolve_reviews_call t r st g now) tenant s h = record {
  runs = λ r. refl;
  checkpoints = λ k. refl;
  reviews = λ i.
      select-resolve_reviews t r st g now (tenant, i) s
      ∙ after_call_other tenant t r st i g now (select (tenant, i) s.reviews)
          (sym_differs t tenant h);
}

-- Whatever other tenants do, in any order, the runs, the checkpoints and the review items of a
-- tenant stay as they are.
pub others-SameRows :
    (ws : List Write) (tenant : String) (s : State)
    → All (λ w. str_eq (caller w) tenant ≡ false) ws
    → SameRows tenant s (after_all ws s)
unfolding after_all
others-SameRows [] tenant s h = record {
  runs = λ r. refl;
  checkpoints = λ k. refl;
  reviews = λ i. refl;
}
others-SameRows (w ∷ ws) tenant s (h, hs) =
    let one : SameRows tenant s (after w s) = after-SameRows w tenant s h in
    let rest : SameRows tenant (after w s) (after_all ws (after w s)) =
      others-SameRows ws tenant (after w s) hs in
    record {
      runs = λ r. rest.runs r ∙ one.runs r;
      checkpoints = λ k. rest.checkpoints k ∙ one.checkpoints k;
      reviews = λ i. rest.reviews i ∙ one.reviews i;
    }
