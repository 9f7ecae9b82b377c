-- ===== src/Runs/Tests.antt =====
-- Runs at concrete changes.
use aws_foundations.Base.{◌+◌, ◌≤◌, ◌≡◌, refl, true, false, List, [], ◌∷◌, none, some, ok, arith}
use aws_foundations.Base.Json.{Value, null}
use aws_foundations.Base.Table.{select, update, insert, pair_key}
use aws_foundations.Runs.{
  Run, queued, running, completed, failed, Changes, no_changes, is_final, is_active, merge_run,
  overlay,
}
use aws_foundations.Runs.Merge.{
  apply, apply_all, merge_run-accepted, final_outcome_stays, apply_all-monotone,
}
use aws_foundations.Runs.Optimistic.{
  Item, Rounds, five, update_run, attempts, attempt, settle, conditional_put, write_back,
  others_only, TookEffect, update_run_loses_nothing, update_run_raised,
}
use aws_foundations.Runs.Store.{
  State, empty, Write, Review, create_run, create_run_call, put_checkpoint_call, put_review_call,
  put_checkpoint, get_checkpoint, after, after_all, caller, resolve_reviews,
}
use aws_foundations.Runs.Store.Checkpoints.{write_once, write_once_retried, load}
use aws_foundations.Runs.Store.Isolation.{SameRows, others-SameRows}
use aws_foundations.Runs.Store.Reviews.{Settled, resolve_reviews-exact, resolve_reviews_again}

abbrev done_run : Run
done_run = record {
  tenant_id = "acme";
  user_id = "ada";
  run_id = "run-1";
  request = record { source_ref = "."; environments = []; audience = "beginner" };
  status = completed;
  reason = none;
  resumable = false;
  generation = 1;
  version = 4;
  result_ref = some "result";
  created_at = 10;
  updated_at = 20;
  details = [];
}

abbrev late_start : Changes
late_start = record no_changes { status = some running; generation = some 1 }

abbrev older : Changes
older = record no_changes { status = some failed; generation = some 0 }

abbrev resumed : Changes
resumed = record no_changes { status = some queued; generation = some 2 }

working : Unit {0}
unfolding merge_run overlay is_final is_active apply apply_all update_run attempts attempt settle
    conditional_put write_back others_only select update insert after after_all caller create_run
    put_checkpoint get_checkpoint
working = tt

late_start_is_refused : merge_run done_run late_start ≡ none
unfolding working
late_start_is_refused = refl

-- what the accepted merge stores
abbrev requeued : Run
requeued = record done_run { status = queued; generation = 2; version = 5 }

merge_run-accepted_example :
    (requeued.version ≡ done_run.version + 1)
    × (1 ≤ 2)
    × (requeued.tenant_id ≡ "acme")
    × (requeued.user_id ≡ "ada")
    × (requeued.run_id ≡ "run-1")
    × (requeued.request ≡ done_run.request)
    × (requeued.created_at ≡ 10)
merge_run-accepted_example = merge_run-accepted done_run requeued resumed (unfold working in refl)

final_outcome_stays_example :
    (is_final (apply_all done_run (late_start ∷ older ∷ [])).status ≡ true)
    × ((apply_all done_run (late_start ∷ older ∷ [])).generation ≡ 1)
final_outcome_stays_example =
    final_outcome_stays done_run (late_start ∷ older ∷ []) (unfold is_final in refl)
      (omega arith, (omega arith, tt))

apply_all-monotone_example :
    (1 ≤ (apply_all done_run (resumed ∷ older ∷ [])).generation)
    × (4 ≤ (apply_all done_run (resumed ∷ older ∷ [])).version)
apply_all-monotone_example = apply_all-monotone done_run (resumed ∷ older ∷ [])

abbrev idle : Item → Item
idle item = item

abbrev touch : Item → Item
touch none = none
touch (some run) = some (record run { version = run.version + 1 })

touch-Versioned :
    (current stored : Run)
    → touch (some current) ≡ some stored
    → stored.version ≡ current.version
    → stored ≡ current
touch-Versioned current stored touched same = absurd (ground arith)

idle-Versioned :
    (current stored : Run)
    → idle (some current) ≡ some stored
    → stored.version ≡ current.version
    → stored ≡ current
idle-Versioned current stored kept same = ground arith

abbrev one_conflict : Rounds
one_conflict = record {
  first_round = touch;
  second_round = idle;
  third_round = idle;
  fourth_round = idle;
  fifth_round = idle;
}

abbrev five_conflicts : Rounds
five_conflicts = record {
  first_round = touch;
  second_round = touch;
  third_round = touch;
  fourth_round = touch;
  fifth_round = touch;
}

abbrev requeued_second : Run
requeued_second = record requeued { version = 6 }

update_run_loses_nothing_example :
    TookEffect resumed (five one_conflict) (some done_run) requeued_second (some requeued_second)
update_run_loses_nothing_example =
    update_run_loses_nothing resumed one_conflict (some done_run) (some requeued_second)
      requeued_second
      (touch-Versioned, (idle-Versioned, (idle-Versioned, (idle-Versioned, (idle-Versioned, tt)))))
      (unfold working in refl)

update_run_raised_example :
    some (record done_run { version = 9 }) ≡ others_only (five five_conflicts) (some done_run)
update_run_raised_example =
    update_run_raised resumed five_conflicts (some done_run)
      (some (record done_run { version = 9 })) (unfold working in refl)

write_once_retried_example :
    let (r, s') = write_once "acme" "run-1/scan" null empty in
    (stored : Value) × (r ≡ ok stored)
    × ((ws : List Write) (body' : Value)
        → (write_once "acme" "run-1/scan" body' (after_all ws s')).0 ≡ ok stored)
    × ((ws : List Write) → load "acme" "run-1/scan" (after_all ws s') ≡ ok stored)
write_once_retried_example = write_once_retried "acme" "run-1/scan" null empty

abbrev open_review : Review
open_review = record {
  tenant_id = "acme";
  review_id = "review-1";
  run_id = "run-1";
  generation = 0;
  step = "scan";
  error = "DetectorDefect";
  reason = "crashed";
  disposition = "human_review";
  is_open = true;
  resolved_by_generation = none;
  resolved_at = none;
  created_at = 5;
}

abbrev in_review : State
in_review = after (put_review_call open_review) empty

others-SameRows_example : SameRows "acme" in_review (
    after_all
      (put_checkpoint_call "other" "k" null
        ∷ create_run_call (record done_run { tenant_id = "other" })
        ∷ [])
      in_review)
others-SameRows_example =
    others-SameRows
      (put_checkpoint_call "other" "k" null
        ∷ create_run_call (record done_run { tenant_id = "other" })
        ∷ [])
      "acme" in_review (unfold working in (refl, (refl, tt)))

resolve_reviews-exact_example :
    Settled "acme" "run-1" "scan" 1 30
      ("acme", "review-1")
      (select ("acme", "review-1") in_review.reviews)
      (select ("acme", "review-1") (resolve_reviews "acme" "run-1" "scan" 1 30 in_review).1.reviews)
resolve_reviews-exact_example =
    resolve_reviews-exact "acme" "run-1" "scan" 1 30 ("acme", "review-1") in_review

resolve_reviews_again_example :
    (resolve_reviews "acme" "run-1" "scan" 1 40
      (resolve_reviews "acme" "run-1" "scan" 1 40 in_review).1).0
    ≡ 0
resolve_reviews_again_example = resolve_reviews_again "acme" "run-1" "scan" 1 40 in_review
