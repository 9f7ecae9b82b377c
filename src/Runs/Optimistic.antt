-- ===== src/Runs/Optimistic.antt =====
-- `AwsPipelineState.update_run`: optimistic concurrency on the record version. DynamoDB's conditional
-- put is one atomic step that succeeds exactly if the stored version is the one that was read; other
-- writers act between the read and the put.
use aws_foundations.Base.{
  ℕ, ◌==◌, ◌≡◌, refl, ◌⊎◌, Bool, true, false, List, [], ◌∷◌, Option, none, some, Result, ok, raised,
  arith, if◌then◌else◌, Option-cases, inl, inr, Bool-cases, ==→eq, All, subst,
}
use aws_foundations.Runs.{Run, Changes, merge_run}

-- The item of one run in the table.
abbrev pub Item : Type 0
Item = Option Run

-- put_item with ConditionExpression "version = :version"
unfoldable pub conditional_put : ℕ → Run → Item → Bool × Item
conditional_put version merged none = (false, none)
conditional_put version merged (some stored) =
    if stored.version == version then (true, some merged) else (false, some stored)

-- What one attempt leaves: a reply, or the need to try again, beside the item.
pub data Attempt : Type 0 where
  replied : Option Run → Attempt
  conflict : Attempt

unfoldable pub write_back : Bool × Item → Run → Attempt × Item
write_back (true, item) merged = (replied (some merged), item)
write_back (false, item) merged = (conflict, item)

-- `others` is what the other writers do between the read and the put.
unfoldable pub attempt : Changes → (Item → Item) → Item → Attempt × Item
attempt changes others none = (replied none, others none)
attempt changes others (some current) = elim (merge_run current changes) [
  | none ↦ (replied none, others (some current))
  | some merged ↦ write_back (conditional_put current.version merged (others (some current))) merged
]

abbrev pub Reply : Type 0
Reply = Result (Unit {0}) (Option Run) × Item

unfoldable pub settle : Attempt × Item → (Item → Reply) → Reply
settle (replied r, item) again = (ok r, item)
settle (conflict, item) again = again item

-- The rounds that are left, with what the other writers do in each; at the end of them
-- `StateUnavailable` is raised.
unfoldable pub attempts : Changes → List (Item → Item) → Item → Reply
attempts changes [] item = (raised tt, item)
attempts changes (others ∷ rest) item = settle (attempt changes others item) (attempts changes rest)

-- `for _ in range(5)`: the other writers' moves in each of the five rounds
pub record Rounds : Type 0 where
  pub first_round : Item → Item
  pub second_round : Item → Item
  pub third_round : Item → Item
  pub fourth_round : Item → Item
  pub fifth_round : Item → Item

abbrev pub five : Rounds → List (Item → Item)
five r = r.first_round ∷ r.second_round ∷ r.third_round ∷ r.fourth_round ∷ r.fifth_round ∷ []

unfoldable pub update_run : Changes → Rounds → Item → Reply
update_run changes rounds = attempts changes (five rounds)

-- The other writers keep to the protocol: whoever changes the record gives it another version.
abbrev pub Versioned : (Item → Item) → Type 0
Versioned others =
    (current stored : Run)
    → others (some current) ≡ some stored
    → stored.version ≡ current.version
    → stored ≡ current

-- `At rounds item stored`: what the table holds when some round's put arrives.
pub data At : List (Item → Item) → Item → Item → Type 0 where
  now :
      {others : Item → Item} {rest : List (Item → Item)} {item : Item}
      → At (others ∷ rest) item (others item)
  later :
      {others : Item → Item} {rest : List (Item → Item)} {item stored : Item}
      → At rest (others item) stored
      → At (others ∷ rest) item stored

-- What the other writers alone make of the item.
unfoldable pub others_only : List (Item → Item) → Item → Item
others_only [] item = item
others_only (others ∷ rest) item = others_only rest (others item)

-- The write of one round merges into what it replaces.
record Wrote (changes : Changes) (others : Item → Item) (item : Item) (merged : Run) (left : Item)
    : Type 0 where
  stored : Run
  found : others item ≡ some stored
  merging : merge_run stored changes ≡ some merged
  written : left ≡ some merged

attempt-Wrote :
    (changes : Changes) (others : Item → Item) (item left : Item) (merged : Run)
    → Versioned others
    → attempt changes others item ≡ (replied (some merged), left)
    → Wrote changes others item merged left
unfolding attempt conditional_put write_back
attempt-Wrote changes others none left merged honest h = absurd (ground arith)
attempt-Wrote changes others (some current) left merged honest h =
    elim (Option-cases (merge_run current changes)) [
      | inl refused ↦ absurd (ground arith)
      | inr (merged', m) ↦ elim (Option-cases (others (some current))) [
        | inl gone ↦ absurd (ground arith)
        | inr (stored, f) ↦ elim (Bool-cases (stored.version == current.version)) [
          | inr moved ↦ absurd (ground arith)
          | inl same ↦
              let unchanged = honest current stored f (==→eq stored.version current.version same) in
              record {
                stored = stored;
                found = f;
                merging = rw unchanged (ground arith);
                written = ground arith;
              }
        ]
      ]
    ]

attempt-conflict :
    (changes : Changes) (others : Item → Item) (item left : Item)
    → attempt changes others item ≡ (conflict, left)
    → left ≡ others item
unfolding attempt conditional_put write_back
attempt-conflict changes others none left h = absurd (ground arith)
attempt-conflict changes others (some current) left h =
    elim (Option-cases (merge_run current changes)) [
      | inl refused ↦ absurd (ground arith)
      | inr (merged, m) ↦ elim (Option-cases (others (some current))) [
        | inl gone ↦ ground arith
        | inr (stored, f) ↦ ground arith
      ]
    ]

settle-ok :
    (r : Attempt × Item) (again : Item → Reply) (merged : Run) (left : Item)
    → settle r again ≡ (ok (some merged), left)
    → (r ≡ (replied (some merged), left))
      ⊎ ((item : Item) × (r ≡ (conflict, item)) × (again item ≡ (ok (some merged), left)))
unfolding settle
settle-ok (replied o, item) again merged left h = inl (ground arith)
settle-ok (conflict, item) again merged left h = inr (item, refl, h)

settle-raised :
    (r : Attempt × Item) (again : Item → Reply) (left : Item)
    → settle r again ≡ (raised tt, left)
    → (item : Item) × (r ≡ (conflict, item)) × (again item ≡ (raised tt, left))
unfolding settle
settle-raised (replied o, item) again left h = absurd (ground arith)
settle-raised (conflict, item) again left h = (item, refl, h)

-- An update that took effect: what it wrote is the merge of its changes into what stood there.
pub record TookEffect (changes : Changes) (rounds : List (Item → Item)) (item : Item) (merged : Run)
    (left : Item) : Type 0 where
  pub stored : Run
  pub held : At rounds item (some stored)
  pub merging : merge_run stored changes ≡ some merged
  pub written : left ≡ some merged

attempts-TookEffect :
    (changes : Changes) (rounds : List (Item → Item)) (item left : Item) (merged : Run)
    → All Versioned rounds
    → attempts changes rounds item ≡ (ok (some merged), left)
    → TookEffect changes rounds item merged left
unfolding attempts
attempts-TookEffect changes [] item left merged honest h = absurd (ground arith)
attempts-TookEffect changes (others ∷ rest) item left merged (honest, all_honest) h =
    elim (settle-ok (attempt changes others item) (attempts changes rest) merged left h) [
      | inl done ↦
          let w : Wrote changes others item merged left =
            attempt-Wrote changes others item left merged honest done in
          record {
            stored = w.stored;
            held = subst (At (others ∷ rest) item) w.found now;
            merging = w.merging;
            written = w.written;
          }
      | inr (item', failed, again) ↦
          let t : TookEffect changes rest item' merged left =
            attempts-TookEffect changes rest item' left merged all_honest again in
          record {
            stored = t.stored;
            held = later (
                subst (λ i. At rest i (some t.stored))
                  (attempt-conflict changes others item item' failed) t.held);
            merging = t.merging;
            written = t.written;
          }
    ]

-- If the other writers keep to the protocol, an update that returns a record has lost nobody's
-- update: at some round the table held a record whose merge with the changes is what was written.
pub update_run_loses_nothing :
    (changes : Changes) (rounds : Rounds) (item left : Item) (merged : Run)
    → All Versioned (five rounds)
    → update_run changes rounds item ≡ (ok (some merged), left)
    → TookEffect changes (five rounds) item merged left
unfolding update_run
update_run_loses_nothing changes rounds item left merged honest h =
    attempts-TookEffect changes (five rounds) item left merged honest h

attempts-raised :
    (changes : Changes) (rounds : List (Item → Item)) (item left : Item)
    → attempts changes rounds item ≡ (raised tt, left)
    → left ≡ others_only rounds item
unfolding attempts others_only
attempts-raised changes [] item left h = ground arith
attempts-raised changes (others ∷ rest) item left h =
    let (item', failed, again) =
      settle-raised (attempt changes others item) (attempts changes rest) left h in
    subst (λ i. left ≡ others_only rest i) (attempt-conflict changes others item item' failed)
      (attempts-raised changes rest item' left again)

-- An update that raises `StateUnavailable` has written nothing: the table is as the other writers
-- left it.
pub update_run_raised :
    (changes : Changes) (rounds : Rounds) (item left : Item)
    → update_run changes rounds item ≡ (raised tt, left)
    → left ≡ others_only (five rounds) item
unfolding update_run
update_run_raised changes rounds item left h = attempts-raised changes (five rounds) item left h
