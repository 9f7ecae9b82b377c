-- ===== src/Base/Table.antt =====
-- A table with a primary key, as SQLite and DynamoDB hold it: an insert of a key that is present is
-- refused (`sqlite3.IntegrityError`, `attribute_not_exists`), and an update touches its row alone.
use Prim.Native.String.{String}
use text.Mathlib.Text.{◌==◌ as str_eq}
use text.Mathlib.TextEquality.{eq_iff}
use mathlib.Core.Path.{◌≡◌, refl, ap, subst}
use mathlib.Core.Logic.{◌↔◌, inl, inr}
use mathlib.Core.Bool.{Bool, true, false, ◌&&◌}
use mathlib.Core.Option.{Option, none, some}
use mathlib.Core.List.{List, [], ◌∷◌}
use native.Mathlib.Omega.{arith}
use aws_foundations.Base.Tests.{&&-eq_true, Option-cases, Bool-cases, if◌then◌else◌}

-- Equality of keys.
pub record Key {ℓ} (K : Type ℓ) : Type ℓ where
  pub same : K → K → Bool
  pub same_iff : (a b : K) → (same a b ≡ true) ↔ (a ≡ b)

pub same_pair :
    (a b c d : String)
    → ((str_eq a c && str_eq b d) ≡ true) ↔ (◌≡◌ {A = String × String} (a, b) (c, d))
same_pair a b c d = (
  λ h. cc (
    (eq_iff a c).0 (&&-eq_true (str_eq a c) (str_eq b d) h).0,
    (eq_iff b d).0 (&&-eq_true (str_eq a c) (str_eq b d) h).1,
  ),
  λ h. rw (
    (eq_iff a c).1 (ap (λ (p : String × String). p.0) h),
    (eq_iff b d).1 (ap (λ (p : String × String). p.1) h),
  ),
)

-- A key of two columns.
instance abbrev pub pair_key : Key (String × String)
pair_key = record {
  same = λ (a, b) (c, d). str_eq a c && str_eq b d;
  same_iff = λ (a, b) (c, d). same_pair a b c d;
}

pub same_triple :
    (p q : String × String) (a b : String)
    → ((pair_key.same p q && str_eq a b) ≡ true)
      ↔ (◌≡◌ {A = (String × String) × String} (p, a) (q, b))
same_triple p q a b = (
  λ h. cc (
    (pair_key.same_iff p q).0 (&&-eq_true (pair_key.same p q) (str_eq a b) h).0,
    (eq_iff a b).0 (&&-eq_true (pair_key.same p q) (str_eq a b) h).1,
  ),
  λ h. rw (
    (pair_key.same_iff p q).1 (ap (λ (r : (String × String) × String). r.0) h),
    (eq_iff a b).1 (ap (λ (r : (String × String) × String). r.1) h),
  ),
)

-- A key of two columns and a third.
instance abbrev pub triple_key : Key ((String × String) × String)
triple_key = record {
  same = λ (p, a) (q, b). pair_key.same p q && str_eq a b;
  same_iff = λ (p, a) (q, b). same_triple p q a b;
}

-- the value that is there, or else another
abbrev pub or_other {ℓ} : {A : Type ℓ} → Option A → Option A → Option A
or_other none other = other
or_other (some a) other = some a

abbrev pub Table : Type 0 → Type 0 → Type 0
Table K V = List (K × V)

pub same_refl : {K : Type 0} ⦃e : Key K⦄ (k : K) → e.same k k ≡ true
same_refl ⦃e⦄ k = (e.same_iff k k).1 refl

module _ {K V : Type 0} ⦃e : Key K⦄ where
  -- SELECT body WHERE key
  unfoldable pub select : K → Table K V → Option V
  select k [] = none
  select k ((j, v) ∷ t) = if e.same j k then some v else select k t

  -- UPDATE body WHERE key; a missing row stays missing
  unfoldable pub update : K → V → Table K V → Table K V
  update k v [] = []
  update k v ((j, w) ∷ t) = if e.same j k then (j, v) ∷ t else (j, w) ∷ update k v t

  -- INSERT; `false` is the integrity error
  unfoldable pub insert : K → V → Table K V → Bool × Table K V
  unfolding select
  insert k v t = elim (select k t) [ none ↦ (true, (k, v) ∷ t) | some _ ↦ (false, t) ]

  -- DELETE WHERE key
  unfoldable pub delete : K → Table K V → Table K V
  delete k [] = []
  delete k ((j, w) ∷ t) = let rest = delete k t in if e.same j k then rest else (j, w) ∷ rest

  pub select-update :
      (k j : K) (v : V) (t : Table K V)
      → select j (update k v t)
        ≡ (if e.same k j then elim (select k t) [ none ↦ none | some _ ↦ some v ] else select j t)
  unfolding select update
  select-update k j v [] = ground arith
  select-update k j v ((i, w) ∷ t) =
      ground (arith, e.same_iff k j, e.same_iff i k, e.same_iff i j, select-update k j v t)

  pub select-insert :
      (k j : K) (v : V) (t : Table K V)
      → select k t ≡ none
      → select j (insert k v t).1 ≡ (if e.same k j then some v else select j t)
  unfolding select insert
  select-insert k j v t h = rw (h, insert) refl

  pub select-delete :
      (k j : K) (t : Table K V) → select j (delete k t) ≡ (if e.same k j then none else select j t)
  unfolding select delete
  select-delete k j [] = ground arith
  select-delete k j ((i, w) ∷ t) =
      ground (arith, e.same_iff k j, e.same_iff i k, e.same_iff i j, select-delete k j t)

  -- A refused insert changes nothing, and an accepted one found its key free.
  pub insert_refused :
      (k : K) (v : V) (t : Table K V) → (insert k v t).0 ≡ false → (insert k v t).1 ≡ t
  unfolding insert
  insert_refused k v t h = ground arith

  pub insert_accepted :
      (k : K) (v : V) (t : Table K V) → (insert k v t).0 ≡ true → select k t ≡ none
  unfolding insert
  insert_accepted k v t h = ground arith

  pub insert_taken :
      (k : K) (v : V) {old : V} (t : Table K V) → select k t ≡ some old → insert k v t ≡ (false, t)
  unfolding insert
  insert_taken k v t h = rw (h, insert)

  -- A row that is there survives an insert, accepted or not.
  pub select-insert_present :
      (k j : K) (v w : V) (t : Table K V) → select j t ≡ some w → select j (insert k v t).1 ≡ some w
  select-insert_present k j v w t h = elim (Option-cases (select k t)) [
    | inr (old, taken) ↦ rw (insert_taken k v t taken) h
    | inl free ↦ elim (Bool-cases (e.same k j)) [
      | inr differs ↦ rw (select-insert k j v t free, differs) h
      | inl same ↦ cc (subst (λ i. select i t ≡ none) ((e.same_iff k j).0 same) free, h)
    ]
  ]

  pub select-insert_ne :
      (k j : K) (v : V) (t : Table K V)
      → e.same k j ≡ false
      → select j (insert k v t).1 ≡ select j t
  unfolding select insert
  select-insert_ne k j v t h = ground arith

  -- A row that was there is kept, and the inserted one is added where there was none.
  pub select-insert_or :
      (k j : K) (v : V) (t : Table K V)
      → select j (insert k v t).1 ≡ or_other (select j t) (if e.same k j then some v else none)
  select-insert_or k j v t = elim (Option-cases (select j t)) [
    | inr (old, taken) ↦ rw (select-insert_present k j v old t taken, taken) refl
    | inl free ↦ elim (Bool-cases (e.same k j)) [
      | inr differs ↦ rw (select-insert_ne k j v t differs, differs, free) refl
      | inl same ↦
          let free_k = subst (λ i. select i t ≡ none) (cc ((e.same_iff k j).0 same)) free in
          rw (select-insert k j v t free_k, same, free) refl
    ]
  ]

  -- After an insert, accepted or not, its key has a row.
  pub insert-present :
      (k : K) (v : V) (t : Table K V) → (w : V) × (select k (insert k v t).1 ≡ some w)
  insert-present k v t = elim (Option-cases (select k t)) [
    | inr (old, taken) ↦ (old, rw (insert_taken k v t taken) taken)
    | inl free ↦ (v, rw (select-insert k k v t free, same_refl k))
  ]

  pub insert_free :
      (k : K) (v : V) (t : Table K V) → select k t ≡ none → insert k v t ≡ (true, (k, v) ∷ t)
  unfolding insert
  insert_free k v t h = rw (h, insert)

  pub select_first : (k : K) (v : V) (t : Table K V) → select k ((k, v) ∷ t) ≡ some v
  unfolding select
  select_first k v t = rw (same_refl k)
