-- ===== src/LeastPrivilege/Removed.antt =====
-- What agent/least_privilege.py reports as removed, in the words of the two documents.
use aws_foundations.Base.{
  is_empty, ℕ, ◌≡◌, ◌≢◌, ◌⊎◌, refl, sym, Bool, true, false, not, ◌&&◌, List, [], ◌∷◌, String, ok,
  >>=-eq-ok, ok-injective, Bool-cases, inl, inr, subst, arith, Any, first, later, Any-map, All, any,
  keep_if, one_of, codes, text_eq, text_eq_refl, str_eq, str_eq_refl,
}
use aws_foundations.Base.Json.{Fields}
use aws_foundations.Base.Sorting.{place, sorted_set}
use aws_foundations.LeastPrivilege.Documents.{action_values, resource_values, contains_placeholder}
use aws_foundations.LeastPrivilege.Candidates.{in_lower}
use aws_foundations.LeastPrivilege.Narrow.{Narrowing, compared}

-- Some action of the policy is, but for letter case, none of the candidate's, or some resource of it
-- is none of the candidate's.
pub record Removes (lower : List ℕ → List ℕ) (before candidate : Fields) : Type 0 where
  pub old_actions : List String
  pub new_actions : List String
  pub old_resources : List String
  pub new_resources : List String
  pub actions_before : action_values before ≡ ok old_actions
  pub actions_after : action_values candidate ≡ ok new_actions
  pub resources_before : resource_values before ≡ ok old_resources
  pub resources_after : resource_values candidate ≡ ok new_resources
  pub gone :
      Any (λ a. All (λ b. lower (codes a) ≢ lower (codes b)) new_actions) old_actions
      ⊎ Any (λ r. All (λ q. r ≢ q) new_resources) old_resources

is_empty-place : (x : String) (ys : List String) → is_empty (place x ys) ≡ false
unfolding place
is_empty-place x [] = refl
is_empty-place x (y ∷ ys) = ground arith

is_empty-sorted_set : (xs : List String) → is_empty (sorted_set xs) ≡ is_empty xs
unfolding sorted_set
is_empty-sorted_set [] = refl
is_empty-sorted_set (x ∷ xs) = is_empty-place x (sorted_set xs)

keep_if-Any :
    (p : String → Bool) (xs : List String)
    → is_empty (keep_if p xs) ≡ false
    → Any (λ x. p x ≡ true) xs
unfolding keep_if
keep_if-Any p [] h = cc
keep_if-Any p (x ∷ xs) h = elim (Bool-cases (p x)) [
  | inl hit ↦ first hit
  | inr miss ↦ later (keep_if-Any p xs (rw miss at h))
]

-- What is in no element of a list is different from each.
absent-All :
    {P : String → Type 0} (p : String → Bool) (xs : List String)
    → ((x : String) → p x ≡ false → P x)
    → any p xs ≡ false
    → All P xs
unfolding any
absent-All p [] f h = tt
absent-All p (x ∷ xs) f h = (f x (ground arith), absent-All p xs f (ground arith))

in_lower-absent :
    (lower : List ℕ → List ℕ) (values : List String) (a : String)
    → not (in_lower lower values a) ≡ true
    → All (λ b. lower (codes a) ≢ lower (codes b)) values
unfolding in_lower
in_lower-absent lower values a h =
    absent-All (λ b. text_eq (lower (codes a)) (lower (codes b))) values
      (λ b miss same. cc (
        subst (λ t. text_eq (lower (codes a)) t ≡ true) same (text_eq_refl (lower (codes a))),
        miss,
      ))
      (ground arith)

one_of-absent :
    (values : List String) (r : String) → not (one_of r values) ≡ true → All (λ q. r ≢ q) values
unfolding one_of
one_of-absent [] r h = tt
one_of-absent (q ∷ qs) r h = (
  λ same. let own = subst (λ t. str_eq r t ≡ true) same (str_eq_refl r) in absurd (ground arith),
  one_of-absent qs r (ground arith),
)

-- If the report has something as removed, the candidate lacks it.
pub compared-Removes :
    (lower : List ℕ → List ℕ) (before candidate : Fields) (proof : Narrowing)
    → compared lower before candidate ≡ ok proof
    → (is_empty proof.removed_actions && is_empty proof.removed_resources) ≡ false
    → Removes lower before candidate
unfolding compared
compared-Removes lower before candidate proof h some_gone =
    let (old_actions, oa, h1) = >>=-eq-ok (action_values before) _ h in
    let (new_actions, na, h2) = >>=-eq-ok (action_values candidate) _ h1 in
    let (old_resources, olds, h3) = >>=-eq-ok (resource_values before) _ h2 in
    let (new_resources, news, h4) = >>=-eq-ok (resource_values candidate) _ h3 in
    let (n, counted, h5) = >>=-eq-ok (contains_placeholder candidate) _ h4 in
    let actions = keep_if (λ a. not (in_lower lower new_actions a)) old_actions in
    let resources = keep_if (λ r. not (one_of r new_resources)) old_resources in
    let there : (is_empty (sorted_set actions) && is_empty (sorted_set resources)) ≡ false =
      subst
        (λ (q : Narrowing). (is_empty q.removed_actions && is_empty q.removed_resources) ≡ false)
        (sym (ok-injective h5)) some_gone in
    record {
      old_actions = old_actions;
      new_actions = new_actions;
      old_resources = old_resources;
      new_resources = new_resources;
      actions_before = oa;
      actions_after = na;
      resources_before = olds;
      resources_after = news;
      gone = elim (Bool-cases (is_empty actions)) [
        | inr found ↦
            inl (Any-map (in_lower-absent lower new_actions) (keep_if-Any _ old_actions found))
        | inl nothing ↦
            let left : is_empty resources ≡ false =
              ground (arith, is_empty-sorted_set actions, is_empty-sorted_set resources) in
            inr (Any-map (one_of-absent new_resources) (keep_if-Any _ old_resources left))
      ];
    }
