-- ===== src/StateMachine/Iterations.antt =====
-- The results of a map in agent/orchestration/asl.py.
use aws_foundations.Base.{
  ℕ, suc, ◌≡◌, refl, sym, ap, ◌∙◌, List, [], ◌∷◌, map, Option, none, some, String, subst, Result,
  ok, raised, >>=-eq-ok, ok-injective, false, str_eq, eq_iff, arith, if◌then◌else◌,
}
use aws_foundations.Base.Int.{pos}
use aws_foundations.Base.Json.{
  Value, num, arr, obj, Items, items, Fields, field, end, get, to_items,
}
use aws_foundations.Base.Dicts.{get-put, get-put_ne}
use aws_foundations.StateMachine.Paths.{StatesError, JsonPath, Template, resolve, select}
use aws_foundations.StateMachine.Handlers.{Stop, failed, unknown_state, unfinished}
use aws_foundations.StateMachine.Definition.{Machine}
use aws_foundations.StateMachine.Attempts.{
  lift, without, item_context, item_payload, after_failure, collect, Runner, iterations, as_array,
  run_map,
}

after_failure-raises :
    (error : StatesError) (m : Result Stop (List Value)) (vs : List Value)
    → after_failure error m ≡ ok vs
    → ⊥
unfolding after_failure
after_failure-raises error (ok ws) vs h = cc
after_failure-raises error (raised (failed other)) vs h = cc
after_failure-raises error (raised unknown_state) vs h = cc
after_failure-raises error (raised unfinished) vs h = cc

-- Results are collected in their order, all of them.
collect-eq-map :
    (rs : List (Result Stop Value)) (vs : List Value) → collect rs ≡ ok vs → rs ≡ map ok vs
unfolding collect
collect-eq-map [] vs h =
    subst (λ ws. ◌≡◌ {A = List (Result Stop Value)} [] (map ok ws)) (ok-injective h) refl
collect-eq-map (ok v ∷ rs) vs h =
    let (ws, e, k) = >>=-eq-ok (collect rs) _ h in
    subst (λ us. ok v ∷ rs ≡ map ok us) (ok-injective k)
      (ap (λ (r : List (Result Stop Value)). ok v ∷ r) (collect-eq-map rs ws e))
collect-eq-map (raised (failed error) ∷ rs) vs h =
    absurd (after_failure-raises error (collect rs) vs h)
collect-eq-map (raised _ ∷ rs) vs h = cc

get-without :
    (j k : String) (fs : Fields) → get j (without k fs) ≡ (if str_eq k j then none else get j fs)
unfolding get without
get-without j k end = ground arith
get-without j k (field i v fs) =
    ground (arith, get-without j k fs, eq_iff i k, eq_iff i j, eq_iff k j)

lift-eq-ok : {A : Type 0} (r : Result StatesError A) (a : A) → lift r ≡ ok a → r ≡ ok a
lift-eq-ok (ok b) a h = ap ok (ok-injective h)
lift-eq-ok (raised e) a h = cc

-- What the context of an iteration is: the index and the item, no state, and else as outside.
pub record IsItemContext (index : ℕ) (item : Value) (ctx own : Fields) : Type 0 where
  pub map_entry :
      get "Map" own
      ≡ some
          (obj (field "Item" (obj (field "Index" (num (pos index)) (field "Value" item end))) end))
  pub no_state : get "State" own ≡ none
  pub others :
      (k : String) → str_eq "Map" k ≡ false → str_eq "State" k ≡ false → get k own ≡ get k ctx

item_context-IsItemContext :
    (index : ℕ) (item : Value) (ctx : Fields)
    → IsItemContext index item ctx (item_context index item ctx)
unfolding item_context
item_context-IsItemContext index item ctx = record {
  map_entry = rw (get-without "Map" "State" _) (get-put "Map" _ ctx);
  no_state = rw (get-without "State" "State" _) refl;
  others = λ k map' state. rw (get-without k "State" _, state) (get-put_ne "Map" k _ ctx map');
}

module _ (go : Runner) (m : Machine) (selector : Option Template) (data' : Value) (ctx : Fields)
    (place : List ℕ) where
  -- The input of an iteration: the item, or what the selector makes in its context.
  abbrev pub IsPayload : Option Template → Value → Fields → Value → Type 0
  IsPayload none item own payload = payload ≡ item
  IsPayload (some template) item own payload = resolve template data' own ≡ ok payload

  -- A result is the output of the item's own run.
  pub record IsResult (index : ℕ) (item result : Value) : Type 0 where
    pub own : Fields
    pub payload : Value
    pub is_context : IsItemContext index item ctx own
    pub is_payload : IsPayload selector item own payload
    pub ran : go m payload own (index ∷ place) ≡ ok result

  -- As many results as items, each that of the item at its place.
  abbrev pub AreResults : ℕ → List Value → List Value → Type 0
  AreResults index [] [] = Unit {0}
  AreResults index (item ∷ rest) (result ∷ results) =
      IsResult index item result × AreResults (suc index) rest results
  AreResults index _ _ = ⊥

  item_payload-IsPayload :
      (chosen : Option Template) (item : Value) (own : Fields) (payload : Value)
      → item_payload chosen data' item own ≡ ok payload
      → IsPayload chosen item own payload
  item_payload-IsPayload none item own payload h = sym (ok-injective h)
  item_payload-IsPayload (some template) item own payload h = h

  iterations-AreResults :
      (index : ℕ) (vs results : List Value)
      → iterations go m selector data' ctx place index vs ≡ map ok results
      → AreResults index vs results
  unfolding iterations
  iterations-AreResults index [] [] h = tt
  iterations-AreResults index [] (result ∷ results) h = cc
  iterations-AreResults index (item ∷ rest) [] h = cc
  iterations-AreResults index (item ∷ rest) (result ∷ results) h =
      let own = item_context index item ctx in
      let (payload, p, ran) =
        >>=-eq-ok (lift (item_payload selector data' item own))
          (λ payload. go m payload own (index ∷ place)) (cc h) in
      (
        record {
          own = own;
          payload = payload;
          is_context = item_context-IsItemContext index item ctx;
          is_payload = item_payload-IsPayload selector item own payload (lift-eq-ok _ payload p);
          ran = ran;
        },
        iterations-AreResults (suc index) rest results (cc h),
      )

as_array-eq-ok :
    (found : Value) (vs : List Value)
    → as_array found ≡ ok vs
    → (values : Items) × (found ≡ arr values) × (vs ≡ items values)
as_array-eq-ok (arr values) vs h = (values, refl, sym (ok-injective h))
as_array-eq-ok _ vs h = cc

-- A map that returns had an array of items, and returns an array with as many results as there are
-- items, in their order: each is what the run of the map's machine returned for the item at that
-- place, on the item itself or on what the selector makes of the data, in a context that has the
-- item and its index under "Map", no "State", and everything else of the context outside.
pub run_map-results :
    (go : Runner) (items_path : Option JsonPath) (selector : Option Template) (m : Machine)
    (data' : Value) (ctx : Fields) (place : List ℕ) (out : Value)
    → run_map go items_path selector m data' ctx place ≡ ok out
    → (values : Items) × (results : List Value) × (select data' items_path ctx ≡ ok (arr values))
      × (out ≡ arr (to_items results))
      × AreResults go m selector data' ctx place 0 (items values) results
unfolding run_map
run_map-results go items_path selector m data' ctx place out h =
    let (found, f, h1) = >>=-eq-ok (lift (select data' items_path ctx)) _ h in
    let (vs, v, h2) = >>=-eq-ok (lift (as_array found)) _ h1 in
    let (results, c, h3) =
      >>=-eq-ok (collect (iterations go m selector data' ctx place 0 vs)) _ h2 in
    let (values, is_array, are_items) = as_array-eq-ok found vs (lift-eq-ok _ vs v) in
    (
      values,
      results,
      lift-eq-ok _ _ f ∙ ap ok is_array,
      sym (ok-injective h3),
      subst (λ ws. AreResults go m selector data' ctx place 0 ws results) are_items
          (iterations-AreResults go m selector data' ctx place 0 vs results
            (collect-eq-map _ results c)),
    )
