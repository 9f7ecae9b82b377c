-- ===== src/StateMachine/Bounds.antt =====
-- The payload limit of agent/orchestration/asl.py.
use aws_foundations.Base.{
  ℕ, ◌≤◌, ◌≡◌, List, String, ok, raise_if, refl, subst, >>=-eq-ok, ok-injective, ltb, true, false,
  Bool, arith,
}
use aws_foundations.Base.Json.{Value}
use aws_foundations.StateMachine.Paths.{StatesError}
use aws_foundations.StateMachine.Attempts.{
  Reply, returned, timed_out, threw, World, payload_limit, answered, invoke,
}

answered-returned : (r : Reply) (v : Value) → answered r ≡ ok v → r ≡ returned v
answered-returned (returned w) v h = cc
answered-returned timed_out v h = cc
answered-returned (threw name report) v h = cc

ltb→ge : (a b : ℕ) → ltb a b ≡ false → b ≤ a
ltb→ge a b h = ground arith

raise_if-eq_false :
    (b : Bool) (error : StatesError) {t : Unit} → raise_if b error ≡ ok t → b ≡ false
raise_if-eq_false true error h = cc
raise_if-eq_false false error h = refl

-- A task that succeeds had an input within the payload limit, and its output is what the resource
-- returned, within the limit as well.
pub invoke-bounds :
    (world : World) (place : List ℕ) (resource : String) (payload result : Value)
    → invoke world place resource payload ≡ ok result
    → (world.size payload ≤ payload_limit)
      × (world.size result ≤ payload_limit)
      × (world.reply place resource payload ≡ returned result)
unfolding invoke
invoke-bounds world place resource payload result h =
    let (t1, small, h1) = >>=-eq-ok (raise_if (ltb payload_limit (world.size payload)) _) _ h in
    let (v, a, h2) = >>=-eq-ok (answered (world.reply place resource payload)) _ h1 in
    let (t2, fits, h3) = >>=-eq-ok (raise_if (ltb payload_limit (world.size v)) _) _ h2 in
    let e : v ≡ result = ok-injective h3 in
    let in_bound = raise_if-eq_false _ _ small in
    let out_bound : ltb payload_limit (world.size result) ≡ false =
      subst (λ w. ltb payload_limit (world.size w) ≡ false) e (raise_if-eq_false _ _ fits) in
    (ltb→ge _ _ in_bound, ltb→ge _ _ out_bound, cc (answered-returned _ v a, e))
