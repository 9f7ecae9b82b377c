-- ===== src/StateMachine/Results.antt =====
-- Result paths of agent/orchestration/asl.py: what is written can be read back.
use aws_foundations.Base.{
  ◌≡◌, ◌∙◌, false, List, [], ◌∷◌, some, String, subst, ok, >>=-eq-ok, ok-injective, str_eq, arith,
}
use aws_foundations.Base.Json.{Value, obj, Fields, get}
use aws_foundations.Base.Dicts.{put, get-put, get-put_ne}
use aws_foundations.StateMachine.Paths.{
  input, read_parts, read_path, at, child_of, as_object, set_at, apply_result_path,
}

read_parts_step :
    (p : String) (ps : List String) (d : Fields) (v : Value)
    → get p d ≡ some v
    → read_parts (p ∷ ps) (obj d) ≡ read_parts ps v
unfolding read_parts
read_parts_step p ps d v h = ground arith

-- Objects with the same value at a key are read alike below it.
read_parts_alike :
    (k : String) (ks : List String) (d e : Fields)
    → get k d ≡ get k e
    → read_parts (k ∷ ks) (obj d) ≡ read_parts (k ∷ ks) (obj e)
unfolding read_parts
read_parts_alike k ks d e h = ground arith

read_parts-set_at :
    (p : String) (ps : List String) (result : Value) (d out : Fields)
    → set_at (p ∷ ps) result d ≡ ok out
    → read_parts (p ∷ ps) (obj out) ≡ some result
unfolding set_at read_parts
read_parts-set_at p [] result d out h =
    subst (λ o. read_parts (p ∷ []) (obj o) ≡ some result) (ok-injective h)
      (read_parts_step p [] (put p result d) result (get-put p result d))
read_parts-set_at p (q ∷ ps) result d out h =
    let (child, c, h1) = >>=-eq-ok (as_object (child_of (get p d))) _ h in
    let (inner, i, h2) = >>=-eq-ok (set_at (q ∷ ps) result child) _ h1 in
    subst (λ o. read_parts (p ∷ q ∷ ps) (obj o) ≡ some result) (ok-injective h2)
      (read_parts_step p (q ∷ ps) (put p (obj inner) d) (obj inner) (get-put p (obj inner) d)
        ∙ read_parts-set_at q ps result child inner i)

get-set_at :
    (p : String) (ps : List String) (result : Value) (d out : Fields) (k : String)
    → set_at (p ∷ ps) result d ≡ ok out
    → str_eq p k ≡ false
    → get k out ≡ get k d
unfolding set_at
get-set_at p [] result d out k h other =
    subst (λ o. get k o ≡ get k d) (ok-injective h) (get-put_ne p k result d other)
get-set_at p (q ∷ ps) result d out k h other =
    let (child, c, h1) = >>=-eq-ok (as_object (child_of (get p d))) _ h in
    let (inner, i, h2) = >>=-eq-ok (set_at (q ∷ ps) result child) _ h1 in
    subst (λ o. get k o ≡ get k d) (ok-injective h2) (get-put_ne p k (obj inner) d other)

-- What is put at a result path is what the path then reads, and any path that begins with another
-- key reads what it read before.
pub read_path-apply_result_path :
    (p : String) (ps : List String) (raw result out : Value) (ctx : Fields) (k : String)
    (ks : List String)
    → apply_result_path raw result (at (p ∷ ps)) ≡ ok out
    → str_eq p k ≡ false
    → (read_path (input (p ∷ ps)) out ctx ≡ some result)
      × (read_path (input (k ∷ ks)) out ctx ≡ read_path (input (k ∷ ks)) raw ctx)
unfolding apply_result_path read_path read_parts
read_path-apply_result_path p ps (obj d) result out ctx k ks h other =
    let (changed, c, h1) = >>=-eq-ok (set_at (p ∷ ps) result d) _ h in
    subst
      (λ o.
        (read_path (input (p ∷ ps)) o ctx ≡ some result)
        × (read_path (input (k ∷ ks)) o ctx ≡ read_path (input (k ∷ ks)) (obj d) ctx))
      (ok-injective h1)
      (
        read_parts-set_at p ps result d changed c,
        read_parts_alike k ks changed d (get-set_at p ps result d changed k c other),
      )
read_path-apply_result_path p ps _ result out ctx k ks h other = cc
