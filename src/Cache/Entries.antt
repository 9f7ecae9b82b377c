-- ===== src/Cache/Entries.antt =====
-- Entries of the cache are written once.
use aws_foundations.Base.{◌≡◌, true, List, [], ◌∷◌, some, String, arith, eq_iff}
use aws_foundations.Base.Json.{Value}
use aws_foundations.Base.Table.{select, insert, pair_key, select-insert_present}
use aws_foundations.Cache.{
  Cache, get, put, memory_acquire, acquire, hosted_acquire, release, memory_release, Call, put_call,
  memory_acquire_call, acquire_call, hosted_acquire_call, release_call, memory_release_call, after,
  after_all,
}

after-get :
    (x : Call) (tenant key : String) (value : Value) (c : Cache)
    → get tenant key c ≡ some value
    → get tenant key (after x c) ≡ some value
unfolding after get put memory_acquire acquire hosted_acquire release memory_release
after-get (put_call t k v) tenant key value c h =
    select-insert_present (t, k) (tenant, key) v value c.values h
after-get (memory_acquire_call t k o ttl now later) tenant key value c h = ground arith
after-get (acquire_call t k o ttl now) tenant key value c h = ground arith
after-get (hosted_acquire_call t k o ttl now) tenant key value c h = ground arith
after-get (release_call t k o) tenant key value c h = ground arith
after-get (memory_release_call t k o) tenant key value c h = ground arith

after_all-get :
    (xs : List Call) (tenant key : String) (value : Value) (c : Cache)
    → get tenant key c ≡ some value
    → get tenant key (after_all xs c) ≡ some value
unfolding after_all
after_all-get [] tenant key value c h = h
after_all-get (x ∷ xs) tenant key value c h =
    after_all-get xs tenant key value (after x c) (after-get x tenant key value c h)

put-get :
    (tenant key : String) (value : Value) (c : Cache)
    → (put tenant key value c).0 ≡ true
    → get tenant key (put tenant key value c).1 ≡ some value
unfolding put get insert select
put-get tenant key value c h = ground (arith, eq_iff tenant tenant, eq_iff key key)

-- An entry whose `put` was accepted is what every later `get` of its key returns, whatever calls of
-- any tenant come between: a second `put` of it does not replace it.
pub put-stays :
    (tenant key : String) (value : Value) (xs : List Call) (c : Cache)
    → (put tenant key value c).0 ≡ true
    → get tenant key (after_all xs (put tenant key value c).1) ≡ some value
put-stays tenant key value xs c h =
    after_all-get xs tenant key value (put tenant key value c).1 (put-get tenant key value c h)
