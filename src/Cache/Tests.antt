-- ===== src/Cache/Tests.antt =====
-- Leases and entries at concrete calls.
use aws_foundations.Base.{◌+◌, ◌*◌, false, ◌≡◌, ◌≢◌, ◌↔◌, refl, true, [], ◌∷◌, some, ok, arith}
use aws_foundations.Base.Json.{null, bool}
use aws_foundations.Base.Table.{select, insert, delete, pair_key}
use aws_foundations.Cache.{
  second, whole, may_overwrite, Cache, empty, get, put, holder, is_held, acquire, hosted_acquire,
  release, memory_release, put_call, acquire_call, release_call, memory_release_call, after_all,
}
use aws_foundations.Cache.Entries.{put-stays}
use aws_foundations.Cache.Leases.{
  IsFree, EndsNow, lease_is_kept, acquire-granted, hosted_acquire-differs, memory_release-release,
}

caching : Unit {0}
unfolding get put holder acquire release select insert delete is_held
caching = tt

abbrev ada_holds : Cache
ada_holds = record empty {
  leases = (("acme", "k"), record { owner = "ada"; expires = 60 * second }) ∷ [];
}

put-stays_example :
    get "acme" "k" (after_all (put_call "acme" "k" null ∷ []) (put "acme" "k" (bool true) empty).1)
    ≡ some (bool true)
put-stays_example =
    put-stays "acme" "k" (bool true) (put_call "acme" "k" null ∷ []) empty (unfold caching in refl)

lease_is_kept_example :
    holder "acme" "k" (
      after_all
        (acquire_call "acme" "k" "bob" 60 (59 * second)
          ∷ release_call "acme" "k" "bob"
          ∷ memory_release_call "acme" "k" "bob"
          ∷ [])
        ada_holds)
    ≡ some (record { owner = "ada"; expires = 60 * second })
lease_is_kept_example =
    lease_is_kept
      (acquire_call "acme" "k" "bob" 60 (59 * second)
        ∷ release_call "acme" "k" "bob"
        ∷ memory_release_call "acme" "k" "bob"
        ∷ [])
      "acme" "k" (record { owner = "ada"; expires = 60 * second }) ada_holds
      (unfold caching in refl) ((refl, omega arith), (refl, (refl, tt)))

acquire-granted_example :
    let (granted, c') = acquire "acme" "k" "bob" 60 (60 * second) ada_holds in
    ((granted ≡ true) ↔ IsFree (holder "acme" "k" ada_holds) "bob" (60 * second))
    × (granted ≡ true
        → holder "acme" "k" c'
          ≡ some (record { owner = "bob"; expires = 60 * second + 60 * second }))
acquire-granted_example = acquire-granted "acme" "k" "bob" 60 (60 * second) ada_holds

-- At 60.9 seconds a lease that ended at 60 is granted by SQLite, and refused by DynamoDB.
ending : (acquire "acme" "k" "bob" 60 60900000 ada_holds).0 ≡ true
unfolding caching
ending = refl

ending_hosted : (hosted_acquire "acme" "k" "bob" 60 60900000 ada_holds).0 ≡ false
unfolding caching hosted_acquire may_overwrite whole
ending_hosted = refl

hosted_acquire-differs_example :
    ((acquire "acme" "k" "bob" 60 60900000 ada_holds).0
      ≢ (hosted_acquire "acme" "k" "bob" 60 60900000 ada_holds).0)
    ↔ EndsNow (holder "acme" "k" ada_holds) "bob" 60900000
hosted_acquire-differs_example = hosted_acquire-differs "acme" "k" "bob" 60 60900000 ada_holds

memory_release-release_example :
    memory_release "acme" "k" "ada" ada_holds ≡ ok (release "acme" "k" "ada" ada_holds)
memory_release-release_example = memory_release-release "acme" "k" "ada" ada_holds refl
