-- ===== src/Cache/Leases.antt =====
-- A lease has one holder at a time.
use aws_foundations.Base.{
  ℕ, ◌+◌, ◌*◌, ◌≤◌, ◌<◌, ◌≡◌, ◌≢◌, ◌↔◌, ◌⊎◌, refl, true, false, not, ◌&&◌, List, [], ◌∷◌, Option,
  none, some, String, ok, arith, eq_iff, if◌then◌else◌, str_eq, All, Bool-cases, inl, inr,
}
use aws_foundations.Base.Table.{select, pair_key, select-delete}
use aws_foundations.Cache.{
  second, whole, left_by, Lease, Cache, put, holder, is_held, grant, memory_acquire, acquire,
  may_overwrite, hosted_acquire, is_owned, release, memory_release, Call, put_call,
  memory_acquire_call, acquire_call, hosted_acquire_call, release_call, memory_release_call, after,
  after_all,
}

-- The lease of another key, of this or another tenant, is left alone; that of this key is the one
-- that is granted.
holder-grant :
    (t k tenant key : String) (lease : Lease) (c : Cache)
    → holder tenant key (grant t k lease c)
      ≡ (if str_eq t tenant && str_eq k key then some lease else holder tenant key c)
unfolding holder select
holder-grant t k tenant key lease c = ground (arith, select-delete (t, k) (tenant, key) c.leases)

-- A call of another owner for a lease that runs at the time of the call: a clock that has not
-- passed the lease's end.
abbrev pub IsOther : String → ℕ → Call → Type 0
IsOther owner until (put_call t k v) = Unit {0}
IsOther owner until (memory_acquire_call t k o ttl now later) =
    (str_eq owner o ≡ false) × (now < until)
IsOther owner until (acquire_call t k o ttl now) = (str_eq owner o ≡ false) × (now < until)
IsOther owner until (hosted_acquire_call t k o ttl now) = (str_eq owner o ≡ false) × (now < until)
IsOther owner until (release_call t k o) = str_eq owner o ≡ false
IsOther owner until (memory_release_call t k o) = str_eq owner o ≡ false

-- The whole second before a time.
whole_le : (now : ℕ) → whole now ≤ now
unfolding whole
whole_le now = ground arith

memory_acquire-other :
    (t k o tenant key : String) (ttl now later : ℕ) (lease : Lease) (c : Cache)
    → holder tenant key c ≡ some lease
    → str_eq lease.owner o ≡ false
    → now < lease.expires
    → holder tenant key (memory_acquire t k o ttl now later c).1 ≡ some lease
unfolding memory_acquire is_held
memory_acquire-other t k o tenant key ttl now later lease c held other early = ground (
  arith,
  holder-grant t k tenant key (record { owner = o; expires = later + ttl * second }) c,
  eq_iff t tenant,
  eq_iff k key,
)

acquire-other :
    (t k o tenant key : String) (ttl now : ℕ) (lease : Lease) (c : Cache)
    → holder tenant key c ≡ some lease
    → str_eq lease.owner o ≡ false
    → now < lease.expires
    → holder tenant key (acquire t k o ttl now c).1 ≡ some lease
unfolding acquire is_held
acquire-other t k o tenant key ttl now lease c held other early = ground (
  arith,
  holder-grant t k tenant key (record { owner = o; expires = now + ttl * second }) c,
  eq_iff t tenant,
  eq_iff k key,
)

hosted_acquire-other :
    (t k o tenant key : String) (ttl now : ℕ) (lease : Lease) (c : Cache)
    → holder tenant key c ≡ some lease
    → str_eq lease.owner o ≡ false
    → now < lease.expires
    → holder tenant key (hosted_acquire t k o ttl now c).1 ≡ some lease
unfolding hosted_acquire may_overwrite
hosted_acquire-other t k o tenant key ttl now lease c held other early = ground (
  arith,
  whole_le now,
  holder-grant t k tenant key (record { owner = o; expires = whole now + ttl * second }) c,
  eq_iff t tenant,
  eq_iff k key,
)

release-other :
    (t k o tenant key : String) (lease : Lease) (c : Cache)
    → holder tenant key c ≡ some lease
    → str_eq lease.owner o ≡ false
    → holder tenant key (release t k o c) ≡ some lease
unfolding release is_owned holder
release-other t k o tenant key lease c held other =
    ground (arith, select-delete (t, k) (tenant, key) c.leases, eq_iff t tenant, eq_iff k key)

memory_release-other :
    (t k o tenant key : String) (lease : Lease) (c : Cache)
    → holder tenant key c ≡ some lease
    → str_eq lease.owner o ≡ false
    → holder tenant key (left_by (memory_release t k o c) c) ≡ some lease
unfolding memory_release holder
memory_release-other t k o tenant key lease c held other =
    ground (arith, select-delete (t, k) (tenant, key) c.leases, eq_iff t tenant, eq_iff k key)

after-other :
    (x : Call) (tenant key : String) (lease : Lease) (c : Cache)
    → holder tenant key c ≡ some lease
    → IsOther lease.owner lease.expires x
    → holder tenant key (after x c) ≡ some lease
unfolding after
after-other (put_call t k v) tenant key lease c held other = unfold put holder in held
after-other (memory_acquire_call t k o ttl now later) tenant key lease c held (other, early) =
    memory_acquire-other t k o tenant key ttl now later lease c held other early
after-other (acquire_call t k o ttl now) tenant key lease c held (other, early) =
    acquire-other t k o tenant key ttl now lease c held other early
after-other (hosted_acquire_call t k o ttl now) tenant key lease c held (other, early) =
    hosted_acquire-other t k o tenant key ttl now lease c held other early
after-other (release_call t k o) tenant key lease c held other =
    release-other t k o tenant key lease c held other
after-other (memory_release_call t k o) tenant key lease c held other =
    memory_release-other t k o tenant key lease c held other

-- Until a lease runs out, no sequence of calls of other owners (acquire and release of the caches in
-- memory, in SQLite and in DynamoDB) and of puts takes it, extends it or releases it: its holder still
-- holds it.
pub lease_is_kept :
    (xs : List Call) (tenant key : String) (lease : Lease) (c : Cache)
    → holder tenant key c ≡ some lease
    → All (IsOther lease.owner lease.expires) xs
    → holder tenant key (after_all xs c) ≡ some lease
unfolding after_all
lease_is_kept [] tenant key lease c held others = held
lease_is_kept (x ∷ xs) tenant key lease c held (other, others) =
    lease_is_kept xs tenant key lease (after x c) (after-other x tenant key lease c held other)
      others

-- A lease that a caller may take: there is none, it is its own, or it has run out.
abbrev pub IsFree : Option Lease → String → ℕ → Type 0
IsFree none owner now = Unit {0}
IsFree (some lease) owner now = (lease.owner ≡ owner) ⊎ (lease.expires ≤ now)

is_held-IsFree :
    (o : Option Lease) (owner : String) (now : ℕ)
    → (is_held o owner now ≡ false) ↔ IsFree o owner now
unfolding is_held
is_held-IsFree none owner now = (λ h. tt, λ h. refl)
is_held-IsFree (some lease) owner now =
    (λ h. ground (arith, eq_iff lease.owner owner), λ h. ground (arith, eq_iff lease.owner owner))

-- An `acquire` says yes exactly if there is no lease, it is the caller's own, or it has run out, and
-- then the caller holds it until the time to live has passed.
pub acquire-granted :
    (tenant key owner : String) (ttl now : ℕ) (c : Cache)
    → let (granted, c') = acquire tenant key owner ttl now c in
      ((granted ≡ true) ↔ IsFree (holder tenant key c) owner now)
      × (granted ≡ true
          → holder tenant key c' ≡ some (record { owner = owner; expires = now + ttl * second }))
unfolding acquire
acquire-granted tenant key owner ttl now c =
    let free = is_held-IsFree (holder tenant key c) owner now in
    (
      (λ h. free.0 (ground arith), λ h. ground (arith, free.1 h)),
      λ h. ground (
        arith,
        holder-grant tenant key tenant key (record { owner = owner; expires = now + ttl * second })
            c,
        eq_iff tenant tenant,
        eq_iff key key,
      ),
    )

-- The lease of another owner that has ended by the time of the call, but not before the whole second
-- that the time falls into.
abbrev pub EndsNow : Option Lease → String → ℕ → Type 0
EndsNow none owner now = ⊥
EndsNow (some lease) owner now =
    (lease.owner ≢ owner) × (whole now ≤ lease.expires) × (lease.expires ≤ now)

differs_on :
    (o : Option Lease) (owner : String) (now : ℕ)
    → (not (is_held o owner now) ≢ may_overwrite o owner (whole now)) ↔ EndsNow o owner now
unfolding is_held may_overwrite
differs_on none owner now = (λ h. h refl, λ h. absurd h)
differs_on (some lease) owner now =
    let early = whole_le now in
    let same = eq_iff lease.owner owner in
    (
      λ h. (λ e. let own = same.1 e in ground arith, ground arith, ground arith),
      λ (other, reached, ended). elim (Bool-cases (str_eq lease.owner owner)) [
        | inl own ↦ absurd (other (same.0 own))
        | inr differs ↦ ground arith
      ],
    )

acquire_says :
    (tenant key owner : String) (ttl now : ℕ) (c : Cache)
    → (acquire tenant key owner ttl now c).0 ≡ not (is_held (holder tenant key c) owner now)
unfolding acquire
acquire_says tenant key owner ttl now c = ground arith

hosted_acquire_says :
    (tenant key owner : String) (ttl now : ℕ) (c : Cache)
    → (hosted_acquire tenant key owner ttl now c).0
      ≡ may_overwrite (holder tenant key c) owner (whole now)
unfolding hosted_acquire
hosted_acquire_says tenant key owner ttl now c = ground arith

-- For the same stored lease, the caches in SQLite and in DynamoDB answer alike but in one case: the
-- lease of another owner that has ended by the time of the call, but not before the whole second that
-- the time falls into.
pub hosted_acquire-differs :
    (tenant key owner : String) (ttl now : ℕ) (c : Cache)
    → ((acquire tenant key owner ttl now c).0 ≢ (hosted_acquire tenant key owner ttl now c).0)
      ↔ EndsNow (holder tenant key c) owner now
hosted_acquire-differs tenant key owner ttl now c =
    rw (acquire_says tenant key owner ttl now c, hosted_acquire_says tenant key owner ttl now c)
      (differs_on (holder tenant key c) owner now)

-- A worker with a name releases in memory what it releases in SQLite; only an empty name would raise.
pub memory_release-release :
    (tenant key owner : String) (c : Cache)
    → str_eq "" owner ≡ false
    → memory_release tenant key owner c ≡ ok (release tenant key owner c)
unfolding memory_release release is_owned
memory_release-release tenant key owner c named = ground arith
