-- ===== src/Cache.antt =====
-- The explanation caches of agent/reasoning/cache.py: entries that are written once, and leases that
-- keep two workers from paying for the same model call. Each method is one transaction; a value is
-- stored as what its JSON text encodes. The clock, a float of seconds in the source, is counted in
-- microseconds, and so is the end of a lease: `int(self.clock())` is the last whole second before it.
pub mod Leases
pub mod Entries
mod Tests
use aws_foundations.Base.{
  ℕ, ◌+◌, ◌*◌, ◌/◌, Bool, true, false, not, ◌&&◌, ◌||◌, List, [], ◌∷◌, Option, none, some, String,
  Result, ok, raised, ltb, str_eq, if◌then◌else◌,
}
use aws_foundations.Base.Json.{Value}
use aws_foundations.Base.Table.{Table, select, insert, delete, pair_key}

-- a second, in units of the clock
abbrev pub second : ℕ
second = 1000000

-- `int(self.clock())`, in units of the clock
unfoldable pub whole : ℕ → ℕ
whole now = now / second * second

-- Who holds a lease, and until when.
pub record Lease : Type 0 where
  pub owner : String
  pub expires : ℕ

-- `self.values` and `self.leases`, by tenant and key; in SQLite two tables, in DynamoDB two kinds of
-- item of one table.
pub record Cache : Type 0 where
  pub values : Table (String × String) Value
  pub leases : Table (String × String) Lease

abbrev pub empty : Cache
empty = record { values = []; leases = [] }

unfoldable pub get : String → String → Cache → Option Value
get tenant key c = select (tenant, key) c.values

unfoldable pub put : String → String → Value → Cache → Bool × Cache
put tenant key value c =
    let (created, values) = insert (tenant, key) value c.values in
    (created, record c { values = values })

unfoldable pub holder : String → String → Cache → Option Lease
holder tenant key c = select (tenant, key) c.leases

-- `holder and holder[0] != owner and holder[1] > now`
unfoldable pub is_held : Option Lease → String → ℕ → Bool
is_held none owner now = false
is_held (some lease) owner now = not (str_eq lease.owner owner) && ltb now lease.expires

abbrev pub grant : String → String → Lease → Cache → Cache
grant tenant key lease c = record c {
  leases = ((tenant, key), lease) ∷ delete (tenant, key) c.leases;
}

-- `MemoryExplanationCache.acquire` reads the clock for the test, and again for the new lease
unfoldable pub memory_acquire : String → String → String → ℕ → ℕ → ℕ → Cache → Bool × Cache
memory_acquire tenant key owner ttl now later c =
    if is_held (holder tenant key c) owner now
    then (false, c)
    else (true, grant tenant key (record { owner = owner; expires = later + ttl * second }) c)

-- `SqliteExplanationCache.acquire`
unfoldable pub acquire : String → String → String → ℕ → ℕ → Cache → Bool × Cache
acquire tenant key owner ttl now c =
    if is_held (holder tenant key c) owner now
    then (false, c)
    else (true, grant tenant key (record { owner = owner; expires = now + ttl * second }) c)

-- "attribute_not_exists(PK) OR expires_at < :now OR #o = :owner"
unfoldable pub may_overwrite : Option Lease → String → ℕ → Bool
may_overwrite none owner now = true
may_overwrite (some lease) owner now = ltb lease.expires now || str_eq lease.owner owner

-- `DynamoExplanationCache.acquire`
unfoldable pub hosted_acquire : String → String → String → ℕ → ℕ → Cache → Bool × Cache
hosted_acquire tenant key owner ttl now c =
    if may_overwrite (holder tenant key c) owner (whole now)
    then (true, grant tenant key (record { owner = owner; expires = whole now + ttl * second }) c)
    else (false, c)

unfoldable pub is_owned : Option Lease → String → Bool
is_owned none owner = false
is_owned (some lease) owner = str_eq lease.owner owner

-- `release` in SQLite and in DynamoDB
unfoldable pub release : String → String → String → Cache → Cache
release tenant key owner c =
    if is_owned (holder tenant key c) owner
    then record c { leases = delete (tenant, key) c.leases }
    else c

-- `MemoryExplanationCache.release`; for a lease that is not there the owner reads as ""
unfoldable pub memory_release : String → String → String → Cache → Result String Cache
memory_release tenant key owner c = elim (holder tenant key c) [
  | none ↦ if str_eq "" owner then raised "KeyError" else ok c
  | some lease ↦
      if str_eq lease.owner owner
      then ok (record c { leases = delete (tenant, key) c.leases })
      else ok c
]

-- One call of a method that writes, with the clock of the call.
pub data Call : Type 0 where
  put_call : String → String → Value → Call
  memory_acquire_call : String → String → String → ℕ → ℕ → ℕ → Call
  acquire_call : String → String → String → ℕ → ℕ → Call
  hosted_acquire_call : String → String → String → ℕ → ℕ → Call
  release_call : String → String → String → Call
  memory_release_call : String → String → String → Call

-- what a call that may raise leaves
abbrev pub left_by : Result String Cache → Cache → Cache
left_by (raised _) c = c
left_by (ok c') c = c'

unfoldable pub after : Call → Cache → Cache
after (put_call tenant key value) c = (put tenant key value c).1
after (memory_acquire_call tenant key owner ttl now later) c =
    (memory_acquire tenant key owner ttl now later c).1
after (acquire_call tenant key owner ttl now) c = (acquire tenant key owner ttl now c).1
after (hosted_acquire_call tenant key owner ttl now) c =
    (hosted_acquire tenant key owner ttl now c).1
after (release_call tenant key owner) c = release tenant key owner c
after (memory_release_call tenant key owner) c = left_by (memory_release tenant key owner c) c

unfoldable pub after_all : List Call → Cache → Cache
after_all [] c = c
after_all (x ∷ xs) c = after_all xs (after x c)
