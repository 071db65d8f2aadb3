-- ===== src/Spin.antt =====
-- Network/Common/SpinLock.cpp: the recursive spin lock. Each thread is where it stands in Lock and Unlock, with
-- the number of times that it has the lock; a step is one access to `_count` or `_threadId`. The accesses
-- of all threads come one after the other. Thread `i` has the id `i + 1`.
use network.Prelude.{
  ℕ, zero, suc, ◌≡◌, ◌<◌, ◌+◌, ◌-◌, true, false, ◌==◌, if◌then◌else◌, add32, sub32,
}
pub mod Holder
pub mod Exclusion
mod Tests

pub record SpinLock : Type 0 where
  -- `_count`
  pub count : ℕ
  -- `_threadId`
  pub owner : ℕ

-- inside: between calls. In Lock: trying, before InterlockedCompareExchange; testing, before the comparison with
-- `_threadId`; again, before the increment; entering, before `_threadId` is set. In Unlock: reading, before `_count`
-- is read; storing, before what is left is written; clearing_owner and clearing_count, before the two resets.
pub data Place : Type 0 where
  inside : ℕ → Place
  trying : ℕ → Place
  testing : ℕ → Place
  again : ℕ → Place
  entering : ℕ → Place
  reading : ℕ → Place
  storing : ℕ → ℕ → Place
  clearing_owner : ℕ → Place
  clearing_count : ℕ → Place

-- SpinLock()
abbrev pub new_spin_lock : SpinLock
new_spin_lock = record { count = 0; owner = 0 }

-- The steps of Lock.
abbrev pub try_lock : ℕ → SpinLock → Place × SpinLock
try_lock d l = if l.count == 0 then (entering d, record l { count = 1 }) else (testing d, l)

abbrev pub test_owner : ℕ → ℕ → SpinLock → Place × SpinLock
test_owner id d l = if id == l.owner then (again d, l) else (trying d, l)

-- `++_count` is a read and a write, taken as one step: between them the thread has the lock, and all that another
-- one can do to `_count` is a compare-exchange with 0 that fails.
abbrev pub lock_again : ℕ → SpinLock → Place × SpinLock
lock_again d l = (inside (d + 1), record l { count = add32 l.count 1 })

abbrev pub set_owner : ℕ → ℕ → SpinLock → Place × SpinLock
set_owner id d l = (inside (d + 1), record l { owner = id })

-- The steps of Unlock.
abbrev pub read_count : ℕ → SpinLock → Place × SpinLock
read_count d l =
    if sub32 l.count 1 == 0 then (clearing_owner d, l) else (storing d (sub32 l.count 1), l)

abbrev pub store_count : ℕ → ℕ → SpinLock → Place × SpinLock
store_count d n l = (inside (d - 1), record l { count = n })

abbrev pub clear_owner : ℕ → SpinLock → Place × SpinLock
clear_owner d l = (clearing_count d, record l { owner = 0 })

abbrev pub clear_count : ℕ → SpinLock → Place × SpinLock
clear_count d l = (inside (d - 1), record l { count = 0 })

-- The next access of a thread.
unfoldable pub move : ℕ → Place → SpinLock → Place × SpinLock
move id (inside d) l = (inside d, l)
move id (trying d) l = try_lock d l
move id (testing d) l = test_owner id d l
move id (again d) l = lock_again d l
move id (entering d) l = set_owner id d l
move id (reading d) l = read_count d l
move id (storing d n) l = store_count d n l
move id (clearing_owner d) l = clear_owner d l
move id (clearing_count d) l = clear_count d l

pub record Threads : Type 0 where
  pub lock : SpinLock
  pub place : ℕ → Place

abbrev pub update : (ℕ → Place) → ℕ → Place → ℕ → Place
update f i p j = if i == j then p else f j

-- A thread calls Lock, fewer than 2 ^ 32 times without Unlock, or Unlock for a Lock of its own, or makes its next
-- access.
pub data Step (s : Threads) : Threads → Type 0 where
  calls_lock :
      (i d : ℕ)
      → s.place i ≡ inside d
      → d + 1 < 4294967296
      → Step s (record s { place = update s.place i (trying d) })
  calls_unlock :
      (i d : ℕ)
      → s.place i ≡ inside (suc d)
      → Step s (record s { place = update s.place i (reading (suc d)) })
  moves :
      (i : ℕ)
      → Step s (record {
        lock = (move (i + 1) (s.place i) s.lock).1;
        place = update s.place i (move (i + 1) (s.place i) s.lock).0;
      })

pub data Reach : Threads → Type 0 where
  start : Reach (record { lock = new_spin_lock; place = λ _. inside 0 })
  later : {s t : Threads} → Reach s → Step s t → Reach t
