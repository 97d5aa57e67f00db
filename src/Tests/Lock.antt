-- ===== src/Tests/Lock.antt =====
-- Tests of vee/lock.h.
use vee.Common.{ℕ, true, false, some, ◌≡◌, refl, arith}
use vee.Lock.{spin_lock, lock, try_lock, unlock, test_and_set}
use vee.Lock.Threads.{
  Threads, Reach, here, next, acquire, mark, mutual_exclusion, try_lock_breaks_exclusion,
  take_by_try,
}

abbrev owned : Threads
owned = record { mutex = record { flag = true }; owns = mark (λ _. false) 0 true }

Reach-owned : Reach owned
unfolding test_and_set
Reach-owned = next here (acquire 0 refl refl)

lock_then_unlock : lock 1 (unlock (record { flag = true })) ≡ some (record { flag = true })
unfolding lock unlock
lock_then_unlock = refl

try_lock_free : (try_lock spin_lock).0 ≡ false
unfolding try_lock
try_lock_free = refl

mutual_exclusion_example : ◌≡◌ {A = ℕ} 0 0
mutual_exclusion_example = mutual_exclusion Reach-owned 0 0 refl refl

try_lock_breaks_exclusion_example :
    ((take_by_try owned 1).owns 0 ≡ true) × ((take_by_try owned 1).owns 1 ≡ true)
try_lock_breaks_exclusion_example = try_lock_breaks_exclusion Reach-owned 0 1 (omega arith) refl
