-- ===== src/Lock.antt =====
-- vee/lock.h: the spin lock over an atomic flag, and the lock that does nothing.
pub mod Threads
use vee.Common.{ℕ, zero, suc, Bool, true, false, Option, none, some, List}

-- `std::atomic_flag`, with the value that it holds.
pub record SpinLock : Type 0 where
  pub flag : Bool

-- `spin_lock::spin_lock` clears the flag.
abbrev pub spin_lock : SpinLock
spin_lock = record { flag = false }

-- `std::atomic_flag::test_and_set`: the flag is set, and its old value is returned.
unfoldable pub test_and_set : SpinLock → Bool × SpinLock
test_and_set l = (l.flag, record { flag = true })

-- `spin_lock::try_lock` hands the old value of the flag on.
unfoldable pub try_lock : SpinLock → Bool × SpinLock
unfolding test_and_set
try_lock l = test_and_set l

-- `spin_lock::lock`, run alone for so many rounds; `none` while it still spins.
unfoldable pub lock : ℕ → SpinLock → Option SpinLock
unfolding test_and_set
lock zero l = none
lock (suc fuel) l =
    let (held, l') = test_and_set l in elim held [ true ↦ lock fuel l' | false ↦ some l' ]

unfoldable pub unlock : SpinLock → SpinLock
unlock l = record { flag = false }

-- `empty_lock` keeps no state: `lock` and `unlock` return at once, and `try_lock` is always
-- granted.
unfoldable pub empty_try_lock : Unit {0} → Bool × Unit {0}
empty_try_lock u = (true, u)

unfoldable pub empty_lock : Unit {0} → Option (Unit {0})
empty_lock u = some u

unfoldable pub empty_unlock : Unit {0} → Unit {0}
empty_unlock u = u
