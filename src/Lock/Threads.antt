-- ===== src/Lock/Threads.antt =====
-- Threads that share one spin lock, a call of `lock` or `unlock` at a time, in any order.
use vee.Common.{
  ℕ, zero, suc, Bool, true, false, none, some, ◌≡◌, ◌≢◌, refl, ◌⊎◌, inl, inr, arith, ◌==◌,
  if◌then◌else◌,
}
use vee.Lock.{SpinLock, spin_lock, test_and_set, try_lock, lock, unlock}

-- The lock, and which threads believe that they own it.
pub record Threads : Type 0 where
  pub mutex : SpinLock
  pub owns : ℕ → Bool

abbrev pub mark : (ℕ → Bool) → ℕ → Bool → ℕ → Bool
mark f i b j = if i == j then b else f j

-- A thread that does not own the lock makes one round of `lock`; an owner calls `unlock`.
pub data Step (s : Threads) : Threads → Type 0 where
  acquire :
      (i : ℕ)
      → s.owns i ≡ false
      → (test_and_set s.mutex).0 ≡ false
      → Step s (record { mutex = (test_and_set s.mutex).1; owns = mark s.owns i true })
  spin :
      (i : ℕ)
      → s.owns i ≡ false
      → (test_and_set s.mutex).0 ≡ true
      → Step s (record { mutex = (test_and_set s.mutex).1; owns = s.owns })
  release :
      (i : ℕ)
      → s.owns i ≡ true
      → Step s (record { mutex = unlock s.mutex; owns = mark s.owns i false })

abbrev pub start : Threads
start = record { mutex = spin_lock; owns = λ _. false }

pub data Reach : Threads → Type 0 where
  here : Reach start
  next : {s t : Threads} → Reach s → Step s t → Reach t

-- What every call keeps: an owner has set the flag, and there is one owner at most.
pub record IsExclusive (s : Threads) : Type 0 where
  pub set_by_owner : (i : ℕ) → s.owns i ≡ true → s.mutex.flag ≡ true
  pub one_owner : (i j : ℕ) → s.owns i ≡ true → s.owns j ≡ true → i ≡ j

Step-IsExclusive : {s t : Threads} → Step s t → IsExclusive s → IsExclusive t
unfolding test_and_set unlock
Step-IsExclusive (acquire i idle free) v = record {
  set_by_owner = λ j h. refl;
  one_owner = λ j k hj hk. ground (arith, v.set_by_owner j, v.set_by_owner k);
}
Step-IsExclusive (spin i idle busy) v = record {
  set_by_owner = λ j h. refl;
  one_owner = v.one_owner;
}
Step-IsExclusive (release i own) v = record {
  set_by_owner = λ j h. ground (arith, v.one_owner i j);
  one_owner = λ j k hj hk. ground (arith, v.one_owner j k);
}

pub Reach-IsExclusive : {s : Threads} → Reach s → IsExclusive s
Reach-IsExclusive here = record { set_by_owner = λ i h. cc; one_owner = λ i j hi hj. cc }
Reach-IsExclusive (next r st) = Step-IsExclusive st (Reach-IsExclusive r)

-- In every state that threads reach by calls of `spin_lock::lock` and `spin_lock::unlock`, two
-- threads that own the lock are one.
pub mutual_exclusion :
    {s : Threads} → Reach s → (i j : ℕ) → s.owns i ≡ true → s.owns j ≡ true → i ≡ j
mutual_exclusion r = (Reach-IsExclusive r).one_owner

-- A thread takes the lock by `try_lock`, and reads its result as the standard's contract says: true
-- means that the lock is now its own.
unfoldable pub take_by_try : Threads → ℕ → Threads
unfolding try_lock
take_by_try s i = record { mutex = (try_lock s.mutex).1; owns = mark s.owns i (try_lock s.mutex).0 }

-- In every reachable state where thread `i` owns the lock, a `try_lock` of another thread `j`
-- reports success: after it both own the lock.
pub try_lock_breaks_exclusion :
    {s : Threads}
    → Reach s
    → (i j : ℕ) → i ≢ j
    → s.owns i ≡ true
    → ((take_by_try s j).owns i ≡ true) × ((take_by_try s j).owns j ≡ true)
unfolding take_by_try test_and_set
try_lock_breaks_exclusion r i j ne own = ground (arith, (Reach-IsExclusive r).set_by_owner i own)

-- Run alone, `spin_lock::lock` takes a free lock in its first round and leaves it set, and on a
-- lock that is held it is still spinning after any number of rounds.
pub lock_lem :
    (fuel : ℕ) (l : SpinLock)
    → ((l.flag ≡ false) × (lock (suc fuel) l ≡ some (record { flag = true })))
      ⊎ ((l.flag ≡ true) × (lock fuel l ≡ none))
unfolding lock
lock_lem fuel l = go l.flag refl fuel
  where
    spins : (n : ℕ) (m : SpinLock) → m.flag ≡ true → lock n m ≡ none
    spins zero m e = refl
    spins (suc n) m e = ground (arith, spins n (record { flag = true }) refl)

    go :
        (b : Bool)
        → l.flag ≡ b
        → (n : ℕ)
        → ((l.flag ≡ false) × (lock (suc n) l ≡ some (record { flag = true })))
          ⊎ ((l.flag ≡ true) × (lock n l ≡ none))
    go false e n = inl (e, ground arith)
    go true e n = inr (e, spins n l e)
