-- ===== src/Lockfree/AtQueue/Fifo.antt =====
-- What the lock-free queues promise: a first-in-first-out queue of bounded length that refuses an
-- element when it is full.
use vee.Common.{
  ℕ, Bool, true, false, Option, none, some, List, [], ◌∷◌, ◌++◌, ltb, if◌then◌else◌, length, ◌≡◌,
  ◌<◌, arith,
}

pub data Op (A : Type 0) : Type 0 where
  put : A → Op A
  get : Op A

-- The returned flag, and what is written to the output argument.
abbrev pub Reply : Type 0 → Type 0
Reply A = Bool × Option A

module _ {A : Type 0} where
  unfoldable pub dequeue : List A → Bool × Option A × List A
  dequeue [] = (false, none, [])
  dequeue (x ∷ xs) = (true, some x, xs)

  module _ (capacity : ℕ) where
    unfoldable pub enqueue : List A → A → Bool × List A
    enqueue xs x = if ltb (length xs) capacity then (true, xs ++ (x ∷ [])) else (false, xs)

    pub enqueue-room :
        (xs : List A) (x : A) → length xs < capacity → enqueue xs x ≡ (true, xs ++ (x ∷ []))
    unfolding enqueue
    enqueue-room xs x room = ground arith

    pub enqueue-full : (xs : List A) (x : A) → ¬ (length xs < capacity) → enqueue xs x ≡ (false, xs)
    unfolding enqueue
    enqueue-full xs x full = ground arith

    unfoldable pub run : List A → List (Op A) → List (Reply A)
    unfolding enqueue dequeue
    run xs [] = []
    run xs (put x ∷ ops) = let (done, ys) = enqueue xs x in (done, none) ∷ run ys ops
    run xs (get ∷ ops) = let (done, out, ys) = dequeue xs in (done, out) ∷ run ys ops
