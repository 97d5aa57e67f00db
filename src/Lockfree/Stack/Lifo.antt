-- ===== src/Lockfree/Stack/Lifo.antt =====
-- A bounded stack, its top first, and the calls that a client makes of one.
use vee.Common.{
  ℕ, zero, suc, Bool, true, false, Option, none, some, List, [], ◌∷◌, ltb, if◌then◌else◌, length,
}

pub data Op (A : Type 0) : Type 0 where
  push_op : A → Op A
  pop_op : Op A

-- The returned flag, and what is written to the output argument.
abbrev pub Reply : Type 0 → Type 0
Reply A = Bool × Option A

module _ {A : Type 0} where
  unfoldable pub pop : List A → Bool × Option A × List A
  pop [] = (false, none, [])
  pop (y ∷ ys) = (true, some y, ys)

  -- `n` calls of `pop`, and calls of `push` for each element of a list before them.
  abbrev pub pops : ℕ → List (Op A)
  pops zero = []
  pops (suc n) = pop_op ∷ pops n

  abbrev pub pushes : List A → List (Op A) → List (Op A)
  pushes [] ops = ops
  pushes (x ∷ xs) ops = push_op x ∷ pushes xs ops

  module _ (capacity : ℕ) where
    unfoldable pub push : List A → A → Bool × List A
    push ys x = if ltb (length ys) capacity then (true, x ∷ ys) else (false, ys)

    unfoldable pub run : List A → List (Op A) → List (Reply A)
    unfolding push pop
    run ys [] = []
    run ys (push_op x ∷ ops) = let (done, zs) = push ys x in (done, none) ∷ run zs ops
    run ys (pop_op ∷ ops) = let (done, out, zs) = pop ys in (done, out) ∷ run zs ops
