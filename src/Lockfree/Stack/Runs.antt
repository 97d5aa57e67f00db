-- ===== src/Lockfree/Stack/Runs.antt =====
-- What `lockfree::stack` answers to sequences of calls that do not overlap.
use vee.Common.{
  ℕ, zero, suc, ◌+◌, ◌≤◌, ◌<◌, ◌≡◌, ◌≢◌, refl, ◌∙◌, ap, subst, length-set, Bool, true, false, none,
  some, List, [], ◌∷◌, ◌++◌, arith, length, get_elem?, set, max_cells, get_elem?-set_self,
  get_elem?-set_ne,
}
use vee.Lockfree.Blocks.{built}
use vee.Lockfree.Blocks.Numbers.{from}
use vee.Lockfree.Stack.{Stack, stack, run}
use vee.Lockfree.Stack.Lifo
use vee.Lockfree.Stack.Lifo.{Op, push_op, pop_op, Reply, pops, pushes}
use vee.Lockfree.Stack.Stacked.{Stacked, Cells, Cells-set, Cells-below, IsFresh, stack-IsFresh}
use vee.Lockfree.Stack.Push.{push-Pushed, push-Refused}
use vee.Lockfree.Stack.Pop.{pop-Popped, pop-TakenFrom, pop-empty}

abbrev pub flags : {A : Type 0} → List (Reply A) → List Bool
flags [] = []
flags (r ∷ rs) = r.0 ∷ flags rs

module _ {A : Type 0} (left : A → A) where
  -- The calls return, with the flags that the bounded stack would return.
  pub record Answers (fuel : ℕ) (s : Stack A) (ops : List (Op A)) (zs : List A) : Type 0 where
    pub replies : List (Reply A)
    pub returns : run left fuel s ops ≡ some replies
    pub same_flags : flags replies ≡ flags (Lifo.run s.capacity zs ops)

  run-flags :
      (fuel : ℕ) (ops : List (Op A)) (s : Stack A) (free : List ℕ) (ys zs : List A)
      → Stacked s free ys
      → length zs ≡ length ys
      → Answers (suc fuel) s ops zs
  unfolding run Lifo.run
  run-flags fuel [] s free ys zs v len = record { replies = []; returns = refl; same_flags = refl }
  run-flags fuel (push_op x ∷ ops) s [] ys zs v len =
      let d = push-Refused s x ys v in
      let ih = run-flags fuel ops d.after [] ys zs d.holds len in
      record {
        replies = (false, none) ∷ ih.replies;
        returns = ground (arith, d.returns, ih.returns);
        same_flags = ground (arith, ih.same_flags, d.same_capacity, v.all_blocks);
      }
  run-flags fuel (push_op x ∷ ops) s (b ∷ free) ys zs v len =
      let d = push-Pushed s x b free ys v in
      let (now, e, cells) =
        Cells-below (set s.cont b x) (suc (length ys))
          (omega (arith, length-set s.cont b x, v.cont_length, v.all_blocks)) in
      let ih = run-flags fuel ops d.after free now (x ∷ zs) (d.holds now e cells) (omega arith) in
      record {
        replies = (true, none) ∷ ih.replies;
        returns = ground (arith, d.returns, ih.returns);
        same_flags = ground (arith, ih.same_flags, d.same_capacity, v.all_blocks);
      }
  run-flags fuel (pop_op ∷ ops) s free [] [] v len =
      let d = pop-empty left fuel s free v in
      let ih = run-flags fuel ops d.after free [] [] d.holds refl in
      record {
        replies = (false, none) ∷ ih.replies;
        returns = ground (arith, d.returns, ih.returns);
        same_flags = ground (arith, ih.same_flags, d.same_capacity);
      }
  run-flags fuel (pop_op ∷ ops) s free [] (z ∷ zs) v len = absurd (omega arith)
  run-flags fuel (pop_op ∷ ops) s free (y ∷ ys) [] v len = absurd (omega arith)
  run-flags fuel (pop_op ∷ ops) s free (y ∷ ys) (z ∷ zs) v len =
      let d = pop-Popped left s free y ys v fuel in
      let ih = run-flags fuel ops d.after (free ++ (length ys ∷ [])) ys zs d.holds (omega arith) in
      record {
        replies = (true, some y) ∷ ih.replies;
        returns = ground (arith, d.returns, ih.returns);
        same_flags = ground (arith, ih.same_flags, d.same_capacity);
      }

  run-pops :
      (fuel k : ℕ) (s : Stack A) (free : List ℕ) (ys : List A)
      → Stacked s free ys
      → run left (suc fuel) s (pops k) ≡ some (Lifo.run s.capacity ys (pops k))
  unfolding run Lifo.run
  run-pops fuel zero s free ys v = refl
  run-pops fuel (suc k) s free [] v =
      let d = pop-empty left fuel s free v in
      ground (arith, d.returns, run-pops fuel k d.after free [] d.holds, d.same_capacity)
  run-pops fuel (suc k) s free (y ∷ ys) v =
      let d = pop-Popped left s free y ys v fuel in
      ground (
        arith,
        d.returns,
        run-pops fuel k d.after (free ++ (length ys ∷ [])) ys d.holds,
        d.same_capacity,
      )

  in_cells :
      (s : Stack A) (free : List ℕ) (ys : List A)
      → Stacked s free ys
      → 0 < length free
      → length ys < length s.cont
  in_cells s free ys v some_free = omega (arith, v.cont_length, v.all_blocks)

  -- While the free block numbers are those from the top on, in order, each push goes to the block
  -- of its slot.
  run-pushes :
      (fuel k m : ℕ) (xs : List A) (s : Stack A) (ys : List A)
      → Stacked s (from (length ys) m) ys
      → run left (suc fuel) s (pushes xs (pops k))
        ≡ some (Lifo.run s.capacity ys (pushes xs (pops k)))
  unfolding run Lifo.run
  run-pushes fuel k m [] s ys v = run-pops fuel k s (from (length ys) m) ys v
  run-pushes fuel k zero (x ∷ xs) s ys v =
      let d = push-Refused s x ys v in
      ground (
        arith,
        d.returns,
        run-pushes fuel k zero xs d.after ys d.holds,
        d.same_capacity,
        v.all_blocks,
      )
  run-pushes fuel k (suc m) (x ∷ xs) s ys v =
      let n = length ys in
      let d = push-Pushed s x n (from (n + 1) m) ys v in
      let in_cont = in_cells s (from n (suc m)) ys v (omega arith) in
      let cells : Cells (set s.cont n x) (x ∷ ys) =
        (get_elem?-set_self s.cont n x in_cont, Cells-set s.cont ys n x (omega arith) v.cells) in
      let w : Stacked d.after (from (suc n) m) (x ∷ ys) =
        subst (λ i. Stacked d.after (from i m) (x ∷ ys)) (omega arith)
          (d.holds (x ∷ ys) refl cells) in
      ground
        (arith, d.returns, run-pushes fuel k m xs d.after (x ∷ ys) w, d.same_capacity, v.all_blocks)

  -- From its constructor on, with a capacity from 1 to 2 ^ 63, a stack answers any pushes followed
  -- by any pops as the bounded stack does: last in, first out, with a refusal for each push that
  -- finds it full and each pop that finds it empty.
  pub run-fill_drain :
      (fresh : A) (n : ℕ)
      → 0 < n
      → n ≤ max_cells
      → (fuel k : ℕ) (xs : List A)
      → (s : Stack A) × (stack fresh n ≡ built s)
        × (run left (suc fuel) s (pushes xs (pops k)) ≡ some (Lifo.run n [] (pushes xs (pops k))))
  run-fill_drain fresh n pos small fuel k xs = (
    f.object,
    f.returns,
    ground (arith, run-pushes fuel k n xs f.object [] f.holds, f.capacity_lem),
  )
    where
      f : IsFresh fresh n
      f = stack-IsFresh fresh n pos small

  -- From its constructor on, with a capacity from 1 to 2 ^ 63, a stack answers every sequence of
  -- calls without spinning for ever, and with the flags of the bounded stack.
  pub run-same_flags :
      (fresh : A) (n : ℕ)
      → 0 < n
      → n ≤ max_cells
      → (fuel : ℕ) (ops : List (Op A))
      → (s : Stack A) × (stack fresh n ≡ built s)
        × (replies : List (Reply A)) × (run left (suc fuel) s ops ≡ some replies)
        × (flags replies ≡ flags (Lifo.run n [] ops))
  run-same_flags fresh n pos small fuel ops =
      (f.object, f.returns, a.replies, a.returns, ground (arith, a.same_flags, f.capacity_lem))
    where
      f : IsFresh fresh n
      f = stack-IsFresh fresh n pos small

      a : Answers (suc fuel) f.object ops []
      a = run-flags fuel ops f.object (from 0 n) [] [] f.holds refl

  -- On a stack that is not empty, where the next free block `b` is another than the block below the
  -- top: a pop, a push of `val` and a pop do not hand `val` out, but what the first pop left in the
  -- block that it read.
  pub pop_push_pop :
      (fuel : ℕ) (s : Stack A) (b : ℕ) (free : List ℕ) (y : A) (ys : List A) (val : A)
      → Stacked s (b ∷ free) (y ∷ ys)
      → b ≢ length ys
      → run left (suc fuel) s (pop_op ∷ push_op val ∷ pop_op ∷ [])
        ≡ some ((true, some y) ∷ (true, none) ∷ (true, some (left y)) ∷ [])
  unfolding run
  pop_push_pop fuel s b free y ys val v ne =
      let t = pop-TakenFrom left s (b ∷ free) y ys v fuel in
      let s₁ = t.popped.after in
      let d = push-Pushed s₁ val b (free ++ (length ys ∷ [])) ys t.popped.holds in
      let (below, e, cells) = Cells-below (set s₁.cont b val) (length ys) (
        omega (
          arith,
          length-set s₁.cont b val,
          t.popped.holds.cont_length,
          t.popped.holds.all_blocks,
        )) in
      let kept : get_elem? (set s₁.cont b val) (length below) ≡ some (left y) =
        ap (get_elem? (set s₁.cont b val)) e
        ∙ get_elem?-set_ne s₁.cont b (length ys) val ne
        ∙ t.rest in
      let w = d.holds (left y ∷ below) (omega arith) (kept, cells) in
      let p = pop-Popped left d.after (free ++ (length ys ∷ [])) (left y) below w fuel in
      ground (arith, t.popped.returns, d.returns, p.returns)
