-- ===== src/Lockfree/Stack/Pop.antt =====
-- `lockfree::stack::pop`, run alone.
use vee.Common.{
  ℕ, suc, ◌≤◌, ◌<◌, ◌≡◌, ◌≢◌, refl, ◌∙◌, sym, ap, subst, true, false, none, some, List, [], ◌∷◌,
  ◌++◌, arith, length, get_elem?, set, length-set, length-append, get_elem?-set_self,
  get_elem?-set_ne, ℕ_discrete, sub_size,
}
use vee.Lockfree.AtQueue.{is_null}
use vee.Lockfree.AtQueue.Holds.{Holds}
use vee.Lockfree.Blocks.Fill.{PutBack, put_back_lem}
use vee.Lockfree.Stack.{Stack, pop}
use vee.Lockfree.Stack.Lifo.{Reply}
use vee.Lockfree.Stack.Stacked.{Stacked, Cells-set, Used-set}

module _ {A : Type 0} (left : A → A) where
  -- A `pop` that returns `r`, and leaves a stack of the same capacity.
  pub record Popped (fuel : ℕ) (s : Stack A) (free : List ℕ) (ys : List A) (r : Reply A)
      : Type 0 where
    pub after : Stack A
    pub returns : pop left fuel s ≡ some (r.0, r.1, after)
    pub holds : Stacked after free ys
    pub same_capacity : after.capacity ≡ s.capacity

  -- A `pop` that hands out `y`, and what the block that was read holds afterwards.
  pub record TakenFrom (fuel : ℕ) (s : Stack A) (free : List ℕ) (y : A) (ys : List A) : Type 0 where
    pub popped : Popped fuel s (free ++ (length ys ∷ [])) ys (true, some y)
    pub rest : get_elem? popped.after.cont (length ys) ≡ some (left y)

  module _ (s : Stack A) (free : List ℕ) (y : A) (ys : List A) (v : Stacked s free (y ∷ ys)) where
    dst-below : sub_size s.top 1 ≡ length ys
    dst-below = omega (arith, v.top_at, v.small, v.all_blocks)

    top-pos : s.top ≢ 0
    top-pos = omega (arith, v.top_at)

    slot_used : is_null s.outarr (sub_size s.top 1) ≡ some false
    slot_used = ap (is_null s.outarr) dst-below ∙ ground (arith, v.shown.0.1)

    abbrev dst : ℕ
    dst = sub_size s.top 1

    p : (fuel : ℕ) → PutBack (suc fuel) dst s.cont_queue (free ++ (dst ∷ []))
    p fuel =
        put_back_lem fuel dst s.cont_queue free v.free_kept
          (omega (arith, v.all_blocks, v.free_capacity))

    cell : get_elem? s.cont dst ≡ some y
    cell = ap (get_elem? s.cont) dst-below ∙ v.cells.0

    abbrev popped_after : ℕ → Stack A
    popped_after fuel = record s {
      cont = set s.cont dst (left y);
      outarr = set s.outarr dst none;
      cont_queue = (p fuel).after;
      top = dst;
    }

    clear_after :
        (k : ℕ) → length ys ≤ k → k < s.capacity → get_elem? (set s.outarr dst none) k ≡ some none
    clear_after k le lt = elim (ℕ_discrete k (length ys)) [
      | yes e ↦
          ap (get_elem? (set s.outarr dst none)) (e ∙ sym dst-below)
          ∙ get_elem?-set_self s.outarr dst none
              (omega (arith, dst-below, v.outarr_length, v.all_blocks))
      | no ne ↦
          get_elem?-set_ne s.outarr dst k none (omega (arith, dst-below))
          ∙ v.clear k (omega arith) lt
    ]

    -- `pop` hands out the topmost of the blocks in number order, and the block's number is freed.
    pub pop-Popped : (fuel : ℕ) → Popped (suc fuel) s (free ++ (length ys ∷ [])) ys (true, some y)
    unfolding pop p
    pop-Popped fuel = record {
      after = popped_after fuel;
      returns = ground (arith, slot_used, top-pos, (p fuel).returns, cell);
      holds = record {
        small = v.small;
        cont_length = length-set s.cont dst (left y) ∙ v.cont_length;
        outarr_length = length-set s.outarr dst none ∙ v.outarr_length;
        free_kept = subst (λ d. Holds (p fuel).after (free ++ (d ∷ []))) dst-below (p fuel).holds;
        free_capacity = (p fuel).same_capacity ∙ v.free_capacity;
        all_blocks = omega (arith, v.all_blocks, length-append free (length ys ∷ []));
        top_at = dst-below;
        cells = Cells-set s.cont ys dst (left y) (omega (arith, dst-below)) v.cells.1;
        shown = Used-set s.outarr (length ys) dst none (omega (arith, dst-below)) v.shown.1;
        clear = clear_after;
      };
      same_capacity = refl;
    }

    pub pop-TakenFrom : (fuel : ℕ) → TakenFrom (suc fuel) s free y ys
    unfolding pop-Popped
    pop-TakenFrom fuel = record {
      popped = pop-Popped fuel;
      rest =
          ap (get_elem? (set s.cont dst (left y))) (sym dst-below)
          ∙ get_elem?-set_self s.cont dst (left y)
              (omega (arith, dst-below, v.cont_length, v.all_blocks));
    }

  pub pop-empty :
      (fuel : ℕ) (s : Stack A) (free : List ℕ)
      → Stacked s free []
      → Popped (suc fuel) s free [] (false, none)
  unfolding pop
  pop-empty fuel s free v = record {
    after = s;
    returns = ground (arith, v.top_at);
    holds = v;
    same_capacity = refl;
  }
