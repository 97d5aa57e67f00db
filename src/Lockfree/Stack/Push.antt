-- ===== src/Lockfree/Stack/Push.antt =====
-- `lockfree::stack::push`, run alone.
use vee.Common.{
  ℕ, suc, ◌≡◌, refl, ◌∙◌, sym, ap, true, false, none, some, List, [], ◌∷◌, arith, length, get_elem?,
  set, length-set, get_elem?-set_self, get_elem?-set_ne, add_size,
}
use vee.Lockfree.AtQueue.{is_null}
use vee.Lockfree.AtQueue.Dequeue.{Taken}
use vee.Lockfree.Blocks.{kept}
use vee.Lockfree.Blocks.Fill.{take_number, no_number}
use vee.Lockfree.Stack.{Stack, push}
use vee.Lockfree.Stack.Stacked.{Stacked, Cells, Used, Used-set}

module _ {A : Type 0} (s : Stack A) (val : A) where
  -- A `push` into the free block `b`: afterwards the stack holds whatever its blocks now hold.
  pub record Pushed (b : ℕ) (free : List ℕ) (ys : List A) : Type 0 where
    pub after : Stack A
    pub returns : push s val ≡ some (true, after)
    pub holds :
        (zs : List A)
        → length zs ≡ suc (length ys)
        → Cells (set s.cont b val) zs
        → Stacked after free zs
    pub cont_after : after.cont ≡ set s.cont b val
    pub same_capacity : after.capacity ≡ s.capacity

  pub push-Pushed :
      (b : ℕ) (free : List ℕ) (ys : List A) → Stacked s (b ∷ free) ys → Pushed b free ys
  unfolding push
  push-Pushed b free ys v = record {
    after = record s {
      cont = set s.cont b val;
      outarr = set s.outarr s.top (some b);
      cont_queue = t.after;
      top = add_size s.top 1;
    };
    returns = ground (arith, t.returns, slot_null);
    holds = λ zs len cells. record {
      small = v.small;
      cont_length = length-set s.cont b val ∙ v.cont_length;
      outarr_length = length-set s.outarr s.top (some b) ∙ v.outarr_length;
      free_kept = t.holds;
      free_capacity = t.same_capacity ∙ v.free_capacity;
      all_blocks = omega (arith, v.all_blocks);
      top_at = omega (arith, v.top_at, v.small, v.all_blocks);
      cells = cells;
      shown = shown_after zs len;
      clear = λ k le lt.
          get_elem?-set_ne s.outarr s.top k (some b) (omega (arith, v.top_at))
          ∙ v.clear k (omega arith) lt;
    };
    cont_after = refl;
    same_capacity = refl;
  }
    where
      t : Taken kept 1 s.cont_queue free (true, some b)
      t = take_number s.cont_queue b free v.free_kept

      slot_null : is_null s.outarr s.top ≡ some true
      slot_null =
          ap (is_null s.outarr) v.top_at
          ∙ ground (arith, v.clear (length ys) (omega arith) (omega (arith, v.all_blocks)))

      used : get_elem? (set s.outarr s.top (some b)) (length ys) ≡ some (some b)
      used =
          ap (get_elem? (set s.outarr s.top (some b))) (sym v.top_at)
          ∙ get_elem?-set_self s.outarr s.top (some b)
              (omega (arith, v.top_at, v.outarr_length, v.all_blocks))

      shown_after :
          (zs : List A)
          → length zs ≡ suc (length ys)
          → Used (set s.outarr s.top (some b)) (length zs)
      shown_after zs len = rw len (
        (b, used),
        Used-set s.outarr (length ys) s.top (some b) (omega (arith, v.top_at)) v.shown,
      )

  -- A `push` with no free block.
  pub record Refused (ys : List A) : Type 0 where
    pub after : Stack A
    pub returns : push s val ≡ some (false, after)
    pub holds : Stacked after [] ys
    pub same_capacity : after.capacity ≡ s.capacity

  pub push-Refused : (ys : List A) → Stacked s [] ys → Refused ys
  unfolding push
  push-Refused ys v = record {
    after = record s { cont_queue = t.after };
    returns = ground (arith, t.returns);
    holds = record {
      small = v.small;
      cont_length = v.cont_length;
      outarr_length = v.outarr_length;
      free_kept = t.holds;
      free_capacity = t.same_capacity ∙ v.free_capacity;
      all_blocks = v.all_blocks;
      top_at = v.top_at;
      cells = v.cells;
      shown = v.shown;
      clear = v.clear;
    };
    same_capacity = refl;
  }
    where
      t : Taken kept 1 s.cont_queue [] (false, none)
      t = no_number s.cont_queue v.free_kept
