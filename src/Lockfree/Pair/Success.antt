-- ===== src/Lockfree/Pair/Success.antt =====
-- The loops in which a number of a block is passed on, and how they go.
use vee.Common.{ℕ, ◌≤◌, ◌<◌, ◌≡◌, refl, sym, ap, subst, length, arith, max_cells}
use vee.Lockfree.Threads.{GetPc, waiting}
use vee.Lockfree.Threads.Single.{skip}
use vee.Lockfree.Threads.Locals.{skip-le_one}
use vee.Lockfree.Pair.{
  Sending, outside, asking, holding, passing, Getting, out_of_call, seeking, reading, freeing, Pair,
  PairStep, enter, ask_free, give_up, take_free, leave_free, fill, pass, publish, start_get,
  ask_used, find_none, take_used, leave_used, read, give_back, free_block, PairReach, new, on,
}
use vee.Lockfree.Pair.Paired.{held, lent, unused, unused-split, room}
use vee.Lockfree.Pair.Loops.{Succeeds, room-Succeeds, skip-Step}
use vee.Lockfree.Pair.Waits.{PairReach-IsPaired}

-- Only a thread that has read a number, and not gone on, has left a cell read and not freed.
abbrev Sends : {A : Type 0} → Sending A → GetPc → Type 0
Sends (holding v id) g = Unit
Sends _ g = skip g ≡ 0

abbrev Reads : Getting → GetPc → Type 0
Reads (reading id) g = Unit
Reads _ g = skip g ≡ 0

quiet-skip : {g : GetPc} → g ≡ waiting → skip g ≡ 0
quiet-skip e = ap skip e

module _ {A : Type 0} (left : A → A) (n : ℕ) (pos : 0 < n) (small : n ≤ max_cells) where
  record InTurn (s : Pair A) : Type 0 where
    sends : Sends s.sender (s.cont_queue.get 0)
    reads : Reads s.getter (s.out_queue.get 0)

  Sends-at :
      {s : Pair A} {sn : Sending A} → s.sender ≡ sn → InTurn s → Sends sn (s.cont_queue.get 0)
  Sends-at {s} at o = subst (λ sn. Sends sn (s.cont_queue.get 0)) at o.sends

  Reads-at : {s : Pair A} {gt : Getting} → s.getter ≡ gt → InTurn s → Reads gt (s.out_queue.get 0)
  Reads-at {s} at o = subst (λ gt. Reads gt (s.out_queue.get 0)) at o.reads

  -- A step that reads nothing, in the ring where it gets.
  PairStep-InTurn : {s t : Pair A} → PairStep left s t → InTurn s → InTurn t
  PairStep-InTurn (enter v at) o = record { sends = Sends-at at o; reads = o.reads }
  PairStep-InTurn {s} (ask_free v t at g e) o = record {
    sends =
        subst (λ sn. Sends sn (t.get 0)) (sym at) (omega (arith, skip-Step g.0 e, Sends-at at o));
    reads = o.reads;
  }
  PairStep-InTurn (give_up v t at g e quiet) o = record {
    sends = quiet-skip quiet;
    reads = o.reads;
  }
  PairStep-InTurn (take_free v t id at g e) o = record { sends = tt; reads = o.reads }
  PairStep-InTurn (leave_free v t id at busy g e) o = record {
    sends = subst (λ sn. Sends sn (t.get 0)) (sym at) tt;
    reads = o.reads;
  }
  PairStep-InTurn (fill v id at quiet) o = record { sends = quiet-skip quiet; reads = o.reads }
  PairStep-InTurn {s} (pass v t id at p passes e) o = record {
    sends = o.sends;
    reads = subst (λ g. Reads s.getter (g 0)) (sym p.1) o.reads;
  }
  PairStep-InTurn {s} (publish v t id rear at put_at p e) o = record {
    sends = Sends-at at o;
    reads = subst (λ g. Reads s.getter (g 0)) (sym p.1) o.reads;
  }
  PairStep-InTurn (start_get at) o = record { sends = o.sends; reads = Reads-at at o }
  PairStep-InTurn (ask_used t at g e) o = record {
    sends = o.sends;
    reads =
        subst (λ gt. Reads gt (t.get 0)) (sym at) (omega (arith, skip-Step g.0 e, Reads-at at o));
  }
  PairStep-InTurn (find_none t at g e quiet) o = record {
    sends = o.sends;
    reads = quiet-skip quiet;
  }
  PairStep-InTurn (take_used t id at g e) o = record { sends = o.sends; reads = tt }
  PairStep-InTurn (leave_used t id at busy g e) o = record {
    sends = o.sends;
    reads = subst (λ gt. Reads gt (t.get 0)) (sym at) tt;
  }
  PairStep-InTurn (read id x at quiet content) o = record {
    sends = o.sends;
    reads = quiet-skip quiet;
  }
  PairStep-InTurn {s} (give_back t id at p passes e) o = record {
    sends = subst (λ g. Sends s.sender (g 0)) (sym p.1) o.sends;
    reads = o.reads;
  }
  PairStep-InTurn {s} (free_block t id rear at put_at p e) o = record {
    sends = subst (λ g. Sends s.sender (g 0)) (sym p.1) o.sends;
    reads = Reads-at at o;
  }

  PairReach-InTurn : {fresh : A} {s : Pair A} → PairReach left fresh n s → InTurn s
  PairReach-InTurn (new q f) = record { sends = quiet-skip f.waits; reads = refl }
  PairReach-InTurn (on r st) = PairStep-InTurn st (PairReach-InTurn r)

  skip-held : (sn : Sending A) (g : GetPc) → Sends sn g → skip g ≤ length (held sn)
  skip-held outside g k = omega arith
  skip-held (asking v) g k = omega arith
  skip-held (holding v id) g k = skip-le_one g
  skip-held (passing v id) g k = omega arith

  skip-lent : (gt : Getting) (g : GetPc) → Reads gt g → skip g ≤ length (lent gt)
  skip-lent out_of_call g k = omega arith
  skip-lent seeking g k = omega arith
  skip-lent (reading id) g k = skip-le_one g
  skip-lent (freeing id) g k = omega arith

  -- Of the states that one thread with `enqueue` and one with `dequeue` reach on a
  -- `lockfree::queue` of at least one and at most `max_cells` blocks: where the first is in its
  -- loop to pass a number to `_out_queue`, that ring has a free cell for it and its exchange does
  -- not fail, and the same holds of the second and `_cont_queue`. So neither loop is ever repeated.
  pub pair-Succeeds :
      (fresh : A) (s : Pair A)
      → PairReach left fresh n s
      → ((v : A) (id : ℕ) → s.sender ≡ passing v id → Succeeds s.out_queue)
        × ((id : ℕ) → s.getter ≡ freeing id → Succeeds s.cont_queue)
  pair-Succeeds fresh s r =
      let o = PairReach-IsPaired left n pos small r in
      let turn = PairReach-InTurn r in
      (
        λ v id at. room-Succeeds pos small s.out_queue o.pending o.reached_used o.waits (
            omega (
              arith,
              room pos small o,
              ap (λ sn. length (held sn)) at,
              skip-lent s.getter (s.out_queue.get 0) turn.reads,
            )),
        λ id at.
            room-Succeeds pos small s.cont_queue (unused pos small o) o.reached_free
              (unused-split pos small o)
              (omega (
                arith,
                room pos small o,
                ap (λ gt. length (lent gt)) at,
                skip-held s.sender (s.cont_queue.get 0) turn.sends,
              )),
      )
