-- ===== src/Lockfree/Pair/Waits.antt =====
-- What one thread has sent and the other has received of a `lockfree::queue`.
use vee.Common.{
  ℕ, ◌≤◌, ◌<◌, ◌≡◌, ◌∙◌, refl, sym, subst, List, [], ◌++◌, append-nil, length, length-replicate,
  max_cells,
}
use vee.Lockfree.Blocks.Numbers.{from}
use vee.Lockfree.Threads.{Threads, here, next}
use vee.Lockfree.Pair.{
  Sending, outside, asking, Getting, out_of_call, seeking, Pair, PairStep, enter, ask_free, give_up,
  take_free, leave_free, fill, pass, publish, start_get, ask_used, find_none, take_used, leave_used,
  read, give_back, free_block, PairReach, new, on,
}
use vee.Lockfree.Pair.Paired.{IsPaired, length-elements}
use vee.Lockfree.Pair.Blocks.{fill-IsPaired, read-IsPaired}
use vee.Lockfree.Pair.Order.{
  sender-IsPaired, getter-IsPaired, inside_free-IsPaired, inside_used-IsPaired, take_free-IsPaired,
  publish-IsPaired, take_used-IsPaired, free_block-IsPaired,
}

module _ {A : Type 0} {n : ℕ} {cont : List A} {cont_queue out_queue : Threads ℕ}
    {sent received : List A} where
  sending :
      {sn sn' : Sending A} {gt : Getting}
      → sn ≡ sn'
      → IsPaired n cont cont_queue out_queue sn gt sent received
      → IsPaired n cont cont_queue out_queue sn' gt sent received
  sending {gt = gt} e o = subst (λ sn. IsPaired n cont cont_queue out_queue sn gt sent received) e o

  getting :
      {sn : Sending A} {gt gt' : Getting}
      → gt ≡ gt'
      → IsPaired n cont cont_queue out_queue sn gt sent received
      → IsPaired n cont cont_queue out_queue sn gt' sent received
  getting {sn} e o = subst (λ gt. IsPaired n cont cont_queue out_queue sn gt sent received) e o

module _ {A : Type 0} (left : A → A) (n : ℕ) (pos : 0 < n) (small : n ≤ max_cells) where
  abbrev pub IsPairedRun : Pair A → Type 0
  IsPairedRun s = IsPaired n s.cont s.cont_queue s.out_queue s.sender s.getter s.sent s.received

  PairStep-IsPaired : {s t : Pair A} → PairStep left s t → IsPairedRun s → IsPairedRun t
  PairStep-IsPaired (enter v at) o = sender-IsPaired (sending at o) (asking v) refl tt
  PairStep-IsPaired (ask_free v t at g e) o =
      inside_free-IsPaired o t (next o.reached_free g.0) e g.2
  PairStep-IsPaired (give_up v t at g e quiet) o =
      sender-IsPaired (sending at (inside_free-IsPaired o t (next o.reached_free g.0) e g.2))
        outside refl tt
  PairStep-IsPaired (take_free v t id at g e) o =
      take_free-IsPaired t id (sending at o) (next o.reached_free g.0) e g.2
  PairStep-IsPaired (leave_free v t id at busy g e) o =
      inside_free-IsPaired o t (next o.reached_free g.0) e g.2
  PairStep-IsPaired (fill v id at quiet) o = fill-IsPaired pos small (sending at o)
  PairStep-IsPaired (pass v t id at p passes e) o =
      inside_used-IsPaired o t (next o.reached_used p.0) p.2 e
  PairStep-IsPaired (publish v t id rear at put_at p e) o =
      publish-IsPaired t (sending at o) (next o.reached_used p.0) p.2 e
  PairStep-IsPaired (start_get at) o = getter-IsPaired (getting at o) seeking refl refl
  PairStep-IsPaired (ask_used t at g e) o = inside_used-IsPaired o t (next o.reached_used g.0) e g.2
  PairStep-IsPaired (find_none t at g e quiet) o =
      getter-IsPaired (getting at (inside_used-IsPaired o t (next o.reached_used g.0) e g.2))
        out_of_call refl refl
  PairStep-IsPaired (take_used t id at g e) o =
      take_used-IsPaired t id pos small (getting at o) (next o.reached_used g.0) e g.2
  PairStep-IsPaired (leave_used t id at busy g e) o =
      inside_used-IsPaired o t (next o.reached_used g.0) e g.2
  PairStep-IsPaired (read id x at quiet content) o =
      read-IsPaired pos small x (left x) (getting at o) content
  PairStep-IsPaired (give_back t id at p passes e) o =
      inside_free-IsPaired o t (next o.reached_free p.0) p.2 e
  PairStep-IsPaired (free_block t id rear at put_at p e) o =
      free_block-IsPaired t (getting at o) (next o.reached_free p.0) p.2 e

  pub PairReach-IsPaired : {fresh : A} {s : Pair A} → PairReach left fresh n s → IsPairedRun s
  PairReach-IsPaired {fresh} (new q f) = record {
    reached_free = f.reached;
    reached_used = here;
    freed = [];
    pending = [];
    elements = [];
    taken = f.untouched;
    got = refl;
    given = f.numbers ∙ sym (append-nil (from 0 n));
    waits = refl;
    order = refl;
    points = tt;
    keeps = tt;
    size = length-replicate n fresh;
  }
  PairReach-IsPaired (on r st) = PairStep-IsPaired st (PairReach-IsPaired r)

  -- Of the states that one thread with `enqueue` and one with `dequeue` reach on a
  -- `lockfree::queue` of at least one and at most `max_cells` blocks, in any order of their steps
  -- in the two rings and between them: the elements sent are the elements received, in the same
  -- order, and after them at most as many others as there are blocks.
  pub pair_prefix :
      (fresh : A) (s : Pair A)
      → PairReach left fresh n s
      → (rest : List A) × (s.sent ≡ s.received ++ rest) × (length rest ≤ n)
  pair_prefix fresh s r =
      let o = PairReach-IsPaired r in (o.elements, o.order, length-elements pos small o)
