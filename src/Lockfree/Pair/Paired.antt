-- ===== src/Lockfree/Pair/Paired.antt =====
-- The invariant of the two threads on a `lockfree::queue`: where each number of a block stands.
use vee.Common.{
  ℕ, ◌+◌, ◌≤◌, ◌<◌, ◌≡◌, ◌∙◌, sym, ap, some, List, [], ◌∷◌, ◌++◌, length, length-append, get_elem?,
  arith, max_cells,
}
use vee.Lockfree.Blocks.{kept}
use vee.Lockfree.Blocks.Numbers.{
  count, from, count-append, count-from, length-from, Points, length-Points,
}
use vee.Lockfree.Threads.{Threads, Reach}
use vee.Lockfree.Threads.Prefix.{received_prefix}
use vee.Lockfree.Pair.{Sending, holding, passing, Getting, out_of_call, seeking, reading, freeing}

-- The number that the first thread has, and the one that the second has.
abbrev pub held : {A : Type 0} → Sending A → List ℕ
held (holding v id) = id ∷ []
held (passing v id) = id ∷ []
held _ = []

abbrev pub lent : Getting → List ℕ
lent (reading id) = id ∷ []
lent (freeing id) = id ∷ []
lent _ = []

-- One whose element the second thread still has to read.
abbrev pub unread : Getting → List ℕ
unread (reading id) = id ∷ []
unread _ = []

-- The element that the first thread has stored.
abbrev pub Keeps : {A : Type 0} → List A → Sending A → Type 0
Keeps cont (passing v id) = get_elem? cont id ≡ some v
Keeps cont _ = Unit

pub record IsPaired {A : Type 0} (n : ℕ) (cont : List A) (cont_queue out_queue : Threads ℕ)
    (sender : Sending A) (getter : Getting) (sent received : List A) : Type 0 where
  pub reached_free : Reach kept 1 1 0 n cont_queue
  pub reached_used : Reach kept 1 1 0 n out_queue
  pub freed : List ℕ
  pub pending : List ℕ
  pub elements : List A
  pub taken : cont_queue.received ≡ out_queue.sent ++ held sender
  pub got : out_queue.received ≡ freed ++ lent getter
  pub given : cont_queue.sent ≡ from 0 n ++ freed
  pub waits : out_queue.sent ≡ out_queue.received ++ pending
  pub order : sent ≡ received ++ elements
  pub points : Points cont (unread getter ++ pending) elements
  pub keeps : Keeps cont sender
  pub size : length cont ≡ n

module _ {A : Type 0} {n : ℕ} {cont : List A} {cont_queue out_queue : Threads ℕ}
    {sender : Sending A} {getter : Getting} {sent received : List A} (pos : 0 < n)
    (small : n ≤ max_cells)
    (o : IsPaired n cont cont_queue out_queue sender getter sent received) where
  -- The numbers that stand in `_cont_queue`.
  pub unused : List ℕ
  unused = (received_prefix kept 0 n cont_queue pos small o.reached_free).0

  all_numbers :
      (from 0 n ++ o.freed) ≡ (((o.freed ++ lent getter) ++ o.pending) ++ held sender) ++ unused
  unfolding unused
  all_numbers =
      sym o.given
      ∙ (received_prefix kept 0 n cont_queue pos small o.reached_free).1
      ∙ ap (λ r. r ++ unused) o.taken
      ∙ ap (λ r. (r ++ held sender) ++ unused) (o.waits ∙ ap (λ r. r ++ o.pending) o.got)

  -- Each number stands at one place.
  pub one_place :
      (j : ℕ)
      → count j (lent getter) + count j o.pending + count j (held sender) ≤ count j (from 0 n)
  one_place j = omega (
    arith,
    ap (count j) all_numbers,
    count-append j (from 0 n) o.freed,
    count-append j (((o.freed ++ lent getter) ++ o.pending) ++ held sender) unused,
    count-append j ((o.freed ++ lent getter) ++ o.pending) (held sender),
    count-append j (o.freed ++ lent getter) o.pending,
    count-append j o.freed (lent getter),
  )

  -- All blocks are in one of the four places.
  pub room : length (lent getter) + length o.pending + length (held sender) + length unused ≡ n
  room = omega (
    arith,
    ap length all_numbers,
    length-from 0 n,
    length-append (from 0 n) o.freed,
    length-append (((o.freed ++ lent getter) ++ o.pending) ++ held sender) unused,
    length-append ((o.freed ++ lent getter) ++ o.pending) (held sender),
    length-append (o.freed ++ lent getter) o.pending,
    length-append o.freed (lent getter),
  )

  -- Those that stand in `_cont_queue` are those that were put there and not read.
  pub unused-split : cont_queue.sent ≡ cont_queue.received ++ unused
  unfolding unused
  unused-split = (received_prefix kept 0 n cont_queue pos small o.reached_free).1

  pub below : (j : ℕ) → 0 < count j (lent getter) + count j (held sender) → j < n
  below j some_place =
      let inside : (0 ≤ j) × (j < 0 + n) = (count-from j 0 n).1 (omega (arith, one_place j)) in
      omega (arith, inside.1)

  unread-le : (gt : Getting) → length (unread gt) ≤ length (lent gt)
  unread-le out_of_call = omega arith
  unread-le seeking = omega arith
  unread-le (reading id) = omega arith
  unread-le (freeing id) = omega arith

  pub length-elements : length o.elements ≤ n
  length-elements = omega (
    arith,
    room,
    unread-le getter,
    length-append (unread getter) o.pending,
    length-Points cont (unread getter ++ o.pending) o.elements o.points,
  )
