-- ===== src/Tcp/Explicit.antt =====
-- `read_explicit` of comm/tcp.cpp.
use vee.Common.{
  ℕ, suc, ◌+◌, ◌≤◌, ◌<◌, ◌^◌, ◌≡◌, ◌∙◌, inr, ap, ap₂, none, some, List, [], ◌∷◌, length, arith,
  add_size, sub_size,
}
use vee.Tcp.{Socket, Buffer, thrown, read_some, read_loop, read_explicit}
use vee.Tcp.Store.{Memory, load, store, memset, load-store}
use vee.Tcp.Read.{Reads, reported, filled-Reads, read_some-reported}

module _ {S : Type 0} (socket : Socket S) where
  -- A call of the socket that reports no error.
  pub record Gives (n : ℕ) (s : S) (bytes : List ℕ) (s' : S) : Type 0 where
    pub given : (socket.read_some n s).0 ≡ bytes
    pub error : thrown socket (socket.read_some n s).1 ≡ none
    pub after : (socket.read_some n s).2 ≡ s'

  read_loop-done :
      (fuel : ℕ) (m : Memory) (buffer : Buffer) (r t : ℕ) (s : S)
      → r ≤ t
      → read_loop socket (suc fuel) m buffer r t s ≡ some (inr t, m, s)
  unfolding read_loop
  read_loop-done fuel m buffer r t s le = ground arith

  read_loop-on :
      (fuel : ℕ) (m : Memory) (buffer : Buffer) (r t n : ℕ) (s s' : S) (m' : Memory)
      → t < r
      → read_some socket m buffer r s ≡ (inr n, m', s')
      → read_loop socket (suc fuel) m buffer r t s
        ≡ read_loop socket fuel m'
            (record {
              ptr = buffer.ptr + add_size t n;
              capacity = sub_size buffer.capacity (add_size t n);
            })
            r
            (add_size t n)
            s'
  unfolding read_loop
  read_loop-on fuel m buffer r t n s s' m' lt e =
      ground (arith, ap (λ o. o.0) e, ap (λ o. o.1) e, ap (λ o. o.2) e)

  Gives-read_some :
      (m : Memory) (buffer : Buffer) (n : ℕ) (s : S) (bytes : List ℕ) (s' : S)
      → Gives n s bytes s'
      → read_some socket m buffer n s
        ≡ (inr (length bytes), store (memset m buffer.ptr buffer.capacity) buffer.ptr bytes, s')
  Gives-read_some m buffer n s bytes s' g =
      read_some-reported socket m buffer n s
      ∙ ap
          (λ o. (
            reported socket (length (socket.read_some n s).0) o,
            store (memset m buffer.ptr buffer.capacity) buffer.ptr (socket.read_some n s).0,
            (socket.read_some n s).2,
          ))
          g.error
      ∙ ap₂
          (λ bs s''.
            (inr (length bs), store (memset m buffer.ptr buffer.capacity) buffer.ptr bs, s''))
          g.given g.after

  module _ (m : Memory) (buffer : Buffer) (r : ℕ) (s : S) (bytes : List ℕ) (s' : S)
      (first : Gives r s bytes s') (asked : 0 < r) (small : length bytes < 2 ^ 64) where
    abbrev filled : Memory
    filled = store (memset m buffer.ptr buffer.capacity) buffer.ptr bytes

    abbrev on : Buffer
    on = record {
      ptr = buffer.ptr + length bytes;
      capacity = sub_size buffer.capacity (length bytes);
    }

    -- After the first read of `read_explicit`.
    read_explicit-on :
        (fuel : ℕ)
        → read_explicit socket (suc fuel) m buffer r s
          ≡ read_loop socket fuel filled on r (length bytes) s'
    unfolding read_explicit
    read_explicit-on fuel =
        read_loop-on fuel m buffer r 0 (length bytes) s s' filled asked
          (Gives-read_some m buffer r s bytes s' first)
        ∙ ap
            (λ t.
              read_loop socket fuel filled
                (record { ptr = buffer.ptr + t; capacity = sub_size buffer.capacity t }) r t s')
            t_eq
      where
        t_eq : add_size 0 (length bytes) ≡ length bytes
        t_eq = omega arith

  -- Where the socket gives all the bytes at once, `read_explicit` returns their number, with the
  -- bytes at the head of the buffer and zeros behind them.
  pub read_explicit-Reads :
      (fuel : ℕ) (m : Memory) (buffer : Buffer) (s : S) (bytes : List ℕ) (s' : S)
      → Gives (length bytes) s bytes s'
      → 0 < length bytes
      → length bytes < 2 ^ 64
      → length bytes ≤ buffer.capacity
      → (m' : Memory) × (read_explicit socket (suc (suc fuel)) m buffer (length bytes) s
          ≡ some (inr (length bytes), m', s'))
        × Reads socket m buffer bytes m'
  read_explicit-Reads fuel m buffer s bytes s' g asked small room = (
    store (memset m buffer.ptr buffer.capacity) buffer.ptr bytes,
    read_explicit-on m buffer (length bytes) s bytes s' g asked small (suc fuel)
        ∙ read_loop-done fuel (store (memset m buffer.ptr buffer.capacity) buffer.ptr bytes)
            (on m buffer (length bytes) s bytes s' g asked small) (length bytes) (length bytes) s'
            (omega arith),
    filled-Reads socket m buffer bytes room,
  )

  -- Where two bytes or more, but fewer than 2 ^ 64 - 1, are requested into a buffer of that size,
  -- and the socket gives one byte first, `read_explicit` asks for as many bytes again: if it gets
  -- them it returns one more than was requested, and has stored them from the second byte of the
  -- buffer on, the last one behind it.
  pub read_explicit_overruns :
      (fuel : ℕ) (m : Memory) (buffer : Buffer) (s s' s'' : S) (b : ℕ) (bytes : List ℕ)
      → Gives (length bytes) s (b ∷ []) s'
      → Gives (length bytes) s' bytes s''
      → 1 < length bytes
      → suc (length bytes) < 2 ^ 64
      → buffer.capacity ≡ length bytes
      → (m' : Memory) × (read_explicit socket (suc (suc (suc fuel))) m buffer (length bytes) s
          ≡ some (inr (suc (length bytes)), m', s''))
        × (load m' (buffer.ptr + 1) buffer.capacity ≡ bytes)
  read_explicit_overruns fuel m buffer s s' s'' b bytes g g' asked small cap = (
    store (memset first next.ptr next.capacity) next.ptr bytes,
    read_explicit-on m buffer (length bytes) s (b ∷ []) s' g (omega arith) (omega arith)
          (suc (suc fuel))
        ∙ read_loop-on (suc fuel) first next (length bytes) 1 (length bytes) s' s''
            (store (memset first next.ptr next.capacity) next.ptr bytes) asked
            (Gives-read_some first next (length bytes) s' bytes s'' g')
        ∙ read_loop-done fuel (store (memset first next.ptr next.capacity) next.ptr bytes)
            (record {
              ptr = next.ptr + add_size 1 (length bytes);
              capacity = sub_size next.capacity (add_size 1 (length bytes));
            })
            (length bytes) (add_size 1 (length bytes)) s'' (omega arith)
        ∙ ap (λ n. some (inr n, store (memset first next.ptr next.capacity) next.ptr bytes, s''))
            one_more,
    ap (load (store (memset first next.ptr next.capacity) next.ptr bytes) next.ptr) cap
        ∙ load-store (memset first next.ptr next.capacity) bytes next.ptr,
  )
    where
      first : Memory
      first = store (memset m buffer.ptr buffer.capacity) buffer.ptr (b ∷ [])

      next : Buffer
      next = record { ptr = buffer.ptr + 1; capacity = sub_size buffer.capacity 1 }

      one_more : add_size 1 (length bytes) ≡ suc (length bytes)
      one_more = omega arith
