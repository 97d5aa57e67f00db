-- ===== src/Tcp/Read.antt =====
-- `read_some` of comm/tcp.cpp.
use vee.Common.{
  ℕ, ◌+◌, ◌≤◌, ◌<◌, ◌≡◌, ◌≢◌, ◌∙◌, ◌⊎◌, inl, inr, refl, sym, ap, subst, Option, none, some, List,
  length, arith, ℕ_discrete,
}
use vee.Exception.Io.{Io, invalid_stream_exception, stream_reset_exception, unknown_io_exception}
use vee.Tcp.{Socket, Buffer, thrown, read_some}
use vee.Tcp.Store.{Memory, load, store, memset, load-store, store-off, memset-in, memset-off}

module _ {S : Type 0} (socket : Socket S) where
  thrown-zero : socket.eof ≢ 0 → socket.connection_reset ≢ 0 → thrown socket 0 ≡ none
  unfolding thrown
  thrown-zero e r = ground arith

  -- What `read_some` does on a buffer.
  pub record Reads (m : Memory) (buffer : Buffer) (bytes : List ℕ) (m' : Memory) : Type 0 where
    pub stored : load m' buffer.ptr (length bytes) ≡ bytes
    pub cleared :
        (a : ℕ) → buffer.ptr + length bytes ≤ a → a < buffer.ptr + buffer.capacity → m' a ≡ 0
    pub outside : (a : ℕ) → (a < buffer.ptr) ⊎ (buffer.ptr + buffer.capacity ≤ a) → m' a ≡ m a

  pub filled-Reads :
      (m : Memory) (buffer : Buffer) (bytes : List ℕ)
      → length bytes ≤ buffer.capacity
      → Reads m buffer bytes (store (memset m buffer.ptr buffer.capacity) buffer.ptr bytes)
  filled-Reads m buffer bytes le = record {
    stored = load-store (memset m buffer.ptr buffer.capacity) bytes buffer.ptr;
    cleared = λ a from to.
        store-off (memset m buffer.ptr buffer.capacity) bytes buffer.ptr a (inr from)
        ∙ memset-in m buffer.ptr buffer.capacity a (omega arith) to;
    outside = λ a out.
        store-off (memset m buffer.ptr buffer.capacity) bytes buffer.ptr a (nearer a out)
        ∙ memset-off m buffer.ptr buffer.capacity a out;
  }
    where
      nearer :
          (a : ℕ)
          → (a < buffer.ptr) ⊎ (buffer.ptr + buffer.capacity ≤ a)
          → (a < buffer.ptr) ⊎ (buffer.ptr + length bytes ≤ a)
      nearer a (inl lt) = inl lt
      nearer a (inr ge) = inr (omega arith)

  -- What a call says of an error and a number of bytes.
  pub data Report (error n : ℕ) : Io ⊎ ℕ → Type 0 where
    at_end : error ≡ socket.eof → Report error n (inl invalid_stream_exception)
    was_reset :
        error ≢ socket.eof
        → error ≡ socket.connection_reset
        → Report error n (inl stream_reset_exception)
    other :
        error ≢ socket.eof
        → error ≢ socket.connection_reset
        → error ≢ 0
        → Report error n (inl unknown_io_exception)
    fine : error ≢ socket.eof → error ≢ socket.connection_reset → error ≡ 0 → Report error n (inr n)

  abbrev pub reported : ℕ → Option Io → Io ⊎ ℕ
  reported n (some e) = inl e
  reported n none = inr n

  thrown-Report : (error n : ℕ) → Report error n (reported n (thrown socket error))
  unfolding thrown
  thrown-Report error n = elim (ℕ_discrete error socket.eof) [
    | yes e ↦ subst (Report error n) (ground arith) (at_end e)
    | no ne ↦ elim (ℕ_discrete error socket.connection_reset) [
      | yes r ↦ subst (Report error n) (ground arith) (was_reset ne r)
      | no nr ↦ elim (ℕ_discrete error 0) [
        | yes z ↦ subst (Report error n) (ground arith) (fine ne nr z)
        | no nz ↦ subst (Report error n) (ground arith) (other ne nr nz)
      ]
    ]
  ]

  by_report :
      (o : Option Io) (n : ℕ) (m : Memory) (s : S)
      → elim o as (λ x. (Io ⊎ ℕ) × Memory × S) [ some e ↦ (inl e, m, s) | none ↦ (inr n, m, s) ]
        ≡ (reported n o, m, s)
  by_report (some e) n m s = refl
  by_report none n m s = refl

  -- `read_some`, by the answer of the socket.
  pub read_some-reported :
      (m : Memory) (buffer : Buffer) (n : ℕ) (s : S)
      → read_some socket m buffer n s ≡ (
        reported (length (socket.read_some n s).0) (thrown socket (socket.read_some n s).1),
        store (memset m buffer.ptr buffer.capacity) buffer.ptr (socket.read_some n s).0,
        (socket.read_some n s).2,
      )
  unfolding read_some
  read_some-reported m buffer n s =
      by_report (thrown socket (socket.read_some n s).1) (length (socket.read_some n s).0)
        (store (memset m buffer.ptr buffer.capacity) buffer.ptr (socket.read_some n s).0)
        (socket.read_some n s).2

  -- `read_some` throws for every error of the socket and for no other reason, each error by the
  -- exception of its kind; otherwise it returns how many bytes the socket gave. In either case
  -- these bytes stand at the head of the buffer, the rest of the buffer is zero and nothing outside
  -- of the buffer changed, provided the socket gave no more bytes than the buffer can hold.
  pub read_some_lem :
      (m : Memory) (buffer : Buffer) (n : ℕ) (s : S)
      → length (socket.read_some n s).0 ≤ buffer.capacity
      → Report
          (socket.read_some n s).1
          (length (socket.read_some n s).0)
          (read_some socket m buffer n s).0
        × Reads m buffer (socket.read_some n s).0 (read_some socket m buffer n s).1
  read_some_lem m buffer n s le = (
    subst (Report (socket.read_some n s).1 (length (socket.read_some n s).0))
        (ap (λ o. o.0) (sym (read_some-reported m buffer n s)))
        (thrown-Report (socket.read_some n s).1 (length (socket.read_some n s).0)),
    subst (Reads m buffer (socket.read_some n s).0)
        (ap (λ o. o.1) (sym (read_some-reported m buffer n s)))
        (filled-Reads m buffer (socket.read_some n s).0 le),
  )
