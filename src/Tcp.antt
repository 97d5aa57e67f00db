-- ===== src/Tcp.antt =====
-- `tcp_stream` of comm/tcp.cpp: the calls that wait. The socket is Boost's, a parameter here: a
-- record of what the code calls, over a state of its own.
pub mod Store
pub mod Write
pub mod Read
pub mod Explicit
pub mod Stream
pub mod Async
pub mod Server
use vee.Common.{
  ℕ, zero, suc, ◌+◌, Bool, true, false, Option, none, some, List, [], ◌∷◌, length, ◌==◌, ltb,
  add_size, sub_size, ◌⊎◌, inl, inr,
}
use vee.Exception.Io.{Io, invalid_stream_exception, stream_reset_exception, unknown_io_exception}
use vee.Tcp.Store.{Memory, load, store, memset}

-- Boost's socket. An error code is its value, which is 0 where there is no error.
pub record Socket (S : Type 0) : Type 0 where
  pub eof : ℕ
  pub connection_reset : ℕ
  -- The bytes that are offered; how many were sent, and the error.
  pub write_some : List ℕ → S → ℕ × ℕ × S
  -- The greatest number of bytes to read; the bytes, and the error.
  pub read_some : ℕ → S → List ℕ × ℕ × S

-- `io::buffer`.
pub record Buffer : Type 0 where
  pub ptr : ℕ
  pub capacity : ℕ

module _ {S : Type 0} (socket : Socket S) where
  -- The tests of the error behind a call of the socket, and what they throw.
  unfoldable pub thrown : ℕ → Option Io
  thrown error = elim (error == socket.eof) [
    | true ↦ some invalid_stream_exception
    | false ↦ elim (error == socket.connection_reset) [
      | true ↦ some stream_reset_exception
      | false ↦ elim error [ zero ↦ none | suc e ↦ some unknown_io_exception ]
    ]
  ]

  -- The loop of `write_some`: what it throws or returns, and the socket; none without fuel.
  unfoldable pub write_loop : ℕ → Memory → ℕ → ℕ → ℕ → S → Option ((Io ⊎ ℕ) × S)
  write_loop zero m ptr bytes_requested bytes_transferred s = none
  write_loop (suc fuel) m ptr bytes_requested bytes_transferred s =
      elim (bytes_transferred == bytes_requested) [
        | true ↦ some (inr bytes_transferred, s)
        | false ↦
            let answer : ℕ × ℕ × S =
              socket.write_some
                (load m (ptr + bytes_transferred) (sub_size bytes_requested bytes_transferred)) s in
            let rest : Option ((Io ⊎ ℕ) × S) =
              write_loop fuel m ptr bytes_requested (add_size bytes_transferred answer.0)
                answer.2 in
            elim (thrown answer.1) [ some e ↦ some (inl e, answer.2) | none ↦ rest ]
      ]

  unfoldable pub write_some : ℕ → Memory → Buffer → ℕ → S → Option ((Io ⊎ ℕ) × S)
  unfolding write_loop
  write_some fuel m buffer bytes_requested s = write_loop fuel m buffer.ptr bytes_requested 0 s

  -- `read_some`: what it throws or returns, the memory, and the socket.
  unfoldable pub read_some : Memory → Buffer → ℕ → S → (Io ⊎ ℕ) × Memory × S
  unfolding thrown
  read_some m buffer maximum_read_bytes s =
      let answer : List ℕ × ℕ × S = socket.read_some maximum_read_bytes s in
      let filled : Memory = store (memset m buffer.ptr buffer.capacity) buffer.ptr answer.0 in
      elim (thrown answer.1) [
        | some e ↦ (inl e, filled, answer.2)
        | none ↦ (inr (length answer.0), filled, answer.2)
      ]

  -- The loop of `read_explicit`. Both the pointer and the capacity go on by all the bytes so far.
  unfoldable pub read_loop : ℕ → Memory → Buffer → ℕ → ℕ → S → Option ((Io ⊎ ℕ) × Memory × S)
  unfolding read_some
  read_loop zero m buffer bytes_requested bytes_transferred s = none
  read_loop (suc fuel) m buffer bytes_requested bytes_transferred s =
      elim (ltb bytes_transferred bytes_requested) [
        | false ↦ some (inr bytes_transferred, m, s)
        | true ↦
            let answer : (Io ⊎ ℕ) × Memory × S = read_some m buffer bytes_requested s in
            elim answer.0 [
              | inl e ↦ some (inl e, answer.1, answer.2)
              | inr n ↦
                  let total : ℕ = add_size bytes_transferred n in
                  read_loop fuel answer.1
                    (record { ptr = buffer.ptr + total; capacity = sub_size buffer.capacity total })
                    bytes_requested total answer.2
            ]
      ]

  unfoldable pub read_explicit : ℕ → Memory → Buffer → ℕ → S → Option ((Io ⊎ ℕ) × Memory × S)
  unfolding read_loop
  read_explicit fuel m buffer bytes_requested s = read_loop fuel m buffer bytes_requested 0 s
