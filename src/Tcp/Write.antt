-- ===== src/Tcp/Write.antt =====
-- `write_some` of comm/tcp.cpp.
use vee.Common.{
  ℕ, zero, suc, ◌+◌, ◌-◌, ◌≤◌, ◌<◌, ◌^◌, ◌≡◌, ◌≢◌, ◌∙◌, ◌⊎◌, inl, inr, refl, sym, ap, subst, Option,
  none, some, List, ◌++◌, append-nil, append_assoc, length, take, arith, add_size, sub_size,
  Option-cases, ℕ_discrete,
}
use vee.Exception.Io.{Io}
use vee.Tcp.{Socket, Buffer, thrown, write_loop, write_some}
use vee.Tcp.Store.{Memory, load, length-load, take-load, load-add, load-range}

-- What the code relies on: `write_some` of the socket sends a prefix of what it is offered, which
-- is not empty where there is no error and there are bytes to send. `sent` is what went out so far.
pub record Sends {S : Type 0} (socket : Socket S) (sent : S → List ℕ) : Type 0 where
  pub within : (bytes : List ℕ) (s : S) → (socket.write_some bytes s).0 ≤ length bytes
  pub prefix :
      (bytes : List ℕ) (s : S)
      → sent (socket.write_some bytes s).2 ≡ sent s ++ take (socket.write_some bytes s).0 bytes
  pub progress :
      (bytes : List ℕ) (s : S)
      → 0 < length bytes
      → (socket.write_some bytes s).1 ≡ 0
      → 0 < (socket.write_some bytes s).0

module _ {S : Type 0} (socket : Socket S) (sent : S → List ℕ) (sends : Sends socket sent) where
  -- How a call ends that had n bytes to send.
  pub data Ends (m : Memory) (p n total : ℕ) (s : S) : Option ((Io ⊎ ℕ) × S) → Type 0 where
    all : (s' : S) → sent s' ≡ sent s ++ load m p n → Ends m p n total s (some (inr total, s'))
    part :
        (e : Io) (k : ℕ) (s' : S)
        → k ≤ n
        → sent s' ≡ sent s ++ load m p k
        → Ends m p n total s (some (inl e, s'))

  thrown-none : (error : ℕ) → thrown socket error ≡ none → error ≡ 0
  unfolding thrown
  thrown-none error h = ground arith

  write_loop-done :
      (fuel : ℕ) (m : Memory) (p r t : ℕ) (s : S)
      → t ≡ r
      → write_loop socket (suc fuel) m p r t s ≡ some (inr t, s)
  unfolding write_loop
  write_loop-done fuel m p r t s e = ground arith

  module _ (fuel : ℕ) (m : Memory) (p r t : ℕ) (s : S) (ne : t ≢ r) where
    abbrev answer : ℕ × ℕ × S
    answer = socket.write_some (load m (p + t) (sub_size r t)) s

    write_loop-error :
        (e : Io)
        → thrown socket answer.1 ≡ some e
        → write_loop socket (suc fuel) m p r t s ≡ some (inl e, answer.2)
    unfolding write_loop
    write_loop-error e h = ground (arith, h)

    write_loop-on :
        thrown socket answer.1 ≡ none
        → write_loop socket (suc fuel) m p r t s
          ≡ write_loop socket fuel m p r (add_size t answer.0) answer.2
    unfolding write_loop
    write_loop-on h = ground (arith, h)

  -- The bytes that one call sends, and how the loop goes on with the others.
  joined :
      (m : Memory) (q q' n k j : ℕ) (s s' s'' : S)
      → sent s' ≡ sent s ++ load m q n
      → sent s'' ≡ sent s' ++ load m q' k
      → q' ≡ q + n
      → n + k ≡ j
      → sent s'' ≡ sent s ++ load m q j
  joined m q q' n k j s s' s'' e e' eq ej =
      e'
      ∙ ap (λ xs. xs ++ load m q' k) e
      ∙ append_assoc (sent s) (load m q n) (load m q' k)
      ∙ ap (λ xs. sent s ++ xs)
          (ap (λ xs. load m q n ++ xs) (load-range m q' (q + n) k k eq refl)
            ∙ load-add m n k q
            ∙ load-range m q q (n + k) j refl ej)

  extend :
      (m : Memory) (p r t n u total : ℕ) (s s' : S) (o : Option ((Io ⊎ ℕ) × S))
      → u ≡ t + n
      → u ≤ r
      → sent s' ≡ sent s ++ load m (p + t) n
      → Ends m (p + u) (r - u) total s' o
      → Ends m (p + t) (r - t) total s o
  extend m p r t n u total s s' _ eu le e (all s'' e') =
      all s'' (joined m (p + t) (p + u) n (r - u) (r - t) s s' s'' e e' (omega arith) (omega arith))
  extend m p r t n u total s s' _ eu le e (part err k s'' lek e') =
      part err (n + k) s'' (omega arith)
        (joined m (p + t) (p + u) n k (n + k) s s' s'' e e' (omega arith) refl)

  abbrev offered : Memory → ℕ → ℕ → ℕ → List ℕ
  offered m p r t = load m (p + t) (sub_size r t)

  module _ (m : Memory) (p r t : ℕ) (s : S) (lt : t < r) (small : r < 2 ^ 64) where
    count-le : (socket.write_some (offered m p r t) s).0 ≤ r - t
    count-le = omega (arith, sends.within (offered m p r t) s, length-load m (p + t) (sub_size r t))

    count-pos :
        (socket.write_some (offered m p r t) s).1 ≡ 0
        → 0 < (socket.write_some (offered m p r t) s).0
    count-pos e =
        sends.progress (offered m p r t) s (omega (arith, length-load m (p + t) (sub_size r t))) e

    sent-count :
        sent (socket.write_some (offered m p r t) s).2
        ≡ sent s ++ load m (p + t) (socket.write_some (offered m p r t) s).0
    sent-count =
        sends.prefix (offered m p r t) s
        ∙ ap (λ xs. sent s ++ xs)
            (take-load m (socket.write_some (offered m p r t) s).0 (sub_size r t) (p + t)
              (omega (arith, count-le)))

  write_loop-Ends :
      (fuel : ℕ) (m : Memory) (p r t : ℕ) (s : S)
      → t ≤ r
      → r < 2 ^ 64
      → r - t < fuel
      → Ends m (p + t) (r - t) r s (write_loop socket fuel m p r t s)
  write_loop-Ends zero m p r t s le small enough = absurd (omega arith)
  write_loop-Ends (suc fuel) m p r t s le small enough = elim (ℕ_discrete t r) [
    | yes e ↦
        subst (Ends m (p + t) (r - t) r s)
          (sym (write_loop-done fuel m p r t s e ∙ ap (λ k. some (inr k, s)) e))
          (all s (
            sym (append-nil (sent s))
            ∙ ap (λ xs. sent s ++ xs) (load-range m (p + t) (p + t) 0 (r - t) refl (omega arith))))
    | no ne ↦ elim (Option-cases (thrown socket (socket.write_some (offered m p r t) s).1)) [
      | inl h ↦ subst (Ends m (p + t) (r - t) r s) (sym (write_loop-on fuel m p r t s ne h)) (
          let n : ℕ = (socket.write_some (offered m p r t) s).0 in
          let some_sent : 0 < n =
            count-pos m p r t s (omega arith) small
              (thrown-none (socket.write_some (offered m p r t) s).1 h) in
          let few : n ≤ r - t = count-le m p r t s (omega arith) small in
          extend m p r t n (add_size t n) r s (socket.write_some (offered m p r t) s).2
            (write_loop socket fuel m p r (add_size t n) (socket.write_some (offered m p r t) s).2)
            (omega arith) (omega arith) (sent-count m p r t s (omega arith) small)
            (write_loop-Ends fuel m p r (add_size t n) (socket.write_some (offered m p r t) s).2
              (omega arith) small (omega arith)))
      | inr (e, h) ↦
          subst (Ends m (p + t) (r - t) r s) (sym (write_loop-error fuel m p r t s ne e h)) (
            part e (socket.write_some (offered m p r t) s).0
              (socket.write_some (offered m p r t) s).2 (count-le m p r t s (omega arith) small)
              (sent-count m p r t s (omega arith) small))
    ]
  ]

  -- Over a socket that sends a prefix of what it is offered, and more than nothing where it reports
  -- no error, a `write_some` of fewer than 2 ^ 64 bytes ends: it returns the number of bytes
  -- requested, and these bytes of the buffer went out, each once and in order; or it throws, and
  -- some first bytes of them went out. Fuel beyond the number of bytes is enough.
  pub write_some-Ends :
      (fuel : ℕ) (m : Memory) (buffer : Buffer) (bytes_requested : ℕ) (s : S)
      → bytes_requested < 2 ^ 64
      → bytes_requested < fuel
      → Ends m buffer.ptr bytes_requested bytes_requested s
          (write_some socket fuel m buffer bytes_requested s)
  unfolding write_some
  write_some-Ends fuel m buffer r s small enough =
      let start : buffer.ptr + 0 ≡ buffer.ptr = omega arith in
      let whole : r - 0 ≡ r = omega arith in
      subst (λ q. Ends m q r r s (write_loop socket fuel m buffer.ptr r 0 s)) start
        (subst (λ k. Ends m (buffer.ptr + 0) k r s (write_loop socket fuel m buffer.ptr r 0 s))
          whole (write_loop-Ends fuel m buffer.ptr r 0 s (omega arith) small (omega arith)))
