-- ===== src/Integer/Equal.antt =====
-- `operator==` of vee/type/generic/unsigned_integer.h.
use vee.Common.{
  ℕ, ◌+◌, ◌-◌, ◌≤◌, ◌<◌, ◌≡◌, refl, ◌∙◌, sym, ap, ap₂, subst, Bool, true, Option, none, some, List,
  [], ◌∷◌, ◌++◌, arith, length, take, replicate, ℕ_discrete, length-append, length-replicate,
}
use vee.Integer.Memory.{memmove, memcmp, load, same_bytes}
use vee.Integer.Values.{
  IsBytes, same_bytes_iff, load-injective, take-all, drop-replicate, load-append_zeros,
  IsBytes-append, IsBytes-zeros,
}
use vee.Integer.{equal_to, equal_to_same, equal_to_less, equal_to_greater, word_size}

memcmp-same : (a b : List ℕ) → length a ≡ length b → memcmp a b (length a) ≡ some (same_bytes a b)
unfolding memcmp
memcmp-same a b len =
    ground (arith, len)
    ∙ ap₂ (λ x y. some (same_bytes x y)) (take-all a) (ap (λ n. take n b) len ∙ take-all b)

-- The comparison of operands of one size tells whether they have one value.
pub record Decides (call : Option Bool) (a b : ℕ) : Type 0 where
  pub answer : Bool
  pub returns : call ≡ some answer
  pub sound : answer ≡ true → a ≡ b
  pub complete : a ≡ b → answer ≡ true

bytes-Decides :
    (a b : List ℕ)
    → IsBytes a
    → IsBytes b
    → length a ≡ length b
    → Decides (memcmp a b (length a)) (load a) (load b)
bytes-Decides a b v w len = record {
  answer = same_bytes a b;
  returns = memcmp-same a b len;
  sound = λ e. ap load ((same_bytes_iff a b).0 e);
  complete = λ e. (same_bytes_iff a b).1 (load-injective a b v w len e);
}

-- The smaller array, moved into one of zeros.
pub padded_bytes :
    (size : ℕ) (src : List ℕ)
    → length src ≤ size
    → memmove (replicate size 0) src (length src) ≡ some (src ++ replicate (size - length src) 0)
unfolding memmove
padded_bytes size src le =
    ground (arith, length-replicate {A = ℕ} size 0)
    ∙ ap₂ (λ x y. some (x ++ y)) (take-all src) (drop-replicate (length src) size 0)

equal_to-same :
    (data_ rhs : List ℕ)
    → length data_ ≡ length rhs
    → equal_to data_ rhs ≡ memcmp data_ rhs (length data_)
unfolding equal_to equal_to_same
equal_to-same data_ rhs len = ground arith

equal_to-greater :
    (data_ rhs : List ℕ)
    → length data_ < length rhs
    → equal_to data_ rhs
      ≡ memcmp (data_ ++ replicate (length rhs - length data_) 0) rhs (length rhs)
unfolding equal_to equal_to_greater
equal_to-greater data_ rhs lt = ground (arith, padded_bytes (length rhs) data_ (omega arith))

equal_to-less :
    (data_ rhs : List ℕ)
    → length rhs < length data_
    → equal_to data_ rhs ≡ memcmp data_ (rhs ++ replicate (length data_ - length rhs) 0) word_size
unfolding equal_to equal_to_less
equal_to-less data_ rhs lt = ground (arith, padded_bytes (length data_) rhs (omega arith))

-- Compared with an operand that is no smaller, an integer answers whether both have one value.
pub equal_to-Decides :
    (data_ rhs : List ℕ)
    → IsBytes data_
    → IsBytes rhs
    → length data_ ≤ length rhs
    → Decides (equal_to data_ rhs) (load data_) (load rhs)
equal_to-Decides data_ rhs v w le = elim (ℕ_discrete (length data_) (length rhs)) [
  | yes len ↦
      subst (λ c. Decides c (load data_) (load rhs)) (sym (equal_to-same data_ rhs len))
        (bytes-Decides data_ rhs v w len)
  | no ne ↦
      subst (λ c. Decides c (load data_) (load rhs))
        (sym (equal_to-greater data_ rhs (omega arith)))
        (wide (length rhs - length data_) (omega arith))
]
  where
    wide :
        (k : ℕ)
        → length data_ + k ≡ length rhs
        → Decides (memcmp (data_ ++ replicate k 0) rhs (length rhs)) (load data_) (load rhs)
    wide k e =
        let len : length (data_ ++ replicate k 0) ≡ length rhs =
          omega (arith, length-append data_ (replicate k 0), length-replicate {A = ℕ} k 0) in
        let d =
          bytes-Decides (data_ ++ replicate k 0) rhs
            (IsBytes-append data_ (replicate k 0) v (IsBytes-zeros k)) w len in
        record {
          answer = d.answer;
          returns = ap (memcmp (data_ ++ replicate k 0) rhs) (sym len) ∙ d.returns;
          sound = λ h. sym (load-append_zeros data_ k) ∙ d.sound h;
          complete = λ h. d.complete (load-append_zeros data_ k ∙ h);
        }

memcmp-some :
    (a b : List ℕ) (n : ℕ)
    → n ≤ length a
    → n ≤ length b
    → memcmp a b n ≡ some (same_bytes (take n a) (take n b))
unfolding memcmp
memcmp-some a b n la lb = ground arith

memcmp-none : (a b : List ℕ) (n : ℕ) → length a < n → memcmp a b n ≡ none
unfolding memcmp
memcmp-none a b n lt = ground arith

take-append : (bs cs : List ℕ) → take (length bs) (bs ++ cs) ≡ bs
take-append [] cs = refl
take-append (b ∷ bs) cs = ap (λ t. b ∷ t) (take-append bs cs)

-- An integer of more than 8 bytes is equal to every operand of 64 bits that is its lowest 8 bytes,
-- whatever its bytes above those are.
pub equal_to_ignores_high_bytes :
    (rhs high : List ℕ)
    → length rhs ≡ word_size
    → 0 < length high
    → equal_to (rhs ++ high) rhs ≡ some true
equal_to_ignores_high_bytes rhs high eight more =
    equal_to-less (rhs ++ high) rhs (omega (arith, length-append rhs high))
    ∙ ap (memcmp (rhs ++ high) padded_rhs) (sym eight)
    ∙ memcmp-some (rhs ++ high) padded_rhs (length rhs) (omega (arith, length-append rhs high))
        (omega (arith, length-append rhs zeros))
    ∙ ap some (
        (same_bytes_iff (take (length rhs) (rhs ++ high)) (take (length rhs) padded_rhs)).1
          (take-append rhs high ∙ sym (take-append rhs zeros)))
  where
    zeros : List ℕ
    zeros = replicate (length (rhs ++ high) - length rhs) 0

    padded_rhs : List ℕ
    padded_rhs = rhs ++ zeros

-- An integer of fewer than 8 bytes, compared with a smaller operand, reads beyond its own bytes.
pub equal_to_reads_beyond :
    (data_ rhs : List ℕ)
    → length rhs < length data_
    → length data_ < word_size
    → equal_to data_ rhs ≡ none
equal_to_reads_beyond data_ rhs lt small =
    equal_to-less data_ rhs lt
    ∙ memcmp-none data_ (rhs ++ replicate (length data_ - length rhs) 0) word_size small
