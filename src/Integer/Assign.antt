-- ===== src/Integer/Assign.antt =====
-- Assignments to an integer of vee/type/generic/unsigned_integer.h and conversions from it.
use vee.Common.{
  ℕ, ◌-◌, ◌%◌, ◌^◌, ◌≤◌, ◌<◌, ◌≡◌, ◌∙◌, sym, ap, ap₂, subst, Option, some, List, ◌++◌, arith,
  length, take, drop, replicate, length-append, length-replicate, length-take, length-drop, dec_le,
  append-nil,
}
use native.Mathlib.Nat.{mod-eq_of_lt}
use vee.Integer.Memory.{memmove, load}
use vee.Integer.Values.{
  IsBytes, IsBytes-take, IsBytes-append, IsBytes-zeros, load-lt, load-take_mod, load-append_zeros,
  take-all, drop-all, drop-replicate, pow_mono,
}
use vee.Integer.{assign, cast, casting_greater_or_equal, casting_less}

-- A call that gives `size` bytes, which stand for `n`.
pub record Holds (call : Option (List ℕ)) (size n : ℕ) : Type 0 where
  pub bytes : List ℕ
  pub returns : call ≡ some bytes
  pub same_size : length bytes ≡ size
  pub value : load bytes ≡ n
  pub are_bytes : IsBytes bytes

-- A target of at most the size takes the lowest bytes.
low_bytes :
    (dst src : List ℕ)
    → length dst ≤ length src
    → IsBytes src
    → Holds (memmove dst src (length dst)) (length dst) (load src % 256 ^ length dst)
unfolding memmove
low_bytes dst src le v = record {
  bytes = take (length dst) src ++ drop (length dst) dst;
  returns = ground arith;
  same_size = omega (
    arith,
    length-append (take (length dst) src) (drop (length dst) dst),
    length-take (length dst) src,
    length-drop (length dst) dst,
  );
  value =
      ap load (
        ap (λ t. take (length dst) src ++ t) (drop-all dst (length dst) (omega arith))
        ∙ append-nil _)
      ∙ load-take_mod (length dst) src le v;
  are_bytes =
      IsBytes-append (take (length dst) src) (drop (length dst) dst)
        (IsBytes-take (length dst) src v)
        (subst IsBytes (sym (drop-all dst (length dst) (omega arith))) tt);
}

-- A larger one takes all bytes, and zeros above them.
padded :
    (size : ℕ) (src : List ℕ)
    → length src ≤ size
    → IsBytes src
    → Holds (memmove (replicate size 0) src (length src)) size (load src % 256 ^ size)
unfolding memmove
padded size src le v = record {
  bytes = take (length src) src ++ drop (length src) (replicate size 0);
  returns = ground (arith, length-replicate {A = ℕ} size 0);
  same_size = omega (
    arith,
    length-append (take (length src) src) (drop (length src) (replicate size 0)),
    length-take (length src) src,
    length-drop {A = ℕ} (length src) (replicate size 0),
    length-replicate {A = ℕ} size 0,
  );
  value =
      ap load (ap₂ ◌++◌ (take-all src) (drop-replicate (length src) size 0))
      ∙ load-append_zeros src (size - length src)
      ∙ sym (mod-eq_of_lt (omega (arith, load-lt src v, pow_mono (length src) size le)));
  are_bytes =
      IsBytes-append (take (length src) src) (drop (length src) (replicate size 0))
        (IsBytes-take (length src) src v)
        (subst IsBytes (sym (drop-replicate (length src) size 0))
          (IsBytes-zeros (size - length src)));
}

assign-le :
    (data_ rhs : List ℕ)
    → length data_ ≤ length rhs
    → assign data_ rhs ≡ memmove data_ rhs (length data_)
unfolding assign
assign-le data_ rhs le = ground arith

assign-gt :
    (data_ rhs : List ℕ)
    → ¬ (length data_ ≤ length rhs)
    → assign data_ rhs ≡ memmove (replicate (length data_) 0) rhs (length rhs)
unfolding assign
assign-gt data_ rhs gt = ground arith

pub casting_greater_or_equal-Holds :
    (size : ℕ) (data_ : List ℕ)
    → length data_ ≤ size
    → IsBytes data_
    → Holds (casting_greater_or_equal size data_) size (load data_ % 256 ^ size)
unfolding casting_greater_or_equal
casting_greater_or_equal-Holds size data_ le v = padded size data_ le v

pub casting_less-Holds :
    (size : ℕ) (data_ : List ℕ)
    → size ≤ length data_
    → IsBytes data_
    → Holds (casting_less size data_) size (load data_ % 256 ^ size)
unfolding casting_less
casting_less-Holds size data_ le v =
    subst (λ n. Holds (memmove (replicate size 0) data_ n) n (load data_ % 256 ^ n))
      (length-replicate size 0)
      (low_bytes (replicate size 0) data_ (omega (arith, length-replicate {A = ℕ} size 0)) v)

cast-le :
    (size : ℕ) (data_ : List ℕ)
    → length data_ ≤ size
    → cast size data_ ≡ casting_greater_or_equal size data_
unfolding cast
cast-le size data_ le = ground arith

cast-gt :
    (size : ℕ) (data_ : List ℕ)
    → ¬ (length data_ ≤ size)
    → cast size data_ ≡ casting_less size data_
unfolding cast
cast-gt size data_ gt = ground arith

-- An assignment keeps the size of the integer, and gives it the value of the operand modulo
-- 256 ^ size, whichever of the two is larger.
pub assign-Holds :
    (data_ rhs : List ℕ)
    → IsBytes rhs
    → Holds (assign data_ rhs) (length data_) (load rhs % 256 ^ length data_)
unfolding assign
assign-Holds data_ rhs v = elim (dec_le (length data_) (length rhs)) [
  | yes le ↦
      subst (λ c. Holds c (length data_) (load rhs % 256 ^ length data_))
        (sym (assign-le data_ rhs le)) (low_bytes data_ rhs le v)
  | no gt ↦
      subst (λ c. Holds c (length data_) (load rhs % 256 ^ length data_))
        (sym (assign-gt data_ rhs gt)) (padded (length data_) rhs (omega arith) v)
]

-- A conversion to a type of `size` bytes gives the value of the integer modulo 256 ^ size,
-- whichever of the two is larger.
pub cast-Holds :
    (size : ℕ) (data_ : List ℕ)
    → IsBytes data_
    → Holds (cast size data_) size (load data_ % 256 ^ size)
cast-Holds size data_ v = elim (dec_le (length data_) size) [
  | yes le ↦
      subst (λ c. Holds c size (load data_ % 256 ^ size)) (sym (cast-le size data_ le))
        (casting_greater_or_equal-Holds size data_ le v)
  | no gt ↦
      subst (λ c. Holds c size (load data_ % 256 ^ size)) (sym (cast-gt size data_ gt))
        (casting_less-Holds size data_ (omega arith) v)
]

-- A round trip: an operand that is no larger than the integer is assigned to it and read back from
-- it with the same value, whatever the integer held before.
pub cast-assign :
    (data_ rhs : List ℕ)
    → IsBytes rhs
    → length rhs ≤ length data_
    → (d t : List ℕ) × (assign data_ rhs ≡ some d)
      × (cast (length rhs) d ≡ some t)
      × (load t ≡ load rhs)
cast-assign data_ rhs v le = (
  a.bytes,
  c.bytes,
  a.returns,
  c.returns,
  c.value
      ∙ ap (λ n. n % 256 ^ length rhs) (a.value ∙ mod-eq_of_lt wide)
      ∙ mod-eq_of_lt (load-lt rhs v),
)
  where
    a : Holds (assign data_ rhs) (length data_) (load rhs % 256 ^ length data_)
    a = assign-Holds data_ rhs v

    c : Holds (cast (length rhs) a.bytes) (length rhs) (load a.bytes % 256 ^ length rhs)
    c = cast-Holds (length rhs) a.bytes a.are_bytes

    wide : load rhs < 256 ^ length data_
    wide = omega (arith, load-lt rhs v, pow_mono (length rhs) (length data_) le)
