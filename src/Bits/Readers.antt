-- ===== src/Bits/Readers.antt =====
-- Reading back what `to_bit_string` writes, and comparing it with what `print_bits` prints.
use vee.Common.{
  ℕ, zero, suc, ◌+◌, ◌-◌, ◌*◌, ◌/◌, ◌%◌, ◌^◌, ◌<◌, ◌≤◌, ◌≡◌, ◌∙◌, refl, sym, ap, ap₂, Bool, true,
  ◌&&◌, List, [], ◌∷◌, ◌++◌, append_assoc, ◌==◌, ==→eq, arith, length, take, drop, decimal_digit,
}
use vee.CString.{codes, c_str}
use vee.Bits.{getbit, bit_digits, to_bit_string, print_digits, print_bits}

-- A test of every value below a bound.
abbrev all_below : ℕ → (ℕ → Bool) → Bool
all_below zero p = true
all_below (suc n) p = p n && all_below n p

all_below-true : (n : ℕ) (p : ℕ → Bool) (x : ℕ) → all_below n p ≡ true → x < n → p x ≡ true
all_below-true zero p x h lt = absurd (omega arith)
all_below-true (suc n) p x h lt = ground (arith, all_below-true n p x)

getbit_table : all_below 256 (λ x. all_below 8 (λ n. getbit x n == x / 2 ^ n % 2)) ≡ true
unfolding getbit
getbit_table = refl

-- `getbit` of a byte and of an index below 8 is the bit that the index counts from the lowest.
pub getbit_lem : (x n : ℕ) → x < 256 → n < 8 → getbit x n ≡ x / 2 ^ n % 2
getbit_lem x n small lt = ==→eq (getbit x n) (x / 2 ^ n % 2) (
    all_below-true 8 (λ n. getbit x n == x / 2 ^ n % 2) n
      (all_below-true 256 (λ x. all_below 8 (λ n. getbit x n == x / 2 ^ n % 2)) x getbit_table
        small)
      lt)

-- The number that a row of binary digits stands for, the lowest digit first.
abbrev pub binary : List ℕ → ℕ
binary [] = 0
binary (d ∷ ds) = (d - 48) + binary ds * 2

-- So many bytes, each of 8 digits and a space.
abbrev pub read_bytes : ℕ → List ℕ → List ℕ
read_bytes zero s = []
read_bytes (suc n) s = binary (take 8 s) ∷ read_bytes n (drop 9 s)

-- Each value is one of a byte.
abbrev pub AreBytes : List ℕ → Type 0
AreBytes [] = Unit
AreBytes (c ∷ bytes) = (c < 256) × AreBytes bytes

binary_table : all_below 256 (λ c. binary (bit_digits 8 c 0) == c) ≡ true
unfolding bit_digits getbit
binary_table = refl

binary-bit_digits : (c : ℕ) → c < 256 → binary (bit_digits 8 c 0) ≡ c
binary-bit_digits c small =
    ==→eq (binary (bit_digits 8 c 0)) c
      (all_below-true 256 (λ c. binary (bit_digits 8 c 0) == c) c binary_table small)

c_str-cons : (c : ℕ) (cs : List ℕ) → 0 < c → c_str (c ∷ cs) ≡ c ∷ c_str cs
c_str-cons zero cs lt = absurd (omega arith)
c_str-cons (suc c) cs lt = refl

-- No digit ends the string in the buffer.
c_str-bit_digits :
    (n c j : ℕ) (rest : List ℕ) → c_str (bit_digits n c j ++ rest) ≡ bit_digits n c j ++ c_str rest
unfolding bit_digits
c_str-bit_digits zero c j rest = refl
c_str-bit_digits (suc n) c j rest =
    c_str-cons (getbit c j + 48) (bit_digits n c (j + 1) ++ rest) (omega arith)
    ∙ ap (λ cs. (getbit c j + 48) ∷ cs) (c_str-bit_digits n c (j + 1) rest)

byte_text :
    (c : ℕ) (bytes : List ℕ)
    → to_bit_string (c ∷ bytes) ≡ bit_digits 8 c 0 ++ (32 ∷ to_bit_string bytes)
unfolding to_bit_string
byte_text c bytes =
    ap (λ s. s ++ to_bit_string bytes) (c_str-bit_digits 8 c 0 (codes " " ++ (0 ∷ [])))
    ∙ append_assoc (bit_digits 8 c 0) (32 ∷ []) (to_bit_string bytes)

take_digits : (c : ℕ) (rest : List ℕ) → take 8 (bit_digits 8 c 0 ++ rest) ≡ bit_digits 8 c 0
unfolding bit_digits
take_digits c rest = refl

drop_digits : (c : ℕ) (rest : List ℕ) → drop 9 (bit_digits 8 c 0 ++ (32 ∷ rest)) ≡ rest
unfolding bit_digits
drop_digits c rest = refl

length_digits : (c : ℕ) (rest : List ℕ) → length (bit_digits 8 c 0 ++ rest) ≡ 8 + length rest
unfolding bit_digits
length_digits c rest = omega arith

-- Reading the bytes back from what `to_bit_string` makes of an object gives the object's bytes.
pub read_bytes-to_bit_string :
    (bytes : List ℕ) → AreBytes bytes → read_bytes (length bytes) (to_bit_string bytes) ≡ bytes
unfolding to_bit_string
read_bytes-to_bit_string [] are = refl
read_bytes-to_bit_string (c ∷ bytes) (small, are) =
    ap (read_bytes (suc (length bytes))) (byte_text c bytes)
    ∙ ap₂ (λ d ds. d ∷ ds)
        (ap binary (take_digits c (32 ∷ to_bit_string bytes)) ∙ binary-bit_digits c small)
        (ap (read_bytes (length bytes)) (drop_digits c (to_bit_string bytes))
          ∙ read_bytes-to_bit_string bytes are)

-- The string has nine characters for each byte.
pub length-to_bit_string : (bytes : List ℕ) → length (to_bit_string bytes) ≡ 9 * length bytes
unfolding to_bit_string
length-to_bit_string [] = refl
length-to_bit_string (c ∷ bytes) =
    ap length (byte_text c bytes)
    ∙ omega (arith, length_digits c (32 ∷ to_bit_string bytes), length-to_bit_string bytes)

print_digits-bit_digits : (n c j : ℕ) → c < 256 → j + n ≤ 8 → print_digits n c j ≡ bit_digits n c j
unfolding print_digits bit_digits
print_digits-bit_digits zero c j small le = refl
print_digits-bit_digits (suc n) c j small le =
    ap₂ (λ d ds. d ++ ds)
      (decimal_digit (getbit c j) (omega (arith, getbit_lem c j small (omega arith))))
      (print_digits-bit_digits n c (j + 1) small (omega arith))

-- `print_bits` prints exactly the string that `to_bit_string` makes.
pub print_bits-to_bit_string :
    (bytes : List ℕ) → AreBytes bytes → print_bits bytes ≡ to_bit_string bytes
unfolding print_bits to_bit_string
print_bits-to_bit_string [] are = refl
print_bits-to_bit_string (c ∷ bytes) (small, are) =
    ap₂ (λ d s. d ++ (32 ∷ []) ++ s) (print_digits-bit_digits 8 c 0 small (omega arith))
      (print_bits-to_bit_string bytes are)
    ∙ sym (byte_text c bytes)
