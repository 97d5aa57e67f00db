-- ===== src/Bits.antt =====
-- vee/helper/bitmagic.h, vee/helper/term.h and helper/term.cpp: the bits and the bytes of an object
-- as text. What is printed is the list of its characters.
pub mod Readers
pub mod Lines
use Prim.Native.Nat.{bit_and}
use vee.Common.{
  ℕ, zero, suc, ◌+◌, ◌*◌, ◌/◌, ◌%◌, ◌^◌, true, false, List, [], ◌∷◌, ◌++◌, ◌==◌, ltb, decimal,
  if◌then◌else◌, none, some, get_elem?, length,
}
use vee.CString.{codes, c_str}

-- `(x & (1 << n)) >> n`, of an `x` of at most 31 bits and an `n` below 31.
unfoldable pub getbit : ℕ → ℕ → ℕ
getbit x n = bit_and x (1 * 2 ^ n) / 2 ^ n

-- The loop over j in `to_bit_string`: so many digits of `c`, from the bit j on.
unfoldable pub bit_digits : ℕ → ℕ → ℕ → List ℕ
unfolding getbit
bit_digits zero c j = []
bit_digits (suc n) c j = (getbit c j + 48) ∷ bit_digits n c (j + 1)

-- `to_bit_string`, of an object's bytes. The buffer has 10 characters, and `append` reads it up to
-- the first zero.
unfoldable pub to_bit_string : List ℕ → List ℕ
unfolding bit_digits
to_bit_string [] = []
to_bit_string (c ∷ bytes) = c_str (bit_digits 8 c 0 ++ codes " " ++ (0 ∷ [])) ++ to_bit_string bytes

-- The loop over j in `print_bits`.
unfoldable pub print_digits : ℕ → ℕ → ℕ → List ℕ
unfolding getbit
print_digits zero c j = []
print_digits (suc n) c j = decimal (getbit c j) ++ print_digits n c (j + 1)

unfoldable pub print_bits : List ℕ → List ℕ
unfolding print_digits
print_bits [] = []
print_bits (c ∷ bytes) = print_digits 8 c 0 ++ codes " " ++ print_bits bytes

-- A digit of `%X`.
abbrev pub hex_digit : ℕ → ℕ
hex_digit d = if ltb d 10 then 48 + d else 55 + d

-- `printf("0x%02X ", byte)`.
unfoldable pub hex_byte : ℕ → List ℕ
hex_byte b = codes "0x" ++ (hex_digit (b / 16) ∷ hex_digit (b % 16) ∷ codes " ")

unfoldable pub print_hexa : List ℕ → List ℕ
unfolding hex_byte
print_hexa [] = []
print_hexa (b ∷ buffer) = hex_byte b ++ print_hexa buffer

-- A line ends here where the number is a multiple of the threshold.
abbrev pub line_end : ℕ → ℕ → List ℕ
line_end threshold i = if i % threshold == 0 then codes "\n" else []

-- `print_bytes` from its round `i`.
unfoldable pub print_bytes_from : ℕ → ℕ → List ℕ → List ℕ
unfolding hex_byte
print_bytes_from threshold i [] = []
print_bytes_from threshold i (b ∷ bytes) =
    hex_byte b ++ line_end threshold i ++ print_bytes_from threshold (i + 1) bytes

unfoldable pub print_bytes : ℕ → List ℕ → List ℕ
unfolding print_bytes_from
print_bytes threshold bytes = print_bytes_from threshold 1 bytes

-- `print_bytes_reverse` with the count so far, from the byte before the index i down to the first.
unfoldable pub print_reversed : ℕ → ℕ → ℕ → List ℕ → List ℕ
unfolding hex_byte
print_reversed threshold cnt zero bytes = []
print_reversed threshold cnt (suc i) bytes = elim (get_elem? bytes i) [
  | none ↦ []
  | some b ↦ hex_byte b ++ line_end threshold cnt ++ print_reversed threshold (cnt + 1) i bytes
]

unfoldable pub print_bytes_reverse : ℕ → List ℕ → List ℕ
unfolding print_reversed
print_bytes_reverse threshold bytes = print_reversed threshold 0 (length bytes) bytes
