-- ===== src/Tests/Bits.antt =====
-- Tests of vee/helper/bitmagic.h and vee/helper/term.h.
use vee.Common.{◌≡◌, refl, arith, [], ◌∷◌, ◌++◌}
use vee.CString.{codes}
use vee.Bits.{to_bit_string, hex_byte, print_bytes, print_bytes_reverse}
use vee.Bits.Readers.{read_bytes, read_bytes-to_bit_string}
use vee.Bits.Lines.{print_bytes_reverse-backwards}

to_bit_string_five : to_bit_string (5 ∷ []) ≡ codes "10100000 "
unfolding to_bit_string
to_bit_string_five = refl

print_bytes_two : print_bytes 2 (10 ∷ 255 ∷ 1 ∷ []) ≡ codes "0x0A 0xFF \n0x01 "
unfolding print_bytes
print_bytes_two = refl

read_bytes-to_bit_string_example : read_bytes 2 (to_bit_string (5 ∷ 255 ∷ [])) ≡ 5 ∷ 255 ∷ []
read_bytes-to_bit_string_example = read_bytes-to_bit_string (5 ∷ 255 ∷ []) (omega arith)

print_bytes_reverse-backwards_example :
    print_bytes_reverse 16 (2 ∷ 7 ∷ 10 ∷ [])
    ≡ hex_byte 10 ++ codes "\n" ++ print_bytes 16 (7 ∷ 2 ∷ [])
print_bytes_reverse-backwards_example =
    print_bytes_reverse-backwards 16 10 (7 ∷ 2 ∷ []) (omega arith)
