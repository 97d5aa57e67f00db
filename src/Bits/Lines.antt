-- ===== src/Bits/Lines.antt =====
-- The lines of `print_bytes` and `print_bytes_reverse`.
use vee.Common.{
  ℕ, zero, suc, ◌+◌, ◌≤◌, ◌<◌, ◌≡◌, ◌∙◌, refl, sym, ap, ap₂, none, some, List, [], ◌∷◌, ◌++◌, arith,
  length, length-append, get_elem?-append_last, get_elem?-append_left,
}
use native.Mathlib.Nat.{mod-eq_of_lt}
use vee.CString.{codes}
use vee.Bits.{
  hex_byte, line_end, print_hexa, print_bytes_from, print_bytes, print_reversed,
  print_bytes_reverse,
}

no_line_end : (threshold i : ℕ) → 0 < i → i < threshold → line_end threshold i ≡ []
no_line_end threshold i pos lt = ground (arith, mod-eq_of_lt lt)

print_bytes_from-print_hexa :
    (threshold i : ℕ) (bytes : List ℕ)
    → 0 < i
    → i + length bytes ≤ threshold
    → print_bytes_from threshold i bytes ≡ print_hexa bytes
unfolding print_bytes_from print_hexa
print_bytes_from-print_hexa threshold i [] pos le = refl
print_bytes_from-print_hexa threshold i (b ∷ bytes) pos le =
    ap₂ (λ e s. hex_byte b ++ e ++ s) (no_line_end threshold i pos (omega arith))
      (print_bytes_from-print_hexa threshold (i + 1) bytes (omega arith) (omega arith))

-- Of fewer bytes than the threshold, `print_bytes` prints what `print_hexa` does, on one line.
pub print_bytes-print_hexa :
    (threshold : ℕ) (bytes : List ℕ)
    → length bytes < threshold
    → print_bytes threshold bytes ≡ print_hexa bytes
unfolding print_bytes
print_bytes-print_hexa threshold bytes lt =
    print_bytes_from-print_hexa threshold 1 bytes (omega arith) (omega arith)

line_end_zero : (threshold : ℕ) → 0 < threshold → line_end threshold 0 ≡ codes "\n"
line_end_zero threshold pos = ground (arith, mod-eq_of_lt pos)

abbrev pub backwards : List ℕ → List ℕ
backwards [] = []
backwards (b ∷ bytes) = backwards bytes ++ (b ∷ [])

length-backwards : (bytes : List ℕ) → length (backwards bytes) ≡ length bytes
length-backwards [] = refl
length-backwards (b ∷ bytes) =
    omega (arith, length-append (backwards bytes) (b ∷ []), length-backwards bytes)

-- What stands behind the index is not printed.
print_reversed-append :
    (threshold cnt i : ℕ) (xs ys : List ℕ)
    → i ≤ length xs
    → print_reversed threshold cnt i (xs ++ ys) ≡ print_reversed threshold cnt i xs
unfolding print_reversed
print_reversed-append threshold cnt zero xs ys le = refl
print_reversed-append threshold cnt (suc i) xs ys le =
    ap₂
      (λ o rest. elim o as (λ x. List ℕ) [
        | none ↦ []
        | some b ↦ hex_byte b ++ line_end threshold cnt ++ rest
      ])
      (get_elem?-append_left xs ys i (omega arith))
      (print_reversed-append threshold (cnt + 1) i xs ys (omega arith))

print_reversed-backwards :
    (threshold cnt : ℕ) (bytes : List ℕ)
    → print_reversed threshold cnt (length bytes) (backwards bytes)
      ≡ print_bytes_from threshold cnt bytes
unfolding print_reversed print_bytes_from
print_reversed-backwards threshold cnt [] = refl
print_reversed-backwards threshold cnt (b ∷ bytes) =
    ap₂
      (λ o rest. elim o as (λ x. List ℕ) [
        | none ↦ []
        | some b ↦ hex_byte b ++ line_end threshold cnt ++ rest
      ])
      (get_elem?-append_last (backwards bytes) b (length bytes) (sym (length-backwards bytes)))
      (print_reversed-append threshold (cnt + 1) (length bytes) (backwards bytes) (b ∷ [])
          (omega (arith, length-backwards bytes))
        ∙ print_reversed-backwards threshold (cnt + 1) bytes)

-- `print_bytes_reverse` prints the last byte on a line of its own, and after it what `print_bytes`
-- prints of the other bytes from the last to the first, for every positive threshold.
pub print_bytes_reverse-backwards :
    (threshold b : ℕ) (bytes : List ℕ)
    → 0 < threshold
    → print_bytes_reverse threshold (backwards (b ∷ bytes))
      ≡ hex_byte b ++ codes "\n" ++ print_bytes threshold bytes
unfolding print_bytes_reverse print_bytes print_bytes_from
print_bytes_reverse-backwards threshold b bytes pos =
    ap (λ n. print_reversed threshold 0 n (backwards (b ∷ bytes))) (length-backwards (b ∷ bytes))
    ∙ print_reversed-backwards threshold 0 (b ∷ bytes)
    ∙ ap (λ e. hex_byte b ++ e ++ print_bytes threshold bytes) (line_end_zero threshold pos)
