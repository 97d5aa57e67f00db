-- ===== src/Integer/Memory.antt =====
-- The memory functions that vee/type/generic calls, over arrays of bytes. An access outside an
-- array has no result.
use vee.Common.{
  ℕ, ◌+◌, ◌*◌, Bool, true, false, ◌&&◌, Option, none, some, List, [], ◌∷◌, ◌++◌, leb, ◌==◌,
  if◌then◌else◌, length, take, drop,
}

-- `memmove(dst, src, n)`: the array `dst` afterwards.
unfoldable pub memmove : List ℕ → List ℕ → ℕ → Option (List ℕ)
memmove dst src n =
    if leb n (length dst) && leb n (length src) then some (take n src ++ drop n dst) else none

abbrev pub same_bytes : List ℕ → List ℕ → Bool
same_bytes [] [] = true
same_bytes [] (c ∷ cs) = false
same_bytes (b ∷ bs) [] = false
same_bytes (b ∷ bs) (c ∷ cs) = b == c && same_bytes bs cs

-- `memcmp(a, b, n) == 0`.
unfoldable pub memcmp : List ℕ → List ℕ → ℕ → Option Bool
memcmp a b n =
    if leb n (length a) && leb n (length b) then some (same_bytes (take n a) (take n b)) else none

-- The integer that bytes stand for, the lowest byte first.
abbrev pub load : List ℕ → ℕ
load [] = 0
load (b ∷ bs) = b + 256 * load bs

-- `*reinterpret_cast<uint64_t*>(p + from)`: the eight bytes from an index on.
unfoldable pub load_at : List ℕ → ℕ → Option ℕ
load_at p from = if leb (from + 8) (length p) then some (load (take 8 (drop from p))) else none
