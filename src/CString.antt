-- ===== src/CString.antt =====
-- Strings in fixed character buffers, as vee/exception.h and vee/comm/ip.h keep them: the calls of
-- the C library that they make.
use vee.Common.{
  ℕ, zero, suc, ◌+◌, ◌≤◌, ◌<◌, ◌≡◌, refl, ap, Option, none, some, List, [], ◌∷◌, ◌++◌, ltb,
  if◌then◌else◌, arith, length, length-append, length-drop, drop,
}
use Prim.Native.Char.{code}
use Prim.Native.String.{String}

-- The characters of a literal.
abbrev pub codes : String → List ℕ
codes String.[] = []
codes (String.◌∷◌ c s) = code c ∷ codes s

-- The string that a buffer holds: its characters before the first zero.
abbrev pub c_str : List ℕ → List ℕ
c_str [] = []
c_str (zero ∷ cs) = []
c_str (suc c ∷ cs) = suc c ∷ c_str cs

-- `strcpy_s(dst, size, src)`: none where the string with its final zero does not fit, which the
-- library answers by its invalid parameter handler.
unfoldable pub strcpy_s : List ℕ → List ℕ → Option (List ℕ)
strcpy_s dst src =
    if ltb (length src) (length dst) then some (src ++ (0 ∷ drop (length src + 1) dst)) else none

-- No character of a string is zero.
abbrev pub IsText : List ℕ → Type 0
IsText [] = Unit
IsText (c ∷ cs) = (0 < c) × IsText cs

c_str-append : (src rest : List ℕ) → IsText src → c_str (src ++ (0 ∷ rest)) ≡ src
c_str-append [] rest t = refl
c_str-append (zero ∷ src) rest t = absurd (omega arith)
c_str-append (suc c ∷ src) rest t = ap (λ cs. suc c ∷ cs) (c_str-append src rest t.1)

-- A copy that fits is read back, and the buffer keeps its size.
pub strcpy_s_lem :
    (dst src : List ℕ)
    → IsText src
    → length src < length dst
    → (buffer : List ℕ) × (strcpy_s dst src ≡ some buffer)
      × (c_str buffer ≡ src)
      × (length buffer ≡ length dst)
unfolding strcpy_s
strcpy_s_lem dst src t fits = (
  src ++ (0 ∷ drop (length src + 1) dst),
  ground arith,
  c_str-append src _ t,
  omega
      (arith, length-append src (0 ∷ drop (length src + 1) dst), length-drop (length src + 1) dst),
)

pub strcpy_s-none : (dst src : List ℕ) → length dst ≤ length src → strcpy_s dst src ≡ none
unfolding strcpy_s
strcpy_s-none dst src le = ground arith
