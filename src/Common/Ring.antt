-- ===== src/Common/Ring.antt =====
-- Indices that go round a ring of cells.
use Prim.Native.Nat.{ℕ, ◌+◌, ◌-◌, ◌%◌, ◌≤◌, ◌<◌}
use mathlib.Core.Path.{◌≡◌, ◌∙◌, ap}
use mathlib.Core.Logic.{◌≢◌}
use native.Mathlib.Nat.{mod-add-mod, mod-eq_of_lt, mod-eq-sub-mod}
use native.Mathlib.Omega.{arith}

-- The cell that lies `k` after cell `h`.
abbrev pub cell : ℕ → ℕ → ℕ → ℕ
cell n h k = (h + k) % n

pub cell-lt : (n h k : ℕ) → 0 < n → cell n h k < n
cell-lt n h k pos = omega arith

pub cell-zero : (n h : ℕ) → h < n → cell n h 0 ≡ h
cell-zero n h lt = grind arith

pub cell-full : (n h : ℕ) → h < n → cell n h n ≡ h
cell-full n h lt = grind arith

-- Going on from the next cell.
pub cell-next : (n h k : ℕ) → cell n (cell n h 1) k ≡ cell n h (k + 1)
cell-next n h k = rw mod-add-mod (ap (λ j. j % n) (omega arith))

pub next-cell : (n h k : ℕ) → cell n (cell n h k) 1 ≡ cell n h (k + 1)
next-cell n h k = rw mod-add-mod (ap (λ j. j % n) (omega arith))

-- Which of the two rounds a cell lies in.
cell-cases :
    (n h k : ℕ)
    → h < n
    → k < n
    → (h + k < n → cell n h k ≡ h + k) × (n ≤ h + k → cell n h k ≡ h + k - n)
cell-cases n h k lh lk = (
  λ p. mod-eq_of_lt p,
  λ p. mod-eq-sub-mod {n = h + k} {m = n} p ∙ mod-eq_of_lt {n = h + k - n} {m = n} (omega arith),
)

-- Cells at different distances below the capacity are different.
pub cell-injective : (n h j k : ℕ) → h < n → j < n → k < n → cell n h j ≡ cell n h k → j ≡ k
cell-injective n h j k lh lj lk e = grind (arith, cell-cases n h j lh lj, cell-cases n h k lh lk)

pub cell-ne : (n h j k : ℕ) → h < n → j < n → k < n → j ≢ k → cell n h j ≢ cell n h k
cell-ne n h j k lh lj lk ne e = ne (cell-injective n h j k lh lj lk e)
