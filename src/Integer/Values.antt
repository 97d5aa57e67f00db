-- ===== src/Integer/Values.antt =====
-- Bytes as integers: what a part of them stands for.
use vee.Common.{
  ℕ, zero, suc, ◌+◌, ◌-◌, ◌*◌, ◌%◌, ◌^◌, ◌≤◌, ◌<◌, ◌≡◌, refl, ◌∙◌, sym, ap, ap₂, true, List, [],
  ◌∷◌, ◌++◌, arith, length, take, drop, replicate, subst, length-take,
}
use native.Mathlib.Nat.{pow-suc, mod-eq_of_lt, add-mul-mod_self_left}
use vee.Integer.Memory.{same_bytes, load}

abbrev pub IsBytes : List ℕ → Type 0
IsBytes [] = Unit
IsBytes (b ∷ bs) = (b < 256) × IsBytes bs

pub load-zeros : (n : ℕ) → load (replicate n 0) ≡ 0
load-zeros zero = refl
load-zeros (suc n) = omega (arith, load-zeros n)

pub load-append_zeros : (bs : List ℕ) (n : ℕ) → load (bs ++ replicate n 0) ≡ load bs
load-append_zeros [] n = load-zeros n
load-append_zeros (b ∷ bs) n = omega (arith, load-append_zeros bs n)

pub same_bytes_iff :
    (bs cs : List ℕ) → (same_bytes bs cs ≡ true → bs ≡ cs) × (bs ≡ cs → same_bytes bs cs ≡ true)
same_bytes_iff [] [] = ground arith
same_bytes_iff [] (c ∷ cs) = ground arith
same_bytes_iff (b ∷ bs) [] = ground arith
same_bytes_iff (b ∷ bs) (c ∷ cs) = ground (arith, same_bytes_iff bs cs)

pub take-all : (bs : List ℕ) → take (length bs) bs ≡ bs
take-all [] = refl
take-all (b ∷ bs) = ap (λ t. b ∷ t) (take-all bs)

pub drop-all : (bs : List ℕ) (n : ℕ) → length bs ≤ n → drop n bs ≡ []
drop-all [] zero le = refl
drop-all [] (suc n) le = refl
drop-all (b ∷ bs) zero le = absurd (omega arith)
drop-all (b ∷ bs) (suc n) le = drop-all bs n (omega arith)

same_times : (n m v : ℕ) → n ≡ m → replicate n v ≡ replicate m v
same_times n m v e = ap (λ k. replicate k v) e

pub drop-replicate : (n m : ℕ) (v : ℕ) → drop n (replicate m v) ≡ replicate (m - n) v
drop-replicate zero m v = same_times (m) (m - 0) v (omega arith)
drop-replicate (suc n) zero v = same_times (0) (0 - suc n) v (omega arith)
drop-replicate (suc n) (suc m) v =
    drop-replicate n m v ∙ same_times (m - n) (suc m - suc n) v (omega arith)

scale : (b l t d p q : ℕ) → l ≡ t + p * d → q ≡ p * 256 → b + 256 * l ≡ b + 256 * t + q * d
scale b l t d p q e f = rw (e, f) (omega arith)

pub load-take : (n : ℕ) (bs : List ℕ) → load bs ≡ load (take n bs) + 256 ^ n * load (drop n bs)
load-take zero bs = omega arith
load-take (suc n) [] = omega arith
load-take (suc n) (b ∷ bs) =
    scale b (load bs) (load (take n bs)) (load (drop n bs)) (256 ^ n) (256 ^ suc n) (load-take n bs)
      (pow-suc 256 n)

pub load-lt : (bs : List ℕ) → IsBytes bs → load bs < 256 ^ length bs
load-lt [] v = omega arith
load-lt (b ∷ bs) v = omega (arith, load-lt bs v.1, pow-suc 256 (length bs))

pub load-injective :
    (bs cs : List ℕ) → IsBytes bs → IsBytes cs → length bs ≡ length cs → load bs ≡ load cs → bs ≡ cs
load-injective [] [] v w len e = refl
load-injective [] (c ∷ cs) v w len e = absurd (omega arith)
load-injective (b ∷ bs) [] v w len e = absurd (omega arith)
load-injective (b ∷ bs) (c ∷ cs) v w len e =
    ap₂ ◌∷◌ (omega arith) (load-injective bs cs v.1 w.1 (omega arith) (omega arith))

pub IsBytes-take : (n : ℕ) (bs : List ℕ) → IsBytes bs → IsBytes (take n bs)
IsBytes-take zero bs v = tt
IsBytes-take (suc n) [] v = tt
IsBytes-take (suc n) (b ∷ bs) v = (v.0, IsBytes-take n bs v.1)

pub IsBytes-append : (bs cs : List ℕ) → IsBytes bs → IsBytes cs → IsBytes (bs ++ cs)
IsBytes-append [] cs v w = w
IsBytes-append (b ∷ bs) cs v w = (v.0, IsBytes-append bs cs v.1 w)

pub IsBytes-zeros : (n : ℕ) → IsBytes (replicate n 0)
IsBytes-zeros zero = tt
IsBytes-zeros (suc n) = (omega arith, IsBytes-zeros n)

-- The lowest `n` bytes are the integer modulo 256 ^ n.
pub load-take_mod :
    (n : ℕ) (bs : List ℕ) → n ≤ length bs → IsBytes bs → load (take n bs) ≡ load bs % 256 ^ n
load-take_mod n bs le v =
    sym (
      mod-eq_of_lt
        (subst (λ k. load (take n bs) < 256 ^ k) len (load-lt (take n bs) (IsBytes-take n bs v))))
    ∙ sym (add-mul-mod_self_left (load (take n bs)) (256 ^ n) (load (drop n bs)))
    ∙ ap (λ x. x % 256 ^ n) (sym (load-take n bs))
  where
    len : length (take n bs) ≡ n
    len = omega (arith, length-take n bs)

pub pow_mono : (n m : ℕ) → n ≤ m → 256 ^ n ≤ 256 ^ m
pow_mono zero zero le = omega arith
pow_mono zero (suc m) le = omega (arith, pow_mono zero m (omega arith), pow-suc 256 m)
pow_mono (suc n) zero le = absurd (omega arith)
pow_mono (suc n) (suc m) le =
    omega (arith, pow_mono n m (omega arith), pow-suc 256 n, pow-suc 256 m)
