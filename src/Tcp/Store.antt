-- ===== src/Tcp/Store.antt =====
-- The bytes that a pointer reaches.
use vee.Common.{
  ℕ, zero, suc, ◌+◌, ◌≤◌, ◌<◌, ◌≡◌, ◌∙◌, refl, ap, ap₂, ◌≢◌, ◌⊎◌, inl, inr, true, false, ◌&&◌, List,
  [], ◌∷◌, ◌++◌, length, leb, ltb, ◌==◌, take, arith,
}

-- What stands at each address.
abbrev pub Memory : Type 0
Memory = ℕ → ℕ

-- The bytes from an address on.
abbrev pub load : Memory → ℕ → ℕ → List ℕ
load m p zero = []
load m p (suc n) = m p ∷ load m (suc p) n

abbrev pub store_byte : Memory → ℕ → ℕ → Memory
store_byte m p b a = elim (a == p) [ true ↦ b | false ↦ m a ]

-- The bytes of a list, from an address on.
unfoldable pub store : Memory → ℕ → List ℕ → Memory
store m p [] = m
store m p (b ∷ bs) = store_byte (store m (suc p) bs) p b

-- `memset` with the value 0.
unfoldable pub memset : Memory → ℕ → ℕ → Memory
memset m p n a = elim (leb p a && ltb a (p + n)) [ true ↦ 0 | false ↦ m a ]

pub length-load : (m : Memory) (p n : ℕ) → length (load m p n) ≡ n
length-load m p zero = refl
length-load m p (suc n) = ap suc (length-load m (suc p) n)

pub take-load : (m : Memory) (n k p : ℕ) → n ≤ k → take n (load m p k) ≡ load m p n
take-load m zero k p le = refl
take-load m (suc n) zero p le = absurd (omega arith)
take-load m (suc n) (suc k) p le = ap (λ xs. m p ∷ xs) (take-load m n k (suc p) (omega arith))

-- Two ways to write one range.
pub load-range : (m : Memory) (p q n k : ℕ) → p ≡ q → n ≡ k → load m p n ≡ load m q k
load-range m p q n k e e' = ap₂ (load m) e e'

pub load-add : (m : Memory) (n k p : ℕ) → load m p n ++ load m (p + n) k ≡ load m p (n + k)
load-add m zero k p = load-range m (p + 0) p k (0 + k) (omega arith) (omega arith)
load-add m (suc n) k p =
    ap (λ xs. m p ∷ (load m (suc p) n ++ xs))
      (load-range m (p + suc n) (suc p + n) k k (omega arith) refl)
    ∙ ap (λ xs. m p ∷ xs) (load-add m n k (suc p))
    ∙ load-range m p p (suc (n + k)) (suc n + k) refl (omega arith)

pub load-ext : (m m' : Memory) (p n : ℕ) → ((a : ℕ) → p ≤ a → m a ≡ m' a) → load m p n ≡ load m' p n
load-ext m m' p zero e = refl
load-ext m m' p (suc n) e =
    ap₂ (λ x xs. x ∷ xs) (e p (omega arith)) (load-ext m m' (suc p) n (λ a le. e a (omega arith)))

store_byte-at : (m : Memory) (p b : ℕ) → store_byte m p b p ≡ b
store_byte-at m p b = ground arith

store_byte-off : (m : Memory) (p b a : ℕ) → a ≢ p → store_byte m p b a ≡ m a
store_byte-off m p b a ne = ground arith

-- Reading back what was stored.
pub load-store : (m : Memory) (bs : List ℕ) (p : ℕ) → load (store m p bs) p (length bs) ≡ bs
unfolding store
load-store m [] p = refl
load-store m (b ∷ bs) p =
    ap₂ (λ x xs. x ∷ xs) (store_byte-at (store m (suc p) bs) p b)
      (load-ext (store_byte (store m (suc p) bs) p b) (store m (suc p) bs) (suc p) (length bs)
          (λ a le. store_byte-off (store m (suc p) bs) p b a (omega arith))
        ∙ load-store m bs (suc p))

-- A byte that lies outside is as before.
pub store-off :
    (m : Memory) (bs : List ℕ) (p a : ℕ) → (a < p) ⊎ (p + length bs ≤ a) → store m p bs a ≡ m a
unfolding store
store-off m [] p a out = refl
store-off m (b ∷ bs) p a out =
    store_byte-off (store m (suc p) bs) p b a (omega arith) ∙ store-off m bs (suc p) a (beyond out)
  where
    beyond : (a < p) ⊎ (p + length (b ∷ bs) ≤ a) → (a < suc p) ⊎ (suc p + length bs ≤ a)
    beyond (inl lt) = inl (omega arith)
    beyond (inr le) = inr (omega arith)

pub memset-in : (m : Memory) (p n a : ℕ) → p ≤ a → a < p + n → memset m p n a ≡ 0
unfolding memset
memset-in m p n a le lt = ground arith

pub memset-off : (m : Memory) (p n a : ℕ) → (a < p) ⊎ (p + n ≤ a) → memset m p n a ≡ m a
unfolding memset
memset-off m p n a out = ground arith
