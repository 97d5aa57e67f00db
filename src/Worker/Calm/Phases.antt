-- ===== src/Worker/Calm/Phases.antt =====
-- How the counter, the promise and the requests that wait for it stand, by where the thread is.
use vee.Common.{
  ℕ, zero, suc, ◌≤◌, ◌<◌, ◌≡◌, ◌⊎◌, inl, inr, refl, Bool, true, false, Option, none, some, arith,
}
use vee.Worker.System.{Pc, absent, loading, testing, waiting, epoch, counting, stopping}

-- A job that was taken and is not counted as done yet.
abbrev pub owed : Pc → ℕ
owed counting = 1
owed _ = 0

-- Nothing is counted and nobody waits; or one request has counted the first job and waits.
abbrev pub Quiet : ℕ → ℕ → Type 0
Quiet remained signallers =
    ((signallers ≡ 0) × (remained ≡ 0)) ⊎ ((signallers ≡ 1) × (0 < remained))

abbrev pub Waits : Option Bool → ℕ → ℕ → Type 0
Waits none remained signallers = ⊥
Waits (some false) remained signallers = Quiet remained signallers
Waits (some true) remained signallers = (signallers ≡ 0) × (0 < remained)

abbrev pub Busy : ℕ → ℕ → Option Bool → ℕ → Type 0
Busy least remained promise signallers = (promise ≡ none) × (signallers ≡ 0) × (least ≤ remained)

-- By the place, the counter, the promise, and the number of requests that wait to signal it.
abbrev pub Phase : Pc → ℕ → Option Bool → ℕ → Type 0
Phase absent r p k = ⊥
Phase loading r p k = ⊥
Phase (testing zero) r p k = (p ≡ none) × Quiet r k
Phase (testing (suc n)) r p k = Busy (suc n) r p k
Phase waiting r p k = Waits p r k
Phase epoch r p k = Busy 1 r p k
Phase counting r p k = Busy 1 r p k
Phase stopping r p k = ⊥

Quiet-add : (r k : ℕ) → 0 < r → Quiet r k → Quiet (suc r) k
Quiet-add r k pos (inl (e, z)) = absurd (omega arith)
Quiet-add r k pos (inr (e, lt)) = inr (e, omega arith)

Quiet-add_first : (k : ℕ) → Quiet 0 k → Quiet 1 (suc k)
Quiet-add_first k (inl (e, z)) = inr (omega arith, omega arith)
Quiet-add_first k (inr (e, lt)) = absurd (omega arith)

-- Another job is counted.
pub Phase-add :
    (pc : Pc) (r : ℕ) (p : Option Bool) (k : ℕ) → 0 < r → Phase pc r p k → Phase pc (suc r) p k
Phase-add absent r p k pos f = f
Phase-add loading r p k pos f = f
Phase-add (testing zero) r p k pos (e, q) = (e, Quiet-add r k pos q)
Phase-add (testing (suc n)) r p k pos (e, z, le) = (e, z, omega arith)
Phase-add waiting r none k pos f = f
Phase-add waiting r (some false) k pos q = Quiet-add r k pos q
Phase-add waiting r (some true) k pos (z, lt) = (z, omega arith)
Phase-add epoch r p k pos (e, z, le) = (e, z, omega arith)
Phase-add counting r p k pos (e, z, le) = (e, z, omega arith)
Phase-add stopping r p k pos f = f

-- The first job is counted, and its request is to signal the promise.
pub Phase-add_first : (pc : Pc) (p : Option Bool) (k : ℕ) → Phase pc 0 p k → Phase pc 1 p (suc k)
Phase-add_first absent p k f = f
Phase-add_first loading p k f = f
Phase-add_first (testing zero) p k (e, q) = (e, Quiet-add_first k q)
Phase-add_first (testing (suc n)) p k (e, z, le) = absurd (omega arith)
Phase-add_first waiting none k f = f
Phase-add_first waiting (some false) k q = Quiet-add_first k q
Phase-add_first waiting (some true) k (z, lt) = absurd (omega arith)
Phase-add_first epoch p k (e, z, le) = absurd (omega arith)
Phase-add_first counting p k (e, z, le) = absurd (omega arith)
Phase-add_first stopping p k f = f

-- The promise is signalled.
pub Phase-signal : (pc : Pc) (r k : ℕ) → Phase pc r (some false) (suc k) → Phase pc r (some true) k
Phase-signal absent r k f = f
Phase-signal loading r k f = f
Phase-signal (testing zero) r k (e, q) = absurd (ground (arith, e))
Phase-signal (testing (suc n)) r k (e, z, le) = absurd (omega arith)
Phase-signal waiting r k (inl (e, z)) = absurd (omega arith)
Phase-signal waiting r k (inr (e, lt)) = (omega arith, lt)
Phase-signal epoch r k (e, z, le) = absurd (omega arith)
Phase-signal counting r k (e, z, le) = absurd (omega arith)
Phase-signal stopping r k f = f

-- The thread counts a job as done.
pub Phase-count :
    (r r' : ℕ) (p : Option Bool) (k : ℕ)
    → r ≡ suc r'
    → Phase counting r p k
    → Phase (testing r') r' p k
Phase-count r zero p k s (e, z, le) = (e, inl (z, refl))
Phase-count r (suc r') p k s (e, z, le) = (e, z, omega arith)

pub owed-le : (pc : Pc) → owed pc ≤ 1
owed-le absent = omega arith
owed-le loading = omega arith
owed-le (testing r) = omega arith
owed-le waiting = omega arith
owed-le epoch = omega arith
owed-le counting = omega arith
owed-le stopping = omega arith
