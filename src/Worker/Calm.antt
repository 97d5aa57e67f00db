-- ===== src/Worker/Calm.antt =====
-- A worker that nobody shuts down, and that gets its first request when its thread has loaded the
-- counter: what every step keeps.
pub mod Phases
use vee.Common.{
  ℕ, zero, suc, ◌+◌, ◌≤◌, ◌<◌, ◌^◌, ◌≡◌, ◌≢◌, ◌∙◌, ◌⊎◌, inl, inr, refl, sym, ap, subst, Bool, true,
  false, Option, none, some, List, [], ◌∷◌, ◌++◌, append_assoc, append-nil, length, length-append,
  arith, ℕ_discrete, add_size, sub_size,
}
use vee.Worker.System.{
  System, State, standby, running, Pc, absent, loading, stopping, waiting, epoch, counting, testing,
  worker, Step, start, load, leave, sleep, go, wake, take, miss, count, stop, enqueue, add,
  add_first, signal, close, close_busy, close_idle,
}
use vee.Worker.System
use vee.Worker.Calm.Phases.{
  Phase, Waits, Quiet, owed, owed-le, Phase-add, Phase-add_first, Phase-signal, Phase-count,
}

module _ {J : Type 0} where
  -- What holds of a calm worker with a queue of n places.
  pub record IsCalm (n : ℕ) (s : System J) : Type 0 where
    pub on : s.state ≡ running
    pub capacity : s.job_queue_size ≡ n
    pub few : length s.jobs ≤ n
    pub kept : s.accepted ≡ s.processed ++ s.jobs
    pub counted : length s.jobs + owed s.pc ≡ s.remained + s.pending
    pub phase : Phase s.pc s.remained s.promise s.signallers

  -- From the state in which the thread has loaded the counter, by steps that leave the worker on.
  pub data CalmReach (dummy : J) (n : ℕ) : System J → Type 0 where
    loaded : CalmReach dummy n (record (worker n) { state = running; pc = testing 0 })
    next :
        {s t : System J}
        → CalmReach dummy n s
        → Step dummy s t
        → t.state ≡ running
        → CalmReach dummy n t

  pub at :
      {n : ℕ} {s : System J} (pc : Pc)
      → IsCalm n s
      → s.pc ≡ pc
      → Phase pc s.remained s.promise s.signallers
        × (length s.jobs + owed pc ≡ s.remained + s.pending)
  at {n} {s} pc c e = (
    subst (λ pc. Phase pc s.remained s.promise s.signallers) e c.phase,
    subst (λ pc. length s.jobs + owed pc ≡ s.remained + s.pending) e c.counted,
  )

  -- The thread's own steps.
  pub IsCalm-sleep :
      {n : ℕ} {s : System J}
      → IsCalm n s
      → s.pc ≡ testing 0
      → IsCalm n (record s { promise = some false; pc = waiting })
  IsCalm-sleep {n} {s} c e = record {
    on = c.on;
    capacity = c.capacity;
    few = c.few;
    kept = c.kept;
    counted = (at (testing 0) c e).1;
    phase = (at (testing 0) c e).0.1;
  }

  pub IsCalm-go :
      {n : ℕ} {s : System J} (r : ℕ)
      → IsCalm n s
      → s.pc ≡ testing (suc r)
      → IsCalm n (record s { pc = epoch })
  IsCalm-go {n} {s} r c e =
      let (p, z, le) = (at (testing (suc r)) c e).0 in
      record {
        on = c.on;
        capacity = c.capacity;
        few = c.few;
        kept = c.kept;
        counted = (at (testing (suc r)) c e).1;
        phase = (p, z, omega arith);
      }

  pub IsCalm-wake :
      {n : ℕ} {s : System J}
      → IsCalm n s
      → s.pc ≡ waiting
      → s.promise ≡ some true
      → IsCalm n (record s { promise = none; pc = epoch })
  IsCalm-wake {n} {s} c e signalled =
      let (z, lt) = subst (λ p. Waits p s.remained s.signallers) signalled (at waiting c e).0 in
      record {
        on = c.on;
        capacity = c.capacity;
        few = c.few;
        kept = c.kept;
        counted = (at waiting c e).1;
        phase = (refl, z, lt);
      }

  pub IsCalm-take :
      {n : ℕ} {s : System J} (j : J) (js : List J)
      → IsCalm n s
      → s.pc ≡ epoch
      → s.jobs ≡ j ∷ js
      → IsCalm n (record s { jobs = js; processed = s.processed ++ (j ∷ []); pc = counting })
  IsCalm-take {n} {s} j js c e h = record {
    on = c.on;
    capacity = c.capacity;
    few = omega (arith, c.few, ap length h);
    kept = c.kept ∙ ap (λ xs. s.processed ++ xs) h ∙ sym (append_assoc s.processed (j ∷ []) js);
    counted = omega (arith, (at epoch c e).1, ap length h);
    phase = (at epoch c e).0;
  }

  -- No call of `dequeue` finds the queue empty.
  pub IsCalm-miss : {n : ℕ} {s : System J} → IsCalm n s → s.pc ≡ epoch → s.jobs ≢ []
  IsCalm-miss {n} {s} c e h =
      let (p, z, le) = (at epoch c e).0 in omega (arith, (at epoch c e).1, ap length h)

  pub IsCalm-count :
      {n : ℕ} {s : System J}
      → n < 2 ^ 63
      → IsCalm n s
      → s.pc ≡ counting
      → IsCalm n
          (record s { remained = sub_size s.remained 1; pc = testing (sub_size s.remained 1) })
  IsCalm-count {n} {s} small c e = record {
    on = c.on;
    capacity = c.capacity;
    few = c.few;
    kept = c.kept;
    counted = omega (arith, (at counting c e).1, fits, taken);
    phase =
        Phase-count s.remained (sub_size s.remained 1) s.promise s.signallers
          (omega (arith, fits, taken)) (at counting c e).0;
  }
    where
      taken : 1 ≤ s.remained
      taken = (at counting c e).0.2

      fits : s.remained < 2 ^ 63 + 1
      fits = omega (arith, (at counting c e).1, c.few)

  pub IsCalm-enqueue :
      {n : ℕ} {s : System J} (j : J)
      → IsCalm n s
      → length s.jobs < s.job_queue_size
      → IsCalm n (record s {
        jobs = s.jobs ++ (j ∷ []);
        accepted = s.accepted ++ (j ∷ []);
        pending = suc s.pending;
      })
  IsCalm-enqueue {n} {s} j c lt = record {
    on = c.on;
    capacity = c.capacity;
    phase = c.phase;
    few = omega (arith, length-append s.jobs (j ∷ []), c.capacity);
    kept = ap (λ xs. xs ++ (j ∷ [])) c.kept ∙ append_assoc s.processed s.jobs (j ∷ []);
    counted = omega (arith, length-append s.jobs (j ∷ []), c.counted);
  }

  pub IsCalm-add :
      {n : ℕ} {s : System J} (p : ℕ)
      → n < 2 ^ 63
      → IsCalm n s
      → s.pending ≡ suc p
      → (s.remained ≡ 0 → s.state ≡ standby)
      → IsCalm n (record s { remained = add_size s.remained 1; pending = p })
  IsCalm-add {n} {s} p small c e first = record {
    on = c.on;
    capacity = c.capacity;
    few = c.few;
    kept = c.kept;
    counted = omega (arith, c.counted, fits);
    phase =
        subst (λ r. Phase s.pc r s.promise s.signallers) (omega (arith, fits))
          (Phase-add s.pc s.remained s.promise s.signallers counted_some c.phase);
  }
    where
      fits : s.remained < 2 ^ 63 + 1
      fits = omega (arith, c.counted, c.few, owed-le s.pc)

      counted_some : 0 < s.remained
      counted_some = elim (ℕ_discrete s.remained 0) [
        | yes z ↦ absurd (ground (arith, first z, c.on))
        | no nz ↦ omega arith
      ]

  pub IsCalm-add_first :
      {n : ℕ} {s : System J} (p : ℕ)
      → IsCalm n s
      → s.pending ≡ suc p
      → s.remained ≡ 0
      → IsCalm n (record s { remained = 1; pending = p; signallers = suc s.signallers })
  IsCalm-add_first {n} {s} p c e zero_yet = record {
    on = c.on;
    capacity = c.capacity;
    few = c.few;
    kept = c.kept;
    counted = omega (arith, c.counted);
    phase =
        Phase-add_first s.pc s.promise s.signallers
          (subst (λ r. Phase s.pc r s.promise s.signallers) zero_yet c.phase);
  }

  pub IsCalm-signal :
      {n : ℕ} {s : System J} (k : ℕ)
      → IsCalm n s
      → s.signallers ≡ suc k
      → s.promise ≡ some false
      → IsCalm n (record s { promise = some true; signallers = k })
  IsCalm-signal {n} {s} k c e h = record {
    on = c.on;
    capacity = c.capacity;
    few = c.few;
    kept = c.kept;
    counted = c.counted;
    phase = Phase-signal s.pc s.remained k (
        subst (λ p. Phase s.pc s.remained p (suc k)) h
          (subst (λ m. Phase s.pc s.remained s.promise m) e c.phase));
  }
