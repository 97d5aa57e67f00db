-- ===== src/Worker/Race.antt =====
-- A request that is counted before the worker's thread has loaded the counter: it finds the counter
-- at zero and waits for the promise of a sleeping worker, but the thread sees the job without
-- sleeping first.
use vee.Common.{ℕ, ◌-◌, ◌^◌, ◌<◌, ◌≡◌, refl, [], ◌∷◌, arith}
use vee.Worker.System.{
  System, Reach, here, next, start, load, sleep, go, wake, take, miss, count, enqueue, add_first,
  signal,
}

-- For every capacity that is not 0 and every job there is a run with this one request, in which the
-- worker processes the job, and `_remained` then goes below zero: it is 2 ^ 64 - 1 while no job is
-- in the queue and none is being run.
pub count_wraps :
    {J : Type 0} (dummy j : J) (n : ℕ)
    → 0 < n
    → (s : System J) × Reach dummy n s
      × (s.processed ≡ j ∷ [])
      × (s.jobs ≡ [])
      × (s.remained ≡ 2 ^ 64 - 1)
count_wraps dummy j n pos = (
  _,
  next
      (next
        (next
          (next
            (next
              (next
                (next
                  (next
                    (next
                      (next
                        (next (next here (start refl refl refl refl refl))
                          (enqueue j refl refl refl pos))
                        (add_first 0 refl refl (λ e. cc)))
                      (load refl))
                    (go 1 refl (omega arith) refl))
                  (take j [] refl refl))
                (count refl))
              (sleep refl refl))
            (signal 0 refl refl))
          (wake refl refl))
        (miss refl refl))
      (count refl),
  refl,
  refl,
  refl,
)
