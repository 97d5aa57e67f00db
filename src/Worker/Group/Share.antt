-- ===== src/Worker/Group/Share.antt =====
-- How the loop of `nothrow_request` of a group goes.
use vee.Common.{
  ℕ_discrete, Option-cases, Bool-cases, some, inl, inr, ◌∙◌, ◌≢◌, ◌==◌, if◌then◌else◌, ℕ, suc, ◌+◌,
  ◌≤◌, ◌<◌, ◌^◌, ◌≡◌, ◌⊎◌, ap, true, List, [], ◌∷◌, ◌++◌, length, arith, add_size,
}
use vee.Worker.Group.{Worker, set_value, nothrow_request, on_job_requested, behind, offer}

module _ {J : Type 0} where
  -- All the jobs that the workers have been given and have not counted as done.
  abbrev pub total : List (Worker J) → ℕ
  total [] = 0
  total (w ∷ ws) = w.remained + total ws

  -- Every queue has `size` places, every worker counts the jobs of its own queue, and none that
  -- counts no job has a promise that was signalled.
  pub data IsEven (size : ℕ) : List (Worker J) → Type 0 where
    nobody : IsEven size []
    somebody :
        {w : Worker J} {ws : List (Worker J)}
        → w.job_queue_size ≡ size
        → w.remained ≡ length w.jobs
        → length w.jobs ≤ size
        → (w.remained ≡ 0 → w.promise ≢ some true)
        → IsEven size ws
        → IsEven size (w ∷ ws)

  -- A worker with one job more, at the end; if it had none, its promise is signalled.
  abbrev pub loaded : J → Worker J → Worker J
  loaded job w = record w {
    jobs = w.jobs ++ (job ∷ []);
    remained = suc w.remained;
    promise = if w.remained == 0 then some true else w.promise;
  }

  wake_lem :
      (w : Worker J)
      → (w.remained ≡ 0 → w.promise ≢ some true)
      → (if w.remained == 0 then set_value w.promise else some w.promise)
        ≡ some (if w.remained == 0 then some true else w.promise)
  unfolding set_value
  wake_lem w fresh = elim (ℕ_discrete w.remained 0) [
    | no some_left ↦ ground arith
    | yes none_left ↦ elim (Option-cases w.promise) [
      | inl e ↦ ground (arith, e)
      | inr (b, e) ↦ elim (Bool-cases b) [
        | inl t ↦ absurd (fresh none_left (e ∙ ap some t))
        | inr f ↦ ground (arith, e, f)
      ]
    ]
  ]

  -- One of the workers, which had room, has the job, and the others are as they were.
  pub data Given (job : J) : List (Worker J) → List (Worker J) → Type 0 where
    this :
        (w : Worker J) (ws : List (Worker J))
        → length w.jobs < w.job_queue_size
        → Given job (w ∷ ws) (loaded job w ∷ ws)
    later :
        {w : Worker J} {ws ws' : List (Worker J)} → Given job ws ws' → Given job (w ∷ ws) (w ∷ ws')

  -- Every worker has more jobs than the average, or has no room.
  pub data Refusing (average size : ℕ) : List (Worker J) → Type 0 where
    nobody : Refusing average size []
    somebody :
        {w : Worker J} {ws : List (Worker J)}
        → (average < w.remained) ⊎ (w.remained ≡ size)
        → Refusing average size ws
        → Refusing average size (w ∷ ws)

  pub nothrow_request-room :
      {E : Type 0} (f : E → E) (job : J) (w : Worker J) (e : E)
      → length w.jobs < w.job_queue_size
      → add_size w.remained 1 ≡ suc w.remained
      → (w.remained ≡ 0 → w.promise ≢ some true)
      → nothrow_request f job w e ≡ some (suc w.remained, loaded job w, f e)
  unfolding nothrow_request
  nothrow_request-room f job w e lt h fresh = ground (arith, wake_lem w fresh)

  pub nothrow_request-full :
      {E : Type 0} (f : E → E) (job : J) (w : Worker J) (e : E)
      → w.job_queue_size ≤ length w.jobs
      → nothrow_request f job w e ≡ some (0, w, e)
  unfolding nothrow_request
  nothrow_request-full f job w e le = ground arith

  module _ (average : ℕ) (job : J) (w : Worker J) (ws : List (Worker J)) (c : ℕ) where
    pub offer-skip :
        average < w.remained → offer average job (w ∷ ws) c ≡ behind w (offer average job ws c)
    unfolding offer
    offer-skip lt = ground arith

    pub offer-take :
        w.remained ≤ average
        → length w.jobs < w.job_queue_size
        → suc w.remained < 2 ^ 64
        → suc c < 2 ^ 64
        → (w.remained ≡ 0 → w.promise ≢ some true)
        → offer average job (w ∷ ws) c ≡ some (true, loaded job w ∷ ws, suc c)
    unfolding offer
    offer-take le lt small fits fresh = ground (arith, e)
      where
        e :
            nothrow_request on_job_requested job w c
            ≡ some (suc w.remained, loaded job w, on_job_requested c)
        e = nothrow_request-room on_job_requested job w c lt (omega arith) fresh

    pub offer-full :
        w.remained ≤ average
        → w.job_queue_size ≤ length w.jobs
        → offer average job (w ∷ ws) c ≡ behind w (offer average job ws c)
    unfolding offer
    offer-full le full = ground (arith, e)
      where
        e : nothrow_request on_job_requested job w c ≡ some (0, w, c)
        e = nothrow_request-full on_job_requested job w c full
