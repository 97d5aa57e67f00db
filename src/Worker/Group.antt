-- ===== src/Worker/Group.antt =====
-- `nonscalable_worker_group` of vee/worker.h: workers with one counter of all their jobs. One call of
-- `request` is modelled at a time; the threads of the workers are in `Worker/System`.
pub mod Share
pub mod Room
use vee.Common.{
  ℕ, zero, suc, ◌+◌, ◌/◌, Bool, true, false, Option, none, some, List, [], ◌∷◌, ◌++◌, length, ltb,
  leb, add_size, sub_size, replicate, if◌then◌else◌, ◌==◌, ◌⊎◌, inl, inr,
}
use vee.Exception.Busy.{Busy, worker_is_busy}

-- A worker that runs: its queue, its counter, and its promise, which is null, or has been signalled
-- or not. `events` are handlers that the calls take.
pub record Worker (J : Type 0) : Type 0 where
  pub job_queue_size : ℕ
  pub jobs : List J
  pub remained : ℕ
  pub promise : Option Bool

-- `_job_counter`, and the workers, in the order of the vector.
pub record Group (J : Type 0) : Type 0 where
  pub workers : List (Worker J)
  pub job_counter : ℕ

-- `on_job_requested`.
unfoldable pub on_job_requested : ℕ → ℕ
on_job_requested job_counter = add_size job_counter 1

-- What `nothrow_request` does with the promise of a worker whose counter was 0: it waits until the
-- worker's thread has made one, and signals it. One that was signalled before makes `set_value`
-- throw.
unfoldable pub set_value : Option Bool → Option (Option Bool)
set_value none = some (some true)
set_value (some false) = some (some true)
set_value (some true) = none

module _ {J : Type 0} where
  -- `nothrow_request` of a worker that runs, with the handler of `job_requested`: what it returns,
  -- the worker, and the handler's state; none where it throws `std::future_error`.
  unfoldable pub nothrow_request :
      {E : Type 0} → (E → E) → J → Worker J → E → Option (ℕ × Worker J × E)
  unfolding set_value
  nothrow_request job_requested job w e = elim (ltb (length w.jobs) w.job_queue_size) [
    | false ↦ some (0, w, e)
    | true ↦ elim (if w.remained == 0 then set_value w.promise else some w.promise) [
      | none ↦ none
      | some promise ↦ some (
        add_size w.remained 1,
        record w {
          jobs = w.jobs ++ (job ∷ []);
          remained = add_size w.remained 1;
          promise = promise;
        },
        job_requested e,
      )
    ]
  ]

  -- `request` of a worker: what it throws, or what it returns.
  unfoldable pub worker_request :
      {E : Type 0} → (E → E) → J → Worker J → E → Option ((Busy ⊎ ℕ) × Worker J × E)
  unfolding nothrow_request
  worker_request job_requested job w e = elim (nothrow_request job_requested job w e) [
    | none ↦ none
    | some answer ↦ elim answer.0 [
      | zero ↦ some (inl worker_is_busy, answer.1, answer.2)
      | suc r ↦ some (inr (suc r), answer.1, answer.2)
    ]
  ]

  -- The constructor.
  unfoldable pub group : ℕ → ℕ → Group J
  group number_of_workers job_queue_size = record {
    workers =
        replicate number_of_workers
          (record { job_queue_size = job_queue_size; jobs = []; remained = 0; promise = none });
    job_counter = 0;
  }

  -- What the loop has done with the worker `w` and the ones behind it.
  abbrev pub behind :
      Worker J → Option (Bool × List (Worker J) × ℕ) → Option (Bool × List (Worker J) × ℕ)
  behind w none = none
  behind w (some (result, ws, c)) = some (result, w ∷ ws, c)

  -- The loop of `nothrow_request` over the workers.
  unfoldable pub offer : ℕ → J → List (Worker J) → ℕ → Option (Bool × List (Worker J) × ℕ)
  unfolding nothrow_request on_job_requested
  offer average job [] c = some (false, [], c)
  offer average job (w ∷ ws) c = elim (leb w.remained average) [
    | false ↦ behind w (offer average job ws c)
    | true ↦ elim (nothrow_request on_job_requested job w c) [
      | none ↦ none
      | some answer ↦ elim answer.0 [
        | suc r ↦ some (true, answer.1 ∷ ws, answer.2)
        | zero ↦ behind answer.1 (offer average job ws answer.2)
      ]
    ]
  ]

  -- `nothrow_request` of the group; none where a worker's throws, and without a worker, where it
  -- divides by zero.
  unfoldable pub group_request : J → Group J → Option (Bool × Group J)
  unfolding offer
  group_request job g = elim g.workers [
    | [] ↦ none
    | w ∷ ws ↦ elim (offer (g.job_counter / length g.workers) job g.workers g.job_counter) [
      | none ↦ none
      | some (result, ws', c) ↦ some (result, record g { workers = ws'; job_counter = c })
    ]
  ]

  -- `request` of the group: what it throws, and the group.
  unfoldable pub request : J → Group J → Option (Option Busy × Group J)
  unfolding group_request
  request job g = elim (group_request job g) [
    | none ↦ none
    | some (result, g') ↦ some ((if result then none else some worker_is_busy), g')
  ]
