-- ===== src/Tests/Groups.antt =====
-- Tests of vee/worker.h.
use vee.Common.{ℕ, none, ◌≡◌, refl, arith, false, some, [], ◌∷◌, ◌-◌, ◌^◌}
use vee.Worker.System.{System, Reach, worker, running, waiting}
use vee.Worker.Race.{count_wraps}
use vee.Worker.Group.{Group, group_request}
use vee.Worker.Group.Share.{nobody, somebody}
use vee.Worker.Group.Room.{IsValid, Takes, group_request-Takes, group_request_refuses}

-- The first worker has no room, the second sleeps.
abbrev uneven : Group ℕ
uneven = record {
  workers =
      record { job_queue_size = 2; jobs = 7 ∷ 8 ∷ []; remained = 2; promise = none }
      ∷ record { job_queue_size = 2; jobs = []; remained = 0; promise = some false }
      ∷ [];
  job_counter = 2;
}

uneven-IsValid : IsValid 2 uneven
uneven-IsValid = record {
  even =
      somebody refl refl (omega arith) (λ z. absurd (omega arith))
        (somebody refl refl (omega arith) (λ z e. cc) nobody);
  counted = refl;
  size_fits = omega arith;
  fits = omega arith;
  staffed = omega arith;
}

abbrev full : Group ℕ
full = record {
  workers = record { job_queue_size = 1; jobs = 7 ∷ []; remained = 1; promise = none } ∷ [];
  job_counter = 1;
}

full-IsValid : IsValid 1 full
full-IsValid = record {
  even = somebody refl refl (omega arith) (λ z. absurd (omega arith)) nobody;
  counted = refl;
  size_fits = omega arith;
  fits = omega arith;
  staffed = omega arith;
}

count_wraps_example :
    (s : System ℕ) × Reach 0 4 s
    × (s.processed ≡ 5 ∷ [])
    × (s.jobs ≡ [])
    × (s.remained ≡ 2 ^ 64 - 1)
count_wraps_example = count_wraps 0 5 4 (omega arith)

group_request-Takes_example : Takes 2 10 uneven
group_request-Takes_example = group_request-Takes 2 10 uneven uneven-IsValid (omega arith)

group_request_refuses_example : group_request 8 full ≡ some (false, full)
group_request_refuses_example = group_request_refuses 1 8 full full-IsValid (omega arith)

-- The thread sleeps, and a request has put a job into the queue.
abbrev asleep : System ℕ
asleep = record (worker 4) {
  state = running;
  pc = waiting;
  promise = some false;
  jobs = 5 ∷ [];
  accepted = 5 ∷ [];
  pending = 1;
}
