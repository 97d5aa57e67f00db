-- ===== src/Worker/System.antt =====
-- A worker of vee/worker.h, its thread, and one client thread: the atomic steps of `_worker_main`,
-- and of the client's calls of `request`, `start` and `shutdown`, one after the other, with those
-- of the worker's thread between them in any order. A call on `_job_queue` is one step here, on a
-- bounded queue: the client's thread is then the only one that puts jobs in, and the worker's the
-- only one that takes them out; `Lockfree/Pair` is about the steps within such calls. Clients that
-- make requests at once are not modelled: a call of `lockfree::queue::enqueue` is no single step
-- for them.
use vee.Common.{
  ℕ, suc, ◌<◌, ◌≡◌, ◌≢◌, Bool, true, false, Option, none, some, List, [], ◌∷◌, ◌++◌, length,
  add_size, sub_size,
}

-- `state_t`.
pub data State : Type 0 where
  standby : State
  running : State
  shutdown : State

-- Where the worker's thread stands in `_worker_main`, with its local counter.
pub data Pc : Type 0 where
  absent : Pc  -- no thread
  loading : Pc  -- before `_remained.load()`
  testing : (remained : ℕ) → Pc  -- the head of the loop
  waiting : Pc  -- `future.wait()`
  epoch : Pc  -- before `_epoch()`
  counting : Pc  -- before `_remained.fetch_sub(1)`
  stopping : Pc  -- behind the loop

-- `promise` is null, or has been signalled or not. Where the client stands in its call: `pending`
-- is 1 if it has put its job into the queue and has not counted it; `signallers` is 1 if it waits
-- for a promise to signal; `closing` tells that it is in `shutdown` and about to look whether it
-- has to wake the worker. If none is so, the client is in no call. `accepted` and `processed` are
-- the jobs put into the queue so far, and those run, in order.
pub record System (J : Type 0) : Type 0 where
  pub job_queue_size : ℕ
  pub jobs : List J
  pub remained : ℕ
  pub state : State
  pub promise : Option Bool
  pub pc : Pc
  pub pending : ℕ
  pub signallers : ℕ
  pub closing : Bool
  pub accepted : List J
  pub processed : List J

abbrev pub worker : {J : Type 0} → ℕ → System J
worker job_queue_size = record {
  job_queue_size = job_queue_size;
  jobs = [];
  remained = 0;
  state = standby;
  promise = none;
  pc = absent;
  pending = 0;
  signallers = 0;
  closing = false;
  accepted = [];
  processed = [];
}

-- `dummy` is the job that `shutdown` makes to wake the worker. A request that is refused by a full
-- queue changes nothing and has no step. A request that signals a promise for the second time
-- throws, and so does a `shutdown` whose dummy job finds the queue full; they have no step.
module _ {J : Type 0} (dummy : J) where
  pub data Step (s : System J) : System J → Type 0 where
    -- `start`.
    start :
        s.pending ≡ 0
        → s.signallers ≡ 0
        → s.closing ≡ false
        → s.state ≡ standby
        → s.pc ≡ absent
        → Step s (record s { state = running; pc = loading })
    -- `_worker_main`.
    load : s.pc ≡ loading → Step s (record s { pc = testing s.remained })
    leave : (r : ℕ) → s.pc ≡ testing r → s.state ≢ running → Step s (record s { pc = stopping })
    sleep :
        s.pc ≡ testing 0
        → s.state ≡ running
        → Step s (record s { promise = some false; pc = waiting })
    go : (r : ℕ) → s.pc ≡ testing r → r ≢ 0 → s.state ≡ running → Step s (record s { pc = epoch })
    wake : s.pc ≡ waiting → s.promise ≡ some true → Step s (record s { promise = none; pc = epoch })
    take :
        (j : J) (js : List J)
        → s.pc ≡ epoch
        → s.jobs ≡ j ∷ js
        → Step s (record s { jobs = js; processed = s.processed ++ (j ∷ []); pc = counting })
    miss : s.pc ≡ epoch → s.jobs ≡ [] → Step s (record s { pc = counting })
    count :
        s.pc ≡ counting
        → Step s
            (record s { remained = sub_size s.remained 1; pc = testing (sub_size s.remained 1) })
    stop : s.pc ≡ stopping → s.state ≡ shutdown → Step s (record s { state = standby; pc = absent })
    -- `nothrow_request`: the job goes into the queue; it is counted; the worker is signalled if it
    -- was the first.
    enqueue :
        (j : J)
        → s.pending ≡ 0
        → s.signallers ≡ 0
        → s.closing ≡ false
        → length s.jobs < s.job_queue_size
        → Step s (record s {
          jobs = s.jobs ++ (j ∷ []);
          accepted = s.accepted ++ (j ∷ []);
          pending = suc s.pending;
        })
    add :
        (p : ℕ)
        → s.pending ≡ suc p
        → (s.remained ≡ 0 → s.state ≡ standby)
        → Step s (record s { remained = add_size s.remained 1; pending = p })
    add_first :
        (p : ℕ)
        → s.pending ≡ suc p
        → s.remained ≡ 0
        → s.state ≢ standby
        → Step s (record s { remained = 1; pending = p; signallers = suc s.signallers })
    signal :
        (k : ℕ)
        → s.signallers ≡ suc k
        → s.promise ≡ some false
        → Step s (record s { promise = some true; signallers = k })
    -- `shutdown`.
    close :
        s.pending ≡ 0
        → s.signallers ≡ 0
        → s.closing ≡ false
        → s.state ≡ running
        → Step s (record s { state = shutdown; closing = true })
    close_busy : s.closing ≡ true → s.remained ≢ 0 → Step s (record s { closing = false })
    close_idle :
        s.closing ≡ true
        → s.remained ≡ 0
        → length s.jobs < s.job_queue_size
        → Step s (record s {
          jobs = s.jobs ++ (dummy ∷ []);
          accepted = s.accepted ++ (dummy ∷ []);
          pending = suc s.pending;
          closing = false;
        })

  pub data Reach (n : ℕ) : System J → Type 0 where
    here : Reach n (worker n)
    next : {s t : System J} → Reach n s → Step s t → Reach n t
