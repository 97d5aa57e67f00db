-- ===== src/Worker/Task.antt =====
-- `packaged_task` of vee/worker.h: a delegate and the arguments for it.
use vee.Common.{Bool, true, false, ◌≡◌, refl, [], ◌∷◌}
use vee.Delegate.{Callable, Delegate, empty, invoke, invoke_all}
use vee.Delegate.Entries.{Table}

pub record PackagedTask (A S : Type 0) : Type 0 where
  pub task : Delegate A S
  pub args : A
  pub is_valid : Bool

module _ {A S : Type 0} where
  -- The constructors from a delegate and arguments.
  abbrev pub packaged_task : Delegate A S → A → PackagedTask A S
  packaged_task task args = record { task = task; args = args; is_valid = true }

  -- The copying constructor.
  unfoldable pub copy : PackagedTask A S → PackagedTask A S
  copy other = record { task = other.task; args = other.args; is_valid = other.is_valid }

  -- `operator=`.
  unfoldable pub assign : PackagedTask A S → PackagedTask A S → PackagedTask A S
  assign t rhs = record t { task = rhs.task; args = rhs.args; is_valid = rhs.is_valid }

  -- `run`: the task after it, whose arguments the callees may have changed, and the world.
  unfoldable pub run : PackagedTask A S → S → PackagedTask A S × S
  unfolding empty invoke
  run t s = elim (empty t.task) [
    | true ↦ (t, s)
    | false ↦ let (args, s') = invoke t.task t.args s in (record t { args = args }, s')
  ]

  run-tables :
      (c u : Table (Callable A S)) (args : A) (v : Bool) (s : S)
      → run (record { task = record { cont = c; usrcont = u }; args = args; is_valid = v }) s ≡ (
          let (args', s') = invoke (record { cont = c; usrcont = u }) args s in
          (record { task = record { cont = c; usrcont = u }; args = args'; is_valid = v }, s'))
  unfolding run empty invoke invoke_all
  run-tables [] [] args v s = refl
  run-tables [] (x ∷ u) args v s = refl
  run-tables (x ∷ c) u args v s = refl

  -- A task calls its delegate with its arguments and keeps them as the callees left them, also
  -- where the delegate is empty: the guard of `run` changes nothing.
  pub run_lem :
      (t : PackagedTask A S) (s : S)
      → run t s ≡ (let (args, s') = invoke t.task t.args s in (record t { args = args }, s'))
  run_lem t s = run-tables t.task.cont t.task.usrcont t.args t.is_valid s
