-- ===== src/Worker/Steps.antt =====
-- What a calm worker promises, by its steps.
use vee.Common.{ℕ, zero, suc, ◌<◌, ◌^◌, ◌≡◌, inl, refl, subst, arith}
use vee.Worker.System.{
  System, running, Step, start, load, leave, sleep, go, wake, take, miss, count, stop, enqueue, add,
  add_first, signal, close, close_busy, close_idle,
}
use vee.Worker.Calm.Phases.{Phase}
use vee.Worker.Calm.{
  IsCalm, CalmReach, loaded, next, IsCalm-sleep, IsCalm-go, IsCalm-wake, IsCalm-take, IsCalm-miss,
  IsCalm-count, IsCalm-enqueue, IsCalm-add, IsCalm-add_first, IsCalm-signal,
}

module _ {J : Type 0} (dummy : J) where
  step-IsCalm :
      (n : ℕ) (s t : System J)
      → n < 2 ^ 63
      → IsCalm n s
      → Step dummy s t
      → t.state ≡ running
      → IsCalm n t
  step-IsCalm n s _ small c (start i i' i'' e e') on = absurd (ground (arith, e, c.on))
  step-IsCalm n s _ small c (load e) on =
      absurd (subst (λ pc. Phase pc s.remained s.promise s.signallers) e c.phase)
  step-IsCalm n s _ small c (leave r e off) on = absurd (off c.on)
  step-IsCalm n s _ small c (sleep e e') on = IsCalm-sleep c e
  step-IsCalm n s _ small c (go zero e ne e') on = absurd (omega arith)
  step-IsCalm n s _ small c (go (suc r) e ne e') on = IsCalm-go r c e
  step-IsCalm n s _ small c (wake e e') on = IsCalm-wake c e e'
  step-IsCalm n s _ small c (take j js e e') on = IsCalm-take j js c e e'
  step-IsCalm n s _ small c (miss e e') on = absurd (IsCalm-miss c e e')
  step-IsCalm n s _ small c (count e) on = IsCalm-count small c e
  step-IsCalm n s _ small c (stop e e') on = absurd (ground (arith, on))
  step-IsCalm n s _ small c (enqueue j i i' i'' lt) on = IsCalm-enqueue j c lt
  step-IsCalm n s _ small c (add p e first) on = IsCalm-add p small c e first
  step-IsCalm n s _ small c (add_first p e e' ne) on = IsCalm-add_first p c e e'
  step-IsCalm n s _ small c (signal k e e') on = IsCalm-signal k c e e'
  step-IsCalm n s _ small c (close i i' i'' e) on = absurd (ground (arith, on))
  step-IsCalm n s _ small c (close_busy e ne) on = record {
    on = c.on;
    capacity = c.capacity;
    few = c.few;
    kept = c.kept;
    counted = c.counted;
    phase = c.phase;
  }
  step-IsCalm n s _ small c (close_idle e e' lt) on =
      let d = IsCalm-enqueue dummy c lt in
      record {
        on = d.on;
        capacity = d.capacity;
        few = d.few;
        kept = d.kept;
        counted = d.counted;
        phase = d.phase;
      }

  pub CalmReach-IsCalm : (n : ℕ) (s : System J) → n < 2 ^ 63 → CalmReach dummy n s → IsCalm n s
  CalmReach-IsCalm n _ small loaded = record {
    on = refl;
    capacity = refl;
    few = omega arith;
    kept = refl;
    counted = omega arith;
    phase = (refl, inl (refl, refl));
  }
  CalmReach-IsCalm n _ small (next {s} {t} r st on) =
      step-IsCalm n s t small (CalmReach-IsCalm n s small r) st on
