-- ===== src/Worker/Group/Room.antt =====
-- When a group takes a job, and what then holds.
use vee.Common.{
  ℕ, suc, ◌+◌, ◌*◌, ◌/◌, ◌≤◌, ◌<◌, ◌^◌, ◌≡◌, ◌∙◌, ◌⊎◌, inl, inr, refl, ap, Bool, true, false,
  Option, none, some, List, [], ◌∷◌, length, length-append, arith, dec_lt, dec_le,
}
use vee.Worker.Group.{Worker, Group, behind, offer, group_request}
use vee.Worker.Group.Share.{
  total, IsEven, nobody, somebody, loaded, Given, this, later, Refusing, offer-skip, offer-take,
  offer-full,
}
use native.Mathlib.Nat.{le-div_iff_mul-le, mul_comm}

mul_suc : (n m : ℕ) → suc n * m ≡ m + n * m
mul_suc n m = grind arith

module _ {J : Type 0} where
  total-Given : (job : J) (ws ws' : List (Worker J)) → Given job ws ws' → total ws' ≡ suc (total ws)
  total-Given job _ _ (this w ws lt) = omega arith
  total-Given job _ _ (later {w} {ws} {ws'} g) = omega (arith, total-Given job ws ws' g)

  length-Given : (job : J) (ws ws' : List (Worker J)) → Given job ws ws' → length ws' ≡ length ws
  length-Given job _ _ (this w ws lt) = refl
  length-Given job _ _ (later {w} {ws} {ws'} g) = ap suc (length-Given job ws ws' g)

  pub total-IsEven :
      (size : ℕ) (ws : List (Worker J)) → IsEven size ws → total ws ≤ length ws * size
  total-IsEven size _ nobody = omega arith
  total-IsEven size _ (somebody {w} {ws} e r le fresh even) =
      omega (arith, total-IsEven size ws even, mul_suc (length ws) size)

  -- A group whose workers all refuse has no room.
  total-Refusing :
      (average size : ℕ) (ws : List (Worker J))
      → size ≤ average
      → IsEven size ws
      → Refusing average size ws
      → total ws ≡ length ws * size
  total-Refusing average size _ le nobody nobody = omega arith
  total-Refusing average size _ le (somebody {w} {ws} e r l fresh even) (somebody (inl lt) f) =
      omega (arith, total-Refusing average size ws le even f, mul_suc (length ws) size)
  total-Refusing average size _ le (somebody {w} {ws} e r l fresh even) (somebody (inr eq) f) =
      omega (arith, total-Refusing average size ws le even f, mul_suc (length ws) size)

  total-Refusing_busy :
      (average size : ℕ) (ws : List (Worker J))
      → average < size
      → Refusing average size ws
      → length ws * suc average ≤ total ws
  total-Refusing_busy average size _ lt nobody = omega arith
  total-Refusing_busy average size _ lt (somebody {w} {ws} (inl h) f) =
      omega (arith, total-Refusing_busy average size ws lt f, mul_suc (length ws) (suc average))
  total-Refusing_busy average size _ lt (somebody {w} {ws} (inr h) f) =
      omega (arith, total-Refusing_busy average size ws lt f, mul_suc (length ws) (suc average))

  -- What the loop does: one worker gets the job, or all refuse it.
  abbrev Offered : ℕ → ℕ → J → List (Worker J) → ℕ → Type 0
  Offered size average job ws c =
      ((ws' : List (Worker J)) × (offer average job ws c ≡ some (true, ws', suc c))
        × Given job ws ws')
      ⊎ ((offer average job ws c ≡ some (false, ws, c)) × Refusing average size ws)

  offer-behind :
      (size average : ℕ) (job : J) (w : Worker J) (ws : List (Worker J)) (c : ℕ)
      → offer average job (w ∷ ws) c ≡ behind w (offer average job ws c)
      → (average < w.remained) ⊎ (w.remained ≡ size)
      → Offered size average job ws c
      → Offered size average job (w ∷ ws) c
  offer-behind size average job w ws c eq why (inl (ws', taken, given)) =
      inl (w ∷ ws', eq ∙ ap (behind w) taken, later given)
  offer-behind size average job w ws c eq why (inr (refused, all)) =
      inr (eq ∙ ap (behind w) refused, somebody why all)

  offer_lem :
      (size average : ℕ) (job : J) (ws : List (Worker J)) (c : ℕ)
      → IsEven size ws
      → size < 2 ^ 64
      → suc c < 2 ^ 64
      → Offered size average job ws c
  unfolding offer
  offer_lem size average job _ c nobody fits room = inr (refl, nobody)
  offer_lem size average job _ c (somebody {w} {ws} e r le fresh even) fits room =
      let rest : Offered size average job ws c = offer_lem size average job ws c even fits room in
      elim (dec_lt average w.remained) [
        | yes lt ↦
            offer-behind size average job w ws c (offer-skip average job w ws c lt) (inl lt) rest
        | no nlt ↦ elim (dec_lt (length w.jobs) w.job_queue_size) [
          | yes lt ↦ inl (
            loaded job w ∷ ws,
            offer-take average job w ws c (omega arith) lt (omega arith) room fresh,
            this w ws lt,
          )
          | no full ↦
              offer-behind size average job w ws c
                (offer-full average job w ws c (omega arith) (omega arith)) (inr (omega arith)) rest
        ]
      ]

  IsEven-Given :
      (size : ℕ) (job : J) (ws ws' : List (Worker J))
      → Given job ws ws'
      → IsEven size ws
      → IsEven size ws'
  IsEven-Given size job _ _ (this w ws lt) (somebody e r le fresh even) =
      somebody e (omega (arith, length-append w.jobs (job ∷ [])))
        (omega (arith, length-append w.jobs (job ∷ []))) (λ z. absurd (omega arith)) even
  IsEven-Given size job _ _ (later g) (somebody e r le fresh even) =
      somebody e r le fresh (IsEven-Given size job _ _ g even)

  -- A group that stands still: the queues are of one size, each worker counts its jobs, none that
  -- counts no job has a promise that was signalled, the group counts all jobs, and no counter can
  -- overflow.
  pub record IsValid (size : ℕ) (g : Group J) : Type 0 where
    pub even : IsEven size g.workers
    pub counted : g.job_counter ≡ total g.workers
    pub size_fits : size < 2 ^ 64
    pub fits : suc (length g.workers * size) < 2 ^ 64
    pub staffed : 0 < length g.workers

  abbrev average : Group J → ℕ
  average g = g.job_counter / length g.workers

  abbrev after : Group J → Option (Bool × List (Worker J) × ℕ) → Option (Bool × Group J)
  after g none = none
  after g (some (result, ws, c)) = some (result, record g { workers = ws; job_counter = c })

  group_request-after :
      (job : J) (ws : List (Worker J)) (c : ℕ)
      → 0 < length ws
      → group_request job (record { workers = ws; job_counter = c })
        ≡ after (record { workers = ws; job_counter = c }) (offer (c / length ws) job ws c)
  unfolding group_request
  group_request-after job [] c pos = absurd (omega arith)
  group_request-after job (w ∷ ws) c pos = refl

  Refusing-full :
      (size : ℕ) (g : Group J)
      → IsValid size g
      → Refusing (average g) size g.workers
      → total g.workers ≡ length g.workers * size
  Refusing-full size g v f = elim (dec_le size (average g)) [
    | yes le ↦ total-Refusing (average g) size g.workers le v.even f
    | no nle ↦ absurd (
        omega (
          arith,
          (le-div_iff_mul-le {x = suc (average g)} {y = g.job_counter} v.staffed).1 (
              omega (
                arith,
                v.counted,
                total-Refusing_busy (average g) size g.workers (omega arith) f,
                mul_comm (length g.workers) (suc (average g)),
              )),
        ))
  ]

  -- What a group answers while it has room.
  pub record Takes (size : ℕ) (job : J) (g : Group J) : Type 0 where
    pub next : Group J
    pub answer : group_request job g ≡ some (true, next)
    pub given : Given job g.workers next.workers
    pub valid : IsValid size next

  -- A valid group takes every job while fewer jobs are in it than all its queues have places: one
  -- worker with room gets the job at the end of its queue, and is signalled if it had none, the other
  -- workers stay as they are, and the group is valid again.
  pub group_request-Takes :
      (size : ℕ) (job : J) (g : Group J)
      → IsValid size g
      → total g.workers < length g.workers * size
      → Takes size job g
  group_request-Takes size job g v room =
      elim (offer_lem size (average g) job g.workers g.job_counter v.even v.size_fits
        (omega (arith, v.fits, v.counted))) [
          | inl (ws', taken, given) ↦ record {
            next = record { workers = ws'; job_counter = suc g.job_counter };
            answer = group_request-after job g.workers g.job_counter v.staffed ∙ ap (after g) taken;
            given = given;
            valid = record {
              even = IsEven-Given size job g.workers ws' given v.even;
              counted = omega (arith, v.counted, total-Given job g.workers ws' given);
              size_fits = v.size_fits;
              fits = rw (length-Given job g.workers ws' given) v.fits;
              staffed = rw (length-Given job g.workers ws' given) v.staffed;
            };
          }
          | inr (refused, all) ↦ absurd (omega (arith, Refusing-full size g v all))
        ]

  Given-room :
      (size : ℕ) (job : J) (ws ws' : List (Worker J))
      → Given job ws ws'
      → IsEven size ws
      → total ws < length ws * size
  Given-room size job ws ws' given even = omega (
    arith,
    total-Given job ws ws' given,
    length-Given job ws ws' given,
    total-IsEven size ws' (IsEven-Given size job ws ws' given even),
    ap (λ n. n * size) (length-Given job ws ws' given),
  )

  -- A valid group with as many jobs as all its queues have places, or more, refuses the next one,
  -- and stays as it is.
  pub group_request_refuses :
      (size : ℕ) (job : J) (g : Group J)
      → IsValid size g
      → length g.workers * size ≤ total g.workers
      → group_request job g ≡ some (false, g)
  group_request_refuses size job g v full =
      elim (offer_lem size (average g) job g.workers g.job_counter v.even v.size_fits
        (omega (arith, v.fits, v.counted, total-IsEven size g.workers v.even))) [
          | inl (ws', taken, given) ↦
              absurd (omega (arith, Given-room size job g.workers ws' given v.even))
          | inr (refused, all) ↦
              group_request-after job g.workers g.job_counter v.staffed ∙ ap (after g) refused
        ]
