-- ===== src/Worker/Balance.antt =====
-- What the WaitGroup counts, in every run of the worker.
use fp_insis.Prelude.{
  ◌+◌, ◌-◌, ◌<◌, ◌≡◌, refl, subst, ◌≢◌, Bool, true, false, ◌&&◌, List, [], ◌∷◌, arith, ltb, nat_beq,
  if◌then◌else◌,
}
use fp_insis.Runtime.{Floats}
use fp_insis.Pool.Queueing.{IsSafe}
use fp_insis.Matchmaker.{Engine, Drawn}
use fp_insis.Matchmaker.Rooms.{Unmade}
use fp_insis.Matchmaker.Drawing.{DrawsWell, stays, made, draw-DrawsWell}
use fp_insis.Worker.{
  WorkerState, new_worker_state, WorkerEvent, start_worker, stop_worker, wait_returns, stop_case,
  tick_case, coordinator_ends, tick_round, force_round, WorkerNext, waits, crashes, misuses, goes,
  launch, wg_add, worker_step, and_then, run_worker,
}

-- The counter is that of the goroutines that run, and the pool is in good order.
pub record IsBalanced (s : WorkerState) : Type 0 where
  pub safe : IsSafe s.engine.lobby
  pub unmade : Unmade s.engine.bools
  pub counted : s.wg ≡ s.workers + s.ticking + s.coordinators

-- None of the goroutines that the WaitGroup counts runs, and a StopWorker is in its wait.
pub record IsDrained (s : WorkerState) : Type 0 where
  pub workers : s.workers ≡ 0
  pub ticking : s.ticking ≡ 0
  pub coordinators : s.coordinators ≡ 0
  pub waiting : 0 < s.waiting

-- StartWorker and a ForceMatch, which the WaitGroup does not count.
abbrev pub FromOutside : WorkerEvent → Type 0
FromOutside start_worker = Unit {0}
FromOutside (force_round r) = Unit {0}
FromOutside _ = ⊥

-- Not ready, or to a state that is balanced; a misuse only as `m` allows.
abbrev Balances : Type 0 → WorkerNext → Type 0
Balances m waits = Unit
Balances m crashes = ⊥
Balances m misuses = m
Balances m (goes s) = IsBalanced s

module _ (m : Type 0) where
  pick :
      (b : Bool) (x y : WorkerNext)
      → (b ≡ true → Balances m x)
      → (b ≡ false → Balances m y)
      → Balances m (if b then x else y)
  pick true x y hx hy = hx refl
  pick false x y hx hy = hy refl

  wg_add-Balances :
      (s : WorkerState)
      → IsSafe s.engine.lobby
      → Unmade s.engine.bools
      → s.wg + 1 ≡ s.workers + s.ticking + s.coordinators
      → (s.wg ≡ 0 → 0 < s.waiting → m)
      → Balances m (wg_add s)
  wg_add-Balances s safe unmade c h =
      pick (nat_beq s.wg 0 && ltb 0 s.waiting) _ _ (λ b. h (ground arith) (ground arith))
        (λ b. record { safe = safe; unmade = unmade; counted = c })

  launch-Balances :
      (s idle : WorkerState) (d : Drawn)
      → DrawsWell s.engine d
      → IsBalanced s
      → idle.wg ≡ idle.workers + idle.ticking + idle.coordinators
      → (s.wg ≡ 0 → 0 < s.waiting → m)
      → Balances m (launch s idle d)
  launch-Balances s idle d stays b c h = record { safe = b.safe; unmade = b.unmade; counted = c }
  launch-Balances s idle d (made e room t) b c h =
      wg_add-Balances (record s { engine = e; coordinators = s.coordinators + 1 }) t.safe
        t.bools.unmade (omega (arith, b.counted)) h

module _ (fl : Floats) where
  -- How a step may misuse the WaitGroup.
  abbrev Misuse : WorkerEvent → WorkerState → Type 0
  Misuse ev s = FromOutside ev × IsDrained s

  drained : (s : WorkerState) → IsBalanced s → s.wg ≡ 0 → 0 < s.waiting → IsDrained s
  drained s b z w = record {
    workers = omega (arith, b.counted, z);
    ticking = omega (arith, b.counted, z);
    coordinators = omega (arith, b.counted, z);
    waiting = w;
  }

  step-Balances :
      (ev : WorkerEvent) (s : WorkerState)
      → IsBalanced s
      → Balances (Misuse ev s) (worker_step fl ev s)
  unfolding worker_step
  step-Balances start_worker s b =
      wg_add-Balances (Misuse start_worker s) (record s { workers = s.workers + 1 }) b.safe b.unmade
        (omega (arith, b.counted)) (λ z w. (tt, drained s b z w))
  step-Balances stop_worker s b =
      pick (Misuse stop_worker s) s.stop_closed _ _ (λ c. b)
        (λ o. record { safe = b.safe; unmade = b.unmade; counted = b.counted })
  step-Balances wait_returns s b =
      pick (Misuse wait_returns s) (ltb 0 s.waiting && nat_beq s.wg 0) _ _
        (λ c. record { safe = b.safe; unmade = b.unmade; counted = b.counted }) (λ o. tt)
  step-Balances stop_case s b =
      pick (Misuse stop_case s) (ltb 0 s.workers && s.stop_closed) _ _
        (λ c.
          pick (Misuse stop_case s) (ltb 0 s.wg) _ _
            (λ p. record { safe = b.safe; unmade = b.unmade; counted = ground (arith, b.counted) })
            (λ z. absurd (ground (arith, b.counted))))
        (λ o. tt)
  step-Balances tick_case s b =
      pick (Misuse tick_case s) (ltb 0 s.workers) _ _
        (λ c. record { safe = b.safe; unmade = b.unmade; counted = ground (arith, b.counted) })
        (λ o. tt)
  step-Balances coordinator_ends s b =
      pick (Misuse coordinator_ends s) (ltb 0 s.coordinators) _ _
        (λ c.
          pick (Misuse coordinator_ends s) (ltb 0 s.wg) _ _
            (λ p. record { safe = b.safe; unmade = b.unmade; counted = ground (arith, b.counted) })
            (λ z. absurd (ground (arith, b.counted))))
        (λ o. tt)
  step-Balances (tick_round r) s b =
      pick (Misuse (tick_round r) s) (ltb 0 s.ticking) _ _
        (λ c.
          launch-Balances (Misuse (tick_round r) s) s
            (record s { workers = s.workers + 1; ticking = s.ticking - 1 }) _
            (draw-DrawsWell fl r s.engine b.safe b.unmade) b (ground (arith, b.counted))
            (λ z w. absurd (ground (arith, b.counted, z))))
        (λ o. tt)
  step-Balances (force_round r) s b =
      launch-Balances (Misuse (force_round r) s) s s _
        (draw-DrawsWell fl r s.engine b.safe b.unmade) b b.counted (λ z w. (tt, drained s b z w))

  and_then-Balances :
      (m : Type 0) (n : WorkerNext) (f : WorkerState → WorkerNext)
      → Balances m n
      → ((s : WorkerState) → IsBalanced s → Balances (Unit {0}) (f s))
      → Balances (Unit {0}) (and_then n f)
  and_then-Balances m waits f x h = tt
  and_then-Balances m crashes f x h = x
  and_then-Balances m misuses f x h = tt
  and_then-Balances m (goes s) f x h = h s x

  run-Balances :
      (evs : List WorkerEvent) (s : WorkerState)
      → IsBalanced s
      → Balances (Unit {0}) (run_worker fl evs s)
  unfolding run_worker
  run-Balances [] s b = b
  run-Balances (ev ∷ evs) s b =
      and_then-Balances _ (worker_step fl ev s) (λ s'. run_worker fl evs s') (step-Balances ev s b)
        (λ s' b'. run-Balances evs s' b')

  -- From a server whose pool is in good order, whatever starts, stops, ticks and ends came, as long as
  -- no Add misused the WaitGroup: it counts the workers, in their select or in a tick, and the
  -- coordinators that run; no call of Done makes it negative and no round panics; a wait of StopWorker
  -- returns only when none of them runs; and an Add can misuse the WaitGroup only when it is from
  -- StartWorker or a ForceMatch, none of them runs and a StopWorker is still in its wait.
  pub run_worker-IsBalanced :
      (e : Engine) (evs : List WorkerEvent) (s : WorkerState)
      → IsSafe e.lobby
      → Unmade e.bools
      → run_worker fl evs (new_worker_state e) ≡ goes s
      → (s.wg ≡ s.workers + s.ticking + s.coordinators)
        × ((ev : WorkerEvent) → worker_step fl ev s ≢ crashes)
        × ((s' : WorkerState)
            → worker_step fl wait_returns s ≡ goes s'
            → (s.workers ≡ 0) × (s.ticking ≡ 0) × (s.coordinators ≡ 0))
        × ((ev : WorkerEvent) → worker_step fl ev s ≡ misuses → FromOutside ev × IsDrained s)
  unfolding worker_step
  run_worker-IsBalanced e evs s safe unmade ran =
      let b : IsBalanced s = subst (Balances (Unit {0})) ran (
        run-Balances evs (new_worker_state e)
          (record { safe = safe; unmade = unmade; counted = refl })) in
      (
        b.counted,
        λ ev x. subst (Balances (Misuse ev s)) x (step-Balances ev s b),
        λ s' x. ground (arith, b.counted),
        λ ev x. subst (Balances (Misuse ev s)) x (step-Balances ev s b),
      )
