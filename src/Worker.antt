-- ===== src/Worker.antt =====
-- The worker of internal/services/matchmaker.go and its shutdown: StartWorker, StopWorker, the worker's
-- loop, and what m.wg counts. A round of a tick, of the worker or of a ForceMatch, launches a coordinator
-- for its room; the coordinators themselves are in System. time.Ticker decides when the tick case is
-- ready. sync.WaitGroup is taken as its documentation has it: a Wait returns when the counter is zero, and
-- an Add from zero must not come while a Wait is there. What it does after such a misuse, in which it
-- may panic or let the Wait return early, is left open.
pub mod Balance
use fp_insis.Prelude.{
  ℕ, ◌+◌, ◌-◌, Bool, true, false, ◌&&◌, List, [], ◌∷◌, ltb, nat_beq, if◌then◌else◌,
}
use fp_insis.Runtime.{Floats}
use fp_insis.Matchmaker.{Round, Engine, Drawn, nothing_left, opens, draw_panics, draw}

-- Whether stopCh is closed, the WaitGroup's counter, the workers that are at their select and those that
-- are in a tick, the coordinators that run, and the calls of StopWorker that are in wg.Wait.
pub record WorkerState : Type 0 where
  pub engine : Engine
  pub stop_closed : Bool
  pub wg : ℕ
  pub workers : ℕ
  pub ticking : ℕ
  pub coordinators : ℕ
  pub waiting : ℕ

-- NewMatchmakerServer.
abbrev pub new_worker_state : Engine → WorkerState
new_worker_state e = record {
  engine = e;
  stop_closed = false;
  wg = 0;
  workers = 0;
  ticking = 0;
  coordinators = 0;
  waiting = 0;
}

-- The calls of main, a round of a ForceMatch, and the steps of the goroutines.
pub data WorkerEvent : Type 0 where
  start_worker stop_worker wait_returns stop_case tick_case coordinator_ends : WorkerEvent
  tick_round force_round : Round → WorkerEvent

-- `waits` for an event that is not ready, `crashes` for a panic of the code's own, `misuses` for an Add
-- that the WaitGroup does not allow.
pub data WorkerNext : Type 0 where
  waits crashes misuses : WorkerNext
  goes : WorkerState → WorkerNext

-- wg.Done: a negative counter panics.
abbrev pub wg_done : WorkerState → WorkerNext
wg_done s = if ltb 0 s.wg then goes (record s { wg = s.wg - 1 }) else crashes

-- wg.Add(1).
abbrev pub wg_add : WorkerState → WorkerNext
wg_add s = if nat_beq s.wg 0 && ltb 0 s.waiting then misuses else goes (record s { wg = s.wg + 1 })

-- wg.Add(1) and go, where a round opens a room; the second argument is the state where it does not.
abbrev pub launch : WorkerState → WorkerState → Drawn → WorkerNext
launch s idle (nothing_left e) = goes (record idle { engine = e })
launch s idle (opens e room) = wg_add (record s { engine = e; coordinators = s.coordinators + 1 })
launch s idle draw_panics = crashes

-- A second close of stopCh panics; StopWorker recovers, and returns without a wait.
unfoldable pub worker_step : Floats → WorkerEvent → WorkerState → WorkerNext
worker_step fl start_worker s = wg_add (record s { workers = s.workers + 1 })
worker_step fl stop_worker s =
    if s.stop_closed
    then goes s
    else goes (record s { stop_closed = true; waiting = s.waiting + 1 })
worker_step fl wait_returns s =
    if ltb 0 s.waiting && nat_beq s.wg 0 then goes (record s { waiting = s.waiting - 1 }) else waits
worker_step fl stop_case s =
    if ltb 0 s.workers && s.stop_closed
    then wg_done (record s { workers = s.workers - 1 })
    else waits
worker_step fl tick_case s =
    if ltb 0 s.workers
    then goes (record s { workers = s.workers - 1; ticking = s.ticking + 1 })
    else waits
worker_step fl coordinator_ends s =
    if ltb 0 s.coordinators then wg_done (record s { coordinators = s.coordinators - 1 }) else waits
worker_step fl (tick_round r) s =
    let back = record s { workers = s.workers + 1; ticking = s.ticking - 1 } in
    let drawn = launch s back (draw fl r s.engine) in if ltb 0 s.ticking then drawn else waits
worker_step fl (force_round r) s = launch s s (draw fl r s.engine)

abbrev pub and_then : WorkerNext → (WorkerState → WorkerNext) → WorkerNext
and_then waits f = waits
and_then crashes f = crashes
and_then misuses f = misuses
and_then (goes s) f = f s

-- One event after another.
unfoldable pub run_worker : Floats → List WorkerEvent → WorkerState → WorkerNext
run_worker fl [] s = goes s
run_worker fl (ev ∷ evs) s = and_then (worker_step fl ev s) (λ s'. run_worker fl evs s')
