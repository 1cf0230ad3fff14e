-- ===== src/Examples/Systems.antt =====
-- The server's goroutines, the pool's callers and the worker, at concrete inputs.
use fp_insis.Prelude.{ℕ, ◌+◌, ◌≡◌, ◌≢◌, refl, true, some, List, [], ◌∷◌, pos, get, put}
use fp_insis.Chan.{make_chan}
use fp_insis.Pool.{new_pool, enqueue, add_player}
use fp_insis.Pool.Queueing.{IsSafe}
use fp_insis.Pool.Contract.{
  view, Event, Follows, Call, enqueue_call, dequeue_call, ask_call, count_call, draw_call,
  put_back_drawn, Desk, perform_all,
}
use fp_insis.Pool.Contract.Refines.{IsTended, perform_all-Follows}
use fp_insis.Gateway.{enter, check_join}
use fp_insis.Gateway.Entry.{join_message}
use fp_insis.Gateway.Loop.{ticker_case}
use fp_insis.Pool.Extract.{extract_match, find_best}
use fp_insis.Matchmaker.{Round, draw}
use fp_insis.Matchmaker.Rooms.{Unmade}
use fp_insis.System.{
  System, crashed, stuck, stepped, Action, connects, stream_acts, system_step, new_system,
}
use fp_insis.Pool.Channels.{Free}
use fp_insis.System.Apart.{held}
use fp_insis.System.Running.{lent_all}
use fp_insis.System.Reach.{start, later, Reached-runs}
use fp_insis.Worker.{
  WorkerState, new_worker_state, WorkerEvent, start_worker, stop_worker, stop_case, tick_case,
  tick_round, wait_returns, crashes, misuses, goes, worker_step, run_worker,
}
use fp_insis.Worker.Balance.{FromOutside, IsDrained, run_worker-IsBalanced}
use fp_insis.Examples.Fixtures.{
  exact, exact_fits, whole_floats, plain_env, empty_lobby, empty_lobby-IsSafe,
}

abbrev ann_joins : Action
ann_joins =
    connects (pos 5) true
      (some (join_message (record { player_id = "ann"; display_name = "Ann"; mmr = pos 1010 })))

abbrev with_ann : System
with_ann = elim (system_step exact whole_floats ann_joins new_system) [
  | stepped s ↦ s
  | _ ↦ new_system
]

ann_joined : system_step exact whole_floats ann_joins new_system ≡ stepped with_ann
unfolding system_step enter check_join enqueue get put make_chan add_player
ann_joined = refl

Reached-runs_example :
    IsSafe with_ann.engine.lobby
    × ((ch : ℕ) → held (lent_all with_ann.coords) ch ≡ true → Free with_ann.engine.lobby ch)
    × (system_step exact whole_floats (stream_acts 0 (pos 6) true ticker_case) with_ann ≢ crashed)
    × (system_step exact whole_floats (stream_acts 0 (pos 6) true ticker_case) with_ann ≢ stuck)
Reached-runs_example =
    Reached-runs exact exact_fits whole_floats with_ann (stream_acts 0 (pos 6) true ticker_case)
      (later new_system with_ann ann_joins start ann_joined)

abbrev desk : Desk
desk = record { lobby = empty_lobby; drawn = [] }

abbrev calls : List Call
calls =
    enqueue_call (pos 5) "ann" "Ann" (pos 1010)
    ∷ enqueue_call (pos 6) "ann" "Ann" (pos 1010)
    ∷ draw_call plain_env
    ∷ put_back_drawn 0
    ∷ count_call
    ∷ ask_call "ann"
    ∷ dequeue_call "ann"
    ∷ []

perform_all-Follows_example :
    (d : Desk) × (es : List Event) × (perform_all exact whole_floats calls desk ≡ some (d, es))
    × IsTended d
    × Follows (view new_pool) es (view d.lobby.pool)
perform_all-Follows_example =
    perform_all-Follows exact exact_fits whole_floats calls desk
      (record { safe = empty_lobby-IsSafe; aside = tt })

empty_Unmade : Unmade new_system.engine.bools
unfolding get
empty_Unmade n le = refl

abbrev round : Round
round = record { env = plain_env; session_id = "s1"; now = pos 60 }

abbrev worker_events : List WorkerEvent
worker_events = start_worker ∷ tick_case ∷ tick_round round ∷ stop_worker ∷ stop_case ∷ []

abbrev stopped : WorkerState
stopped = elim (run_worker whole_floats worker_events (new_worker_state new_system.engine)) [
  | goes s ↦ s
  | _ ↦ new_worker_state new_system.engine
]

worker_stopped :
    run_worker whole_floats worker_events (new_worker_state new_system.engine) ≡ goes stopped
unfolding run_worker worker_step draw extract_match find_best
worker_stopped = refl

run_worker-IsBalanced_example :
    (stopped.wg ≡ stopped.workers + stopped.ticking + stopped.coordinators)
    × ((ev : WorkerEvent) → worker_step whole_floats ev stopped ≢ crashes)
    × ((s' : WorkerState)
        → worker_step whole_floats wait_returns stopped ≡ goes s'
        → (stopped.workers ≡ 0) × (stopped.ticking ≡ 0) × (stopped.coordinators ≡ 0))
    × ((ev : WorkerEvent)
        → worker_step whole_floats ev stopped ≡ misuses
        → FromOutside ev × IsDrained stopped)
run_worker-IsBalanced_example =
    run_worker-IsBalanced whole_floats new_system.engine worker_events stopped empty_lobby-IsSafe
      empty_Unmade worker_stopped
