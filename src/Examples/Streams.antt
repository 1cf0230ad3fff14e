-- ===== src/Examples/Streams.antt =====
-- One stream, from its first message to its end, and the interceptors around it.
use fp_insis.Prelude.{
  ℕ, ◌≤◌, ◌≡◌, ◌↔◌, refl, true, false, none, some, take, drop, ◌<◌, [], ◌∷◌, ◌++◌, arith, length,
  ltb, if◌then◌else◌, string_eq, nat_eq, pos, get, put, All,
}
use fp_insis.Chan.{Chans, taken, recv, is_open, try_send, make_chan}
use fp_insis.Pool.{QueuedPlayer, MatchEvent, Lobby, new_pool}
use fp_insis.Pool.Queueing.{IsSafe}
use fp_insis.Pb.{PlayerInfo, accept_match, cancel_queue}
use fp_insis.Status.{ok, fail, aborted, canceled, resource_exhausted}
use fp_insis.Coordinator.Verdict.{fresh_chan, told_chan}
use fp_insis.Gateway.{
  Phase, searching, ready_checking, awaiting, returned, Stream, World, check_join, enter,
}
use fp_insis.Gateway.Entry.{join_message, IsAdmissible, check_join_iff, EnterOutcome, enter_lem}
use fp_insis.Gateway.Loop.{
  Next, next, answer, on_match, search_step, phase_step, ready_step, stream_step, match_case,
  cancel_case, client_done_case, accept_case, verdict_read, client_sends,
}
use fp_insis.Gateway.Cleanup.{IsSound, Outcome}
use fp_insis.Client.Counts.{IsAssigned}
use fp_insis.Client.Answers.{stream_step-IsAssigned}
use fp_insis.Gateway.Steps.{stream_step_lem}
use fp_insis.Gateway.ReadyCheck.{accepts, answered_chan, ready_answers, verdict_delivered}
use fp_insis.Gateway.Signals.{early_accept, cancel_race}
use fp_insis.Interceptor.{
  finishes, panics, unary_chain, stream_opens, stream_ends, Guard, new_guard, acquire, comes, goes,
  run_guard,
}
use fp_insis.Interceptor.Logging.{reply_of, unary_logs, stream_logs, rejected_logs, chains_lem}
use fp_insis.Interceptor.Slots.{guard_bounded}
use fp_insis.Examples.Fixtures.{exact, exact_fits, empty_lobby-IsSafe}

abbrev evt : MatchEvent
evt = record {
  session_id = "s1";
  player_ids = "ann" ∷ [];
  created_at = pos 9;
  response_ch = 0;
  result_ch = 1;
}

abbrev ann_info : PlayerInfo
ann_info = record { player_id = "ann"; display_name = "Ann"; mmr = pos 1010 }

abbrev ann_queued : QueuedPlayer
ann_queued = record {
  player_id = "ann";
  display_name = "Ann";
  mmr = pos 1010;
  enqueued_at = pos 5;
  match_ch = 0;
}

-- A lobby without players, in which Ann's channel holds the event.
abbrev told_lobby : Lobby
told_lobby = record {
  pool = new_pool;
  chans = record {
    next = 1;
    cells = (0, record { buffer = evt ∷ []; capacity = 1; closed = false }) ∷ [];
  };
}

abbrev world : World
world = record {
  lobby = told_lobby;
  bools = record { next = 2; cells = (0, fresh_chan) ∷ (1, told_chan false) ∷ [] };
}

told_lobby-IsSafe : IsSafe told_lobby
unfolding get
told_lobby-IsSafe = record {
  valid = empty_lobby-IsSafe.valid;
  open_chs = λ id q e. absurd (cc);
  apart = λ i j q r ei ej same. absurd (cc);
  unmade = λ n le. ground arith;
}

abbrev at : Phase → Stream
at p = record {
  qp = ann_queued;
  phase = p;
  accept_req = true;
  cancel_req = false;
  client_done = false;
  sent = [];
}

check_join_iff_example :
    (check_join (some (join_message ann_info)) ≡ some ann_info)
    ↔ (some (join_message ann_info) ≡ some (join_message ann_info)) × IsAdmissible ann_info
check_join_iff_example = check_join_iff (some (join_message ann_info)) ann_info

enter_lem_example :
    EnterOutcome world
      (check_join (some (join_message ann_info)))
      true
      (enter exact (pos 5) true (some (join_message ann_info)) world)
enter_lem_example =
    enter_lem exact exact_fits (pos 5) true (some (join_message ann_info)) world told_lobby-IsSafe

searching-IsSound : IsSound world (at searching)
unfolding get
searching-IsSound = record { safe = told_lobby-IsSafe; waiting = (refl, tt); current = tt }

stream_step_lem_example :
    Outcome world (at searching) (stream_step (pos 9) true match_case world (at searching))
stream_step_lem_example =
    stream_step_lem (pos 9) true match_case world (at searching) searching-IsSound

abbrev after_accept : Next
after_accept = ready_step (pos 9) true accept_case evt world (at (ready_checking evt))

abbrev world_after : World
world_after = elim after_accept [ next w s ↦ w | _ ↦ world ]

abbrev stream_after : Stream
stream_after = elim after_accept [ next w s ↦ s | _ ↦ at searching ]

accept_runs : after_accept ≡ next world_after stream_after
unfolding ready_step answer try_send get put
accept_runs = refl

response_fresh : get evt.response_ch world.bools.cells ≡ some fresh_chan
unfolding get
response_fresh = refl

ready_answers_example :
    (get evt.response_ch world_after.bools.cells ≡ some (answered_chan (accepts accept_case)))
    × (stream_after.phase ≡ (if accepts accept_case then awaiting evt else returned (fail aborted)))
ready_answers_example =
    ready_answers (pos 9) true accept_case evt world world_after (at (ready_checking evt))
      stream_after told_lobby-IsSafe response_fresh accept_runs

result_told : get evt.result_ch world.bools.cells ≡ some (told_chan false)
unfolding get
result_told = refl

verdict_delivered_example :
    (w' : World) × (s' : Stream) × (stream_step (pos 9) true verdict_read world (at (awaiting evt))
      ≡ next w' s')
    × (s'.phase ≡ (if false then returned (ok tt) else searching))
    × (s'.accept_req ≡ (at (awaiting evt)).accept_req)
verdict_delivered_example =
    verdict_delivered (pos 9) evt false world (at (awaiting evt)) told_lobby-IsSafe refl result_told

abbrev drained_chans : Chans MatchEvent
drained_chans = record {
  next = 1;
  cells = (0, record { buffer = []; capacity = 1; closed = false }) ∷ [];
}

evt_found : recv 0 told_lobby.chans ≡ taken evt drained_chans
unfolding recv get put
evt_found = refl

response_open : is_open 0 world.bools ≡ true
unfolding get
response_open = refl

early_accept_example :
    (s1 : Stream) × (w2 : World) × (s2 : Stream) × (w3 : World) × (s3 : Stream) × (stream_step
        (pos 9)
        true
        (client_sends (record { action = some (accept_match (record { player_id = "ann" })) }))
        world
        (at searching)
      ≡ next world s1)
    × (stream_step (pos 9) true match_case world s1 ≡ next w2 s2)
    × (stream_step (pos 9) true accept_case w2 s2 ≡ next w3 s3)
    × (s2.phase ≡ ready_checking evt)
    × (s3.phase ≡ awaiting evt)
early_accept_example =
    early_accept (pos 9) (record { player_id = "ann" }) world (at searching) evt drained_chans refl
      refl evt_found response_open

cancel_race_example :
    (s1 : Stream) × (w2 : World) × (s2 : Stream) × (w3 : World) × (s3 : Stream) × (stream_step
        (pos 9)
        true
        (client_sends
          (record { action = some (cancel_queue (record { player_id = "ann"; reason = "" })) }))
        world
        (at searching)
      ≡ next world s1)
    × (stream_step (pos 9) true cancel_case world s1 ≡ next w2 s2)
    × (s2.phase ≡ returned (fail canceled))
    × (stream_step (pos 9) true client_done_case world s1 ≡ next w3 s3)
    × (s3.phase ≡ returned (fail aborted))
cancel_race_example =
    cancel_race (pos 9) (record { player_id = "ann"; reason = "" }) world (at searching)
      told_lobby-IsSafe refl refl

abbrev one_stream : Guard
one_stream = elim (run_guard (comes 7 ∷ comes 8 ∷ []) (new_guard 1)) [
  | none ↦ new_guard 1
  | some g ↦ g
]

one_runs : run_guard (comes 7 ∷ comes 8 ∷ []) (new_guard 1) ≡ some one_stream
unfolding run_guard new_guard acquire make_chan try_send get put
one_runs = refl

one_running : 0 < length one_stream.running
unfolding run_guard new_guard acquire make_chan try_send get put
one_running = omega arith

chains_lem_example :
    (unary_chain {A = ℕ} panics ≡ (finishes (reply_of panics), unary_logs {A = ℕ} panics))
    × ((g1 : Guard) × (stream_opens {A = ℕ} 9 one_stream
          ≡ some (
            g1,
            if ltb (length one_stream.running) 1
                then none
                else some (finishes (fail resource_exhausted), rejected_logs),
          ))
        × (g1.running ≡ (
            if ltb (length one_stream.running) 1
            then 9 ∷ one_stream.running
            else one_stream.running)))
    × ((g2 : Guard) × (stream_ends {A = ℕ} 0 panics one_stream
          ≡ some (g2, (finishes (reply_of panics), stream_logs {A = ℕ} panics)))
        × (g2.running ≡ take 0 one_stream.running ++ drop 1 one_stream.running))
chains_lem_example =
    chains_lem {A = ℕ} 1 (comes 7 ∷ comes 8 ∷ []) one_stream 9 0 panics one_runs one_running

guard_bounded_example :
    (g : Guard) × (run_guard (comes 7 ∷ comes 8 ∷ goes 0 ∷ []) (new_guard 1) ≡ some g)
    × (length g.running ≤ 1)
    × (g' : Guard) × (acquire 9 g
        ≡ some (g', if ltb (length g.running) 1 then ok tt else fail resource_exhausted))
guard_bounded_example = guard_bounded 1 (comes 7 ∷ comes 8 ∷ goes 0 ∷ []) 9

abbrev after_match : Next
after_match = stream_step (pos 9) true match_case world (at searching)

abbrev world_matched : World
world_matched = elim after_match [ next w s ↦ w | _ ↦ world ]

abbrev stream_matched : Stream
stream_matched = elim after_match [ next w s ↦ s | _ ↦ at searching ]

match_runs : after_match ≡ next world_matched stream_matched
unfolding stream_step phase_step search_step on_match recv get put
match_runs = refl

stream_step-IsAssigned_example : All IsAssigned stream_matched.sent
stream_step-IsAssigned_example =
    stream_step-IsAssigned (pos 9) true match_case world world_matched (at searching) stream_matched
      tt match_runs
