-- ===== src/Client.antt =====
-- client/main.go: a simulated player and the run of fifty. rand.Intn, fmt.Sprintf, the network and
-- int32(d.Seconds()) are inputs. A response that is there may lack the assignment: reading its session
-- id then panics. The counters are atomic, so what a run adds to them is the sum over its players.
pub mod Requests
pub mod Counts
pub mod Answers
use fp_insis.Prelude.{
  ℕ, ◌+◌, ◌*◌, Bool, Option, none, some, List, [], ◌∷◌, ◌++◌, String, get_elem?, if◌then◌else◌,
  ◌==◌, string_eq, ℤ, pos, wrap32, length,
}
use fp_insis.Runtime.{unix_milli}
use fp_insis.Status.{Reply, ok, fail}
use fp_insis.Pb.{
  PlayerInfo, Action, GatewayRequest, GatewayResponse, QueueStatus, in_game, cancelled, ready_check,
  MatchAssignment, join_queue, heartbeat, accept_match, SubmitResultRequest, SubmitResultResponse,
}

-- What a player adds to the counters `matched`, `failed` and `results`.
pub record Tally : Type 0 where
  pub matched : ℕ
  pub failed : ℕ
  pub results : ℕ

abbrev pub no_tally : Tally
no_tally = record { matched = 0; failed = 0; results = 0 }

abbrev pub add_tally : Tally → Tally → Tally
add_tally a b = record {
  matched = a.matched + b.matched;
  failed = a.failed + b.failed;
  results = a.results + b.results;
}

abbrev pub add_failed : Tally → Tally
add_failed t = record t { failed = t.failed + 1 }

-- A Recv: an error (or io.EOF), or a response. `sends` is whether a Send in answer to it works.
pub data Incoming : Type 0 where
  recv_failed : Incoming
  received : GatewayResponse → (sends : Bool) → Incoming

-- How the read loop ends: by a break, with the session id; by a return; by a nil dereference; or it
-- waits for more. The first two carry the requests that were sent.
pub data Reading : Type 0 where
  left_loop : String → Tally → List GatewayRequest → Reading
  gave_up : Tally → List GatewayRequest → Reading
  nil_panic still_reading : Reading

abbrev pub request : Action → GatewayRequest
request a = record { action = some a }

abbrev pub accept_request : String → GatewayRequest
accept_request id = request (accept_match (record { player_id = id }))

-- The switch over one response. `go_on` takes the session id and the counters to what follows.
unfoldable pub on_response :
    QueueStatus
    → Option MatchAssignment
    → String
    → Bool
    → String
    → Tally
    → (String → Tally → List GatewayRequest → Reading)
    → Reading
on_response ready_check none id sends sid t go_on = nil_panic
on_response ready_check (some a) id sends sid t go_on =
    if sends then go_on sid t (accept_request id ∷ []) else gave_up (add_failed t) []
on_response in_game none id sends sid t go_on = nil_panic
on_response in_game (some a) id sends sid t go_on =
    go_on a.session_id (record t { matched = t.matched + 1 }) []
on_response cancelled assignment id sends sid t go_on = gave_up (add_failed t) []
on_response _ assignment id sends sid t go_on = go_on sid t []

abbrev pub with_sent : List GatewayRequest → Reading → Reading
with_sent before (left_loop sid t sent) = left_loop sid t (before ++ sent)
with_sent before (gave_up t sent) = gave_up t (before ++ sent)
with_sent before nil_panic = nil_panic
with_sent before still_reading = still_reading

-- The loop that reads the responses, up to the first session id.
unfoldable pub read_responses : String → List Incoming → String → Tally → Reading
read_responses id [] sid t = still_reading
read_responses id (recv_failed ∷ rest) sid t = left_loop sid t []
read_responses id (received resp sends ∷ rest) sid t =
    on_response resp.status resp.assignment id sends sid t (λ sid' t' sent.
      let more = with_sent sent (read_responses id rest sid' t') in
      if sid' == "" then more else left_loop sid' t' sent)

-- A round of the heartbeat goroutine: the context is done, or the ticker fires at a time and the
-- Send works or not.
pub data Beat : Type 0 where
  context_done : Beat
  ticks : ℤ → (sends : Bool) → Beat

-- The heartbeats that are sent, and whether the goroutine has ended.
unfoldable pub send_heartbeats : List Beat → List GatewayRequest × Bool
send_heartbeats [] = ([], Bool.false)
send_heartbeats (context_done ∷ rest) = ([], Bool.true)
send_heartbeats (ticks now sends ∷ rest) =
    let (sent, ended) = send_heartbeats rest in
    if sends
    then (request (heartbeat (record { client_timestamp_ms = unix_milli now })) ∷ sent, ended)
    else ([], Bool.true)

-- The draws of rand.Intn: for the rating, the duration, the result and the score.
pub record Draws : Type 0 where
  pub rating : ℕ
  pub duration : ℕ
  pub result : ℕ
  pub score : ℕ

-- A player's surroundings: the two formatted names, the draws, whether the dial, the stream and the
-- first Send work, what Recv gives, the rounds of the heartbeat goroutine until cancel() stops it, whose
-- Send comes next where both goroutines have one to make (`true` for the read loop), and the tracker's
-- reply.
pub record Surroundings : Type 0 where
  pub player_id : String
  pub display_name : String
  pub draws : Draws
  pub dials : Bool
  pub opens : Bool
  pub joins : Bool
  pub incoming : List Incoming
  pub beats : List Beat
  pub turns : List Bool
  pub tracker : SubmitResultRequest → Reply SubmitResultResponse

-- What two goroutines send on one stream, in the order of the turns.
unfoldable pub interleave :
    List Bool → List GatewayRequest → List GatewayRequest → List GatewayRequest
interleave [] xs ys = xs ++ ys
interleave (b ∷ bs) [] ys = ys
interleave (b ∷ bs) (x ∷ xs) [] = x ∷ xs
interleave (Bool.true ∷ bs) (x ∷ xs) (y ∷ ys) = x ∷ interleave bs xs (y ∷ ys)
interleave (Bool.false ∷ bs) (x ∷ xs) (y ∷ ys) = y ∷ interleave bs (x ∷ xs) ys

abbrev pub join_player : Surroundings → PlayerInfo
join_player w = record {
  player_id = w.player_id;
  display_name = w.display_name;
  mmr = wrap32 (pos (1000 + w.draws.rating));
}

abbrev pub join_request : Surroundings → GatewayRequest
join_request w = request (join_queue (record { player = some (join_player w) }))

abbrev pub second : ℕ
second = 1000000000

-- Win, loss and draw.
abbrev pub possible_results : List ℤ
possible_results = pos 1 ∷ pos 2 ∷ pos 3 ∷ []

-- How a player ends: with the counts, the requests sent on the stream and the submission; by a panic;
-- or it still waits for a response.
pub data Simulated : Type 0 where
  finished : Tally → List GatewayRequest → Option SubmitResultRequest → Simulated
  crashed still_waiting : Simulated

abbrev pub on_reply :
    Tally → List GatewayRequest → SubmitResultRequest → Reply SubmitResultResponse → Simulated
on_reply t sent req (fail code) = finished (add_failed t) sent (some req)
on_reply t sent req (ok reply) = finished (record t { results = t.results + 1 }) sent (some req)

abbrev pub on_submission :
    Surroundings → Tally → List GatewayRequest → Option SubmitResultRequest → Simulated
on_submission w t sent none = crashed
on_submission w t sent (some req) = on_reply t sent req (w.tracker req)

abbrev pub add_simulated : Simulated → Option Tally → Option Tally
add_simulated (finished t sent submitted) (some total) = some (add_tally t total)
add_simulated _ _ = none

-- All that is sent on the stream: the join, and then what the read loop and the heartbeat goroutine
-- send.
abbrev pub on_stream : Surroundings → List GatewayRequest → List GatewayRequest
on_stream w sent = join_request w ∷ interleave w.turns sent (send_heartbeats w.beats).0

module _ (whole_seconds : ℕ → ℤ) where
  abbrev pub submit_request : Surroundings → String → ℤ → SubmitResultRequest
  submit_request w sid chosen = record {
    session_id = sid;
    player_id = w.player_id;
    result = chosen;
    score = wrap32 (pos w.draws.score);
    duration_s = whole_seconds ((1 + w.draws.duration) * second);
  }

  -- The request for a session: an index out of range panics.
  unfoldable pub submission : Surroundings → String → Option SubmitResultRequest
  submission w sid = elim (get_elem? possible_results w.draws.result) [
    | none ↦ none
    | some chosen ↦ some (submit_request w sid chosen)
  ]

  -- What follows the read loop.
  abbrev pub after_reading : Surroundings → Reading → Simulated
  after_reading w (left_loop sid t sent) =
      let requests = on_stream w sent in
      if sid == ""
      then finished (add_failed t) requests none
      else on_submission w t requests (submission w sid)
  after_reading w (gave_up t sent) = finished t (on_stream w sent) none
  after_reading w nil_panic = crashed
  after_reading w still_reading = still_waiting

  unfoldable pub simulate_player : Surroundings → Simulated
  simulate_player w =
      let failure = finished (add_failed no_tally) [] none in
      if w.dials
      then (if w.opens
          then (if w.joins
              then after_reading w (read_responses w.player_id w.incoming "" no_tally)
              else failure)
          else failure)
      else failure

  -- The counters after wg.Wait: `none` where a player panics, which ends the process, or waits.
  unfoldable pub simulate_all : List Surroundings → Option Tally
  simulate_all [] = some no_tally
  simulate_all (w ∷ ws) = add_simulated (simulate_player w) (simulate_all ws)
