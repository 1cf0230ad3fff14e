-- ===== src/Gateway/Loop.antt =====
-- The loop of EnterMatchmaking in internal/services/gateway.go and its reader goroutine, as steps on
-- the stream. Where several cases of a select are ready, Go picks any: the event says which.
use fp_insis.Prelude.{
  Bool, true, false, none, some, [], ◌∷◌, ◌++◌, String, if◌then◌else◌, ℤ, pos, wrap32,
}
use fp_insis.Chan.{blocks, drained, taken, recv, try_send}
use fp_insis.Pool.{MatchEvent, size, dequeue}
use fp_insis.Pb.{
  GatewayRequest, GatewayResponse, QueueStatus, waiting, in_game, cancelled, ready_check,
  get_heartbeat, get_cancel_queue, get_accept_match,
}
use fp_insis.Status.{Reply, ok, fail, canceled, deadline_exceeded, aborted, internal, unavailable}
use fp_insis.Runtime.{unix_milli}
use fp_insis.Gateway.{Phase, searching, ready_checking, awaiting, returned, Stream, World, notice}

-- What happens next: a case of a select that is taken, the verdict that is read, or what the client
-- sends. With it come the clock and whether the Send of the case works.
pub data Event : Type 0 where
  match_case ticker_case cancel_case client_done_case context_case : Event
  accept_case timer_case verdict_read client_ends : Event
  client_sends : GatewayRequest → Event

-- `blocked` for a case that is not ready.
pub data Next : Type 0 where
  blocked panicked : Next
  next : World → Stream → Next

abbrev pub add_sent : GatewayResponse → Stream → Stream
add_sent m s = record s { sent = s.sent ++ m ∷ [] }

-- return: the deferred Dequeue runs.
unfoldable pub leave : Reply (Unit {0}) → World → Stream → Next
leave r w s = elim (dequeue s.qp.player_id w.lobby) [
  | none ↦ panicked
  | some (lobby', _) ↦ next (record w { lobby = lobby' }) (record s { phase = returned r })
]

abbrev pub told : QueueStatus → String → ℤ → MatchEvent → GatewayResponse
told status message now evt = record (notice status message now) {
  assignment = some (record {
    session_id = evt.session_id;
    player_ids = evt.player_ids;
    created_at_ms = unix_milli evt.created_at;
  });
}

-- case evt, ok := <-qp.MatchCh, up to the ready check's select.
unfoldable pub on_match : ℤ → Bool → World → Stream → Next
on_match now sends w s = elim (recv s.qp.match_ch w.lobby.chans) [
  | blocks ↦ blocked
  | drained ↦
      leave (fail aborted) w
        (if sends then add_sent (notice cancelled "Queue cancelled." now) s else s)
  | taken evt chans' ↦
      let w' = record w { lobby = record w.lobby { chans = chans' } } in
      if sends
      then next w'
          (record (add_sent (told ready_check "Match found! Accept within 10 seconds." now evt) s) {
            phase = ready_checking evt;
          })
      else leave (fail internal) w' s
]

-- The code after the ready check's select.
unfoldable pub answer : ℤ → Bool → Bool → MatchEvent → World → Stream → Next
answer now sends accepted evt w s = elim (try_send evt.response_ch accepted w.bools) [
  | none ↦ panicked
  | some (bools', _) ↦
      let w' = record w { bools = bools' } in
      let failed =
        notice cancelled "Ready check failed. Returning to queue or disconnecting." now in
      if accepted
      then next w' (record s { phase = awaiting evt })
      else leave (fail aborted) w' (if sends then add_sent failed s else s)
]

-- result, resultOk := <-evt.ResultCh, and what follows.
unfoldable pub on_verdict : ℤ → Bool → MatchEvent → World → Stream → Next
on_verdict now sends evt w s =
    let again = notice waiting "Another player failed ready check. You have been re-queued." now in
    let s' = record (if sends then add_sent again s else s) { phase = searching } in
    elim (recv evt.result_ch w.bools) [
      | blocks ↦ blocked
      | drained ↦ next w s'
      | taken result bools' ↦
          let w' = record w { bools = bools' } in
          let started = told in_game "All players accepted. Session starting!" now evt in
          if result
          then (if sends
              then leave (ok (tt {0})) w' (add_sent started s)
              else leave (fail internal) w' s)
          else next w' s'
    ]

-- One message in the reader goroutine, which ends on a cancel; its deferred close(clientDone) runs.
unfoldable pub read_message : GatewayRequest → Stream → Stream
read_message msg s = elim (get_heartbeat msg) [
  | some _ ↦ s
  | none ↦ elim (get_cancel_queue msg) [
    | some _ ↦ record s { cancel_req = true; client_done = true }
    | none ↦ elim (get_accept_match msg) [ some _ ↦ record s { accept_req = true } | none ↦ s ]
  ]
]

-- The cases of the handler's select. A case of another select is not ready.
unfoldable pub search_step : ℤ → Bool → Event → World → Stream → Next
search_step now sends match_case w s = on_match now sends w s
search_step now sends ticker_case w s =
    let still = record (notice waiting "Still searching..." now) {
      queue_position = wrap32 (pos (size w.lobby.pool));
    } in
    if sends then next w (add_sent still s) else leave (fail unavailable) w s
search_step now sends cancel_case w s =
    let seen = record s { cancel_req = false } in
    let gone = notice cancelled "Queue cancelled by player." now in
    let s' = if sends then add_sent gone seen else seen in
    let out : Next = elim (dequeue s.qp.player_id w.lobby) [
      | none ↦ panicked
      | some (lobby', _) ↦ leave (fail canceled) (record w { lobby = lobby' }) s'
    ] in
    if s.cancel_req then out else blocked
search_step now sends client_done_case w s =
    if s.client_done then leave (fail aborted) w s else blocked
search_step now sends context_case w s = leave (fail deadline_exceeded) w s
search_step now sends _ w s = blocked

-- The cases of the ready check's select.
unfoldable pub ready_step : ℤ → Bool → Event → MatchEvent → World → Stream → Next
ready_step now sends accept_case evt w s =
    if s.accept_req then answer now sends true evt w (record s { accept_req = false }) else blocked
ready_step now sends timer_case evt w s = answer now sends false evt w s
ready_step now sends client_done_case evt w s =
    if s.client_done then answer now sends false evt w s else blocked
ready_step now sends context_case evt w s = answer now sends false evt w s
ready_step now sends _ evt w s = blocked

-- The receive from evt.ResultCh, which is outside any select.
unfoldable pub await_step : ℤ → Bool → Event → MatchEvent → World → Stream → Next
await_step now sends verdict_read evt w s = on_verdict now sends evt w s
await_step now sends _ evt w s = blocked

unfoldable pub phase_step : Phase → ℤ → Bool → Event → World → Stream → Next
phase_step searching now sends ev w s = search_step now sends ev w s
phase_step (ready_checking evt) now sends ev w s = ready_step now sends ev evt w s
phase_step (awaiting evt) now sends ev w s = await_step now sends ev evt w s
phase_step (returned r) now sends ev w s = blocked

-- One step of the handler or of its reader. After the reader has ended, the client's messages are
-- not read.
unfoldable pub stream_step : ℤ → Bool → Event → World → Stream → Next
stream_step now sends (client_sends msg) w s =
    if s.client_done then blocked else next w (read_message msg s)
stream_step now sends client_ends w s =
    if s.client_done then blocked else next w (record s { client_done = true })
stream_step now sends ev w s = phase_step s.phase now sends ev w s
