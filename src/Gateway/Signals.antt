-- ===== src/Gateway/Signals.antt =====
-- What a client's messages do when the handler of internal/services/gateway.go is not waiting for them.
use fp_insis.Prelude.{◌≡◌, refl, ap, ◌∙◌, true, false, some, nat_eq, string_eq, ℤ}
use fp_insis.Chan.{Chans, taken, recv, is_open, try_send_open}
use fp_insis.Pool.{MatchEvent}
use fp_insis.Pool.Queueing.{IsSafe, dequeue_lem}
use fp_insis.Pb.{
  AcceptMatchAction, CancelQueueAction, accept_match, cancel_queue, cancelled, ready_check,
}
use fp_insis.Status.{fail, aborted, canceled}
use fp_insis.Gateway.{Phase, searching, ready_checking, awaiting, returned, Stream, World, notice}
use fp_insis.Gateway.Loop.{
  add_sent, told, next, answer, on_match, read_message, search_step, ready_step, phase_step,
  stream_step, match_case, cancel_case, client_done_case, accept_case, client_sends,
}
use fp_insis.Gateway.ReadyCheck.{leave_keeps}

-- An AcceptMatch that comes while the handler still searches is kept: it accepts the next match, when
-- the event of one is there and its response channel is open, without another from the client.
pub early_accept :
    (now : ℤ) (msg : AcceptMatchAction) (w : World) (s : Stream) (evt : MatchEvent)
    (g : Chans MatchEvent)
    → s.phase ≡ searching
    → s.client_done ≡ false
    → recv s.qp.match_ch w.lobby.chans ≡ taken evt g
    → is_open evt.response_ch w.bools ≡ true
    → (s1 : Stream) × (w2 : World) × (s2 : Stream) × (w3 : World) × (s3 : Stream) × (stream_step now
          true
          (client_sends (record { action = some (accept_match msg) }))
          w
          s
        ≡ next w s1)
      × (stream_step now true match_case w s1 ≡ next w2 s2)
      × (stream_step now true accept_case w2 s2 ≡ next w3 s3)
      × (s2.phase ≡ ready_checking evt)
      × (s3.phase ≡ awaiting evt)
unfolding stream_step phase_step search_step ready_step read_message on_match answer
early_accept now msg w s evt g p open_stream found o =
    let s1 = record s { accept_req = true } in
    let w2 = record w { lobby = record w.lobby { chans = g } } in
    let s2 =
      record (add_sent (told ready_check "Match found! Accept within 10 seconds." now evt) s1) {
        phase = ready_checking evt;
      } in
    let (h, b, e, x) = try_send_open evt.response_ch true w.bools o in
    (
      s1,
      w2,
      s2,
      record w2 { bools = h },
      record s2 { accept_req = false; phase = awaiting evt },
      rw open_stream refl,
      ap (λ (ph : Phase). phase_step ph now true match_case w s1) p ∙ rw (found, on_match) refl,
      rw (e, answer) refl,
      refl,
      refl,
    )

-- After a CancelQueue is read while the handler searches, two cases of its select are ready: one
-- returns Canceled, the other Aborted.
pub cancel_race :
    (now : ℤ) (msg : CancelQueueAction) (w : World) (s : Stream)
    → IsSafe w.lobby
    → s.phase ≡ searching
    → s.client_done ≡ false
    → (s1 : Stream) × (w2 : World) × (s2 : Stream) × (w3 : World) × (s3 : Stream) × (stream_step now
          true
          (client_sends (record { action = some (cancel_queue msg) }))
          w
          s
        ≡ next w s1)
      × (stream_step now true cancel_case w s1 ≡ next w2 s2)
      × (s2.phase ≡ returned (fail canceled))
      × (stream_step now true client_done_case w s1 ≡ next w3 s3)
      × (s3.phase ≡ returned (fail aborted))
unfolding stream_step phase_step search_step read_message
cancel_race now msg w s safe p open_stream =
    let s1 = record s { cancel_req = true; client_done = true } in
    let s2 =
      add_sent (notice cancelled "Queue cancelled by player." now)
        (record s1 { cancel_req = false }) in
    let (l', d, safe', _) = dequeue_lem s.qp.player_id w.lobby safe in
    let (w2, e2, _, _) = leave_keeps (fail canceled) (record w { lobby = l' }) s2 safe' in
    let (w3, e3, _, _) = leave_keeps (fail aborted) w s1 safe in
    (
      s1,
      w2,
      record s2 { phase = returned (fail canceled) },
      w3,
      record s1 { phase = returned (fail aborted) },
      rw open_stream refl,
      ap (λ (ph : Phase). phase_step ph now true cancel_case w s1) p ∙ rw (d, search_step) e2,
      refl,
      ap (λ (ph : Phase). phase_step ph now true client_done_case w s1) p ∙ e3,
      refl,
    )
