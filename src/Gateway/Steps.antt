-- ===== src/Gateway/Steps.antt =====
-- Every step of a stream: nothing panics, the lobby stays in good order, and the player is out of the
-- pool whenever the handler returns.
use fp_insis.Prelude.{
  ◌≡◌, refl, ap, sym, inl, inr, Bool, true, false, none, String, arith, if◌then◌else◌, ◌==◌,
  string_eq, ℤ, get, Option-cases,
}
use text.Mathlib.TextEquality.{eq_iff}
use fp_insis.Chan.{recv_cases}
use fp_insis.Pool.{MatchEvent, QueuedPlayer, Lobby}
use fp_insis.Pool.Queueing.{IsSafe, dequeue_lem}
use fp_insis.Pb.{GatewayRequest, get_heartbeat, get_cancel_queue, get_accept_match}
use fp_insis.Status.{Reply}
use fp_insis.Gateway.{Phase, searching, ready_checking, awaiting, returned, Stream, World}
use fp_insis.Gateway.Loop.{
  Event, next, leave, on_verdict, read_message, search_step, ready_step, await_step, phase_step,
  stream_step, match_case, ticker_case, cancel_case, client_done_case, context_case, accept_case,
  timer_case, verdict_read, client_ends, client_sends,
}
use fp_insis.Gateway.Cleanup.{
  has_returned, IsSound, Outcome, stays, goes, leaves, leave_lem, still-Answerable, sent_qp, either,
  on_match_lem, answer_lem,
}

on_verdict_lem :
    (now : ℤ) (sends : Bool) (evt : MatchEvent) (w : World) (s : Stream)
    → IsSound w s
    → s.phase ≡ awaiting evt
    → Outcome w s (on_verdict now sends evt w s)
unfolding on_verdict
on_verdict_lem now sends evt w s k p = elim (recv_cases evt.result_ch w.bools) [
  | inl e ↦ rw (e, on_verdict) stays
  | inr (inl e) ↦
      rw (e, on_verdict)
        (goes _ _
          (record { safe = k.safe; waiting = rw (sent_qp sends _ s) k.waiting; current = tt })
          (sent_qp sends _ s) (ap has_returned (sym p)) (λ j. refl))
  | inr (inr (result, g, e, x, b)) ↦
      rw (e, on_verdict)
        (either result w s _ _
          (either sends w s _ _ (leave_lem _ w _ s _ k.safe refl (λ j. refl))
            (leave_lem _ w _ s _ k.safe refl (λ j. refl)))
          (goes _ _
            (record {
              safe = k.safe;
              waiting = rw (sent_qp sends _ s) (still-Answerable w.bools g _ x k.waiting);
              current = tt;
            })
            (sent_qp sends _ s) (ap has_returned (sym p)) (λ j. refl)))
]

-- Dequeue twice, by the cancel and by the return.
twice_lem :
    (r : Reply (Unit {0})) (w : World) (l : Lobby) (s s' : Stream)
    → IsSafe l
    → s'.qp ≡ s.qp
    → ((j : String)
        → get j l.pool.players ≡ (if s.qp.player_id == j then none else get j w.lobby.pool.players))
    → Outcome w s (leave r (record w { lobby = l }) s')
unfolding leave
twice_lem r w l s s' safe same g =
    let (l2, d, safe2, g2) = dequeue_lem s'.qp.player_id l safe in
    let ids : s'.qp.player_id ≡ s.qp.player_id = ap (λ (q : QueuedPlayer). q.player_id) same in
    rw (d, leave)
      (leaves _ _ safe2 same refl
        (λ j. ground (arith, g j, g2 j, eq_iff s.qp.player_id j, eq_iff s'.qp.player_id j, ids)))

cancel_lem :
    (now : ℤ) (sends : Bool) (w : World) (s : Stream)
    → IsSound w s
    → Outcome w s (search_step now sends cancel_case w s)
unfolding search_step
cancel_lem now sends w s k =
    let (l', d, safe', g) = dequeue_lem s.qp.player_id w.lobby k.safe in
    rw (d, search_step)
      (either s.cancel_req w s _ _ (twice_lem _ w l' s _ safe' (sent_qp sends _ _) g) stays)

search_step_lem :
    (now : ℤ) (sends : Bool) (ev : Event) (w : World) (s : Stream)
    → IsSound w s
    → s.phase ≡ searching
    → Outcome w s (search_step now sends ev w s)
unfolding search_step
search_step_lem now sends match_case w s k p = on_match_lem now sends w s k p
search_step_lem now sends ticker_case w s k p =
    either sends w s _ _
      (goes _ _ (record { safe = k.safe; waiting = k.waiting; current = k.current }) refl refl
        (λ j. refl))
      (leave_lem _ w w s s k.safe refl (λ j. refl))
search_step_lem now sends cancel_case w s k p = cancel_lem now sends w s k
search_step_lem now sends client_done_case w s k p =
    either s.client_done w s _ _ (leave_lem _ w w s s k.safe refl (λ j. refl)) stays
search_step_lem now sends context_case w s k p = leave_lem _ w w s s k.safe refl (λ j. refl)
search_step_lem now sends _ w s k p = stays

ready_step_lem :
    (now : ℤ) (sends : Bool) (ev : Event) (evt : MatchEvent) (w : World) (s : Stream)
    → IsSound w s
    → s.phase ≡ ready_checking evt
    → Outcome w s (ready_step now sends ev evt w s)
unfolding ready_step
ready_step_lem now sends accept_case evt w s k p =
    either s.accept_req w s _ _ (answer_lem now sends true evt w s _ k p refl) stays
ready_step_lem now sends timer_case evt w s k p = answer_lem now sends false evt w s s k p refl
ready_step_lem now sends client_done_case evt w s k p =
    either s.client_done w s _ _ (answer_lem now sends false evt w s s k p refl) stays
ready_step_lem now sends context_case evt w s k p = answer_lem now sends false evt w s s k p refl
ready_step_lem now sends _ evt w s k p = stays

await_step_lem :
    (now : ℤ) (sends : Bool) (ev : Event) (evt : MatchEvent) (w : World) (s : Stream)
    → IsSound w s
    → s.phase ≡ awaiting evt
    → Outcome w s (await_step now sends ev evt w s)
unfolding await_step
await_step_lem now sends verdict_read evt w s k p = on_verdict_lem now sends evt w s k p
await_step_lem now sends _ evt w s k p = stays

phase_step_lem :
    (p : Phase) (now : ℤ) (sends : Bool) (ev : Event) (w : World) (s : Stream)
    → IsSound w s
    → s.phase ≡ p
    → Outcome w s (phase_step p now sends ev w s)
unfolding phase_step
phase_step_lem searching now sends ev w s k e = search_step_lem now sends ev w s k e
phase_step_lem (ready_checking evt) now sends ev w s k e = ready_step_lem now sends ev evt w s k e
phase_step_lem (awaiting evt) now sends ev w s k e = await_step_lem now sends ev evt w s k e
phase_step_lem (returned r) now sends ev w s k e = stays

-- Reading a message leaves the player, the phase and what was sent as they were.
pub read_message_keeps :
    (msg : GatewayRequest) (s : Stream)
    → ((read_message msg s).qp ≡ s.qp)
      × ((read_message msg s).phase ≡ s.phase)
      × ((read_message msg s).sent ≡ s.sent)
unfolding read_message
read_message_keeps msg s = elim (Option-cases (get_heartbeat msg)) [
  | inr (h, e) ↦ rw (e, read_message) (refl, refl, refl)
  | inl e ↦ elim (Option-cases (get_cancel_queue msg)) [
    | inr (c, f) ↦ rw (e, f, read_message) (refl, refl, refl)
    | inl f ↦ elim (Option-cases (get_accept_match msg)) [
      | inr (a, g) ↦ rw (e, f, g, read_message) (refl, refl, refl)
      | inl g ↦ rw (e, f, g, read_message) (refl, refl, refl)
    ]
  ]
]

reads :
    (w : World) (s s' : Stream)
    → IsSound w s
    → (s'.qp ≡ s.qp) × (s'.phase ≡ s.phase)
    → Outcome w s (next w s')
reads w s s' k (q, p) =
    goes w s' (record { safe = k.safe; waiting = rw q k.waiting; current = rw p k.current }) q
      (ap has_returned p) (λ j. refl)

-- In a sound state a step of the handler or of its reader never panics. If the handler does not
-- return, the state is sound again and the pool has the same players. If it returns, by whatever
-- way, the lobby is in good order and the player is out of the pool, and nobody else.
pub stream_step_lem :
    (now : ℤ) (sends : Bool) (ev : Event) (w : World) (s : Stream)
    → IsSound w s
    → Outcome w s (stream_step now sends ev w s)
unfolding stream_step
stream_step_lem now sends (client_sends msg) w s k =
    either s.client_done w s _ _ stays
      (let (q, p, _) = read_message_keeps msg s in reads w s (read_message msg s) k (q, p))
stream_step_lem now sends client_ends w s k =
    either s.client_done w s _ _ stays (reads w s _ k (refl, refl))
stream_step_lem now sends ev w s k = phase_step_lem s.phase now sends ev w s k refl
