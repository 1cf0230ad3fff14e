-- ===== src/Client/Answers.antt =====
-- What a gateway stream sends carries what the client reads of it.
use fp_insis.Prelude.{
  ◌≡◌, subst, sym, Bool, true, false, [], ◌∷◌, All, All-append, if◌then◌else◌, ℤ, Option-cases, inl,
  inr,
}
use fp_insis.Chan.{recv_cases, try_send}
use fp_insis.Pool.{MatchEvent, dequeue}
use fp_insis.Pb.{GatewayRequest, GatewayResponse}
use fp_insis.Status.{Reply}
use fp_insis.Gateway.{Phase, searching, ready_checking, awaiting, returned, Stream, World}
use fp_insis.Gateway.Loop.{
  Event, Next, blocked, panicked, next, add_sent, leave, on_match, answer, on_verdict, read_message,
  search_step, ready_step, await_step, phase_step, stream_step, match_case, ticker_case,
  cancel_case, client_done_case, context_case, accept_case, timer_case, verdict_read, client_ends,
  client_sends,
}
use fp_insis.Gateway.Steps.{read_message_keeps}
use fp_insis.Client.Counts.{IsAssigned}

abbrev Carrying : Stream → Type 0
Carrying s = All IsAssigned s.sent

abbrev NextCarrying : Next → Type 0
NextCarrying blocked = Unit
NextCarrying panicked = Unit
NextCarrying (next w s) = Carrying s

add_sent-Carrying :
    (m : GatewayResponse) (s : Stream) → IsAssigned m → Carrying s → Carrying (add_sent m s)
add_sent-Carrying m s a h = All-append IsAssigned s.sent (m ∷ []) h (a, tt)

sending :
    (sends : Bool) (m : GatewayResponse) (s : Stream)
    → IsAssigned m
    → Carrying s
    → Carrying (if sends then add_sent m s else s)
sending true m s a h = add_sent-Carrying m s a h
sending false m s a h = h

choose :
    (b : Bool) (x y : Next) → NextCarrying x → NextCarrying y → NextCarrying (if b then x else y)
choose true x y hx hy = hx
choose false x y hx hy = hy

leave-Carrying :
    (r : Reply (Unit {0})) (w : World) (s : Stream) → Carrying s → NextCarrying (leave r w s)
unfolding leave
leave-Carrying r w s h = elim (Option-cases (dequeue s.qp.player_id w.lobby)) [
  | inl e ↦ rw (e, leave) tt
  | inr (x, e) ↦ rw (e, leave) h
]

on_match-Carrying :
    (now : ℤ) (sends : Bool) (w : World) (s : Stream)
    → Carrying s
    → NextCarrying (on_match now sends w s)
unfolding on_match
on_match-Carrying now sends w s h = elim (recv_cases s.qp.match_ch w.lobby.chans) [
  | inl e ↦ rw (e, on_match) tt
  | inr (inl e) ↦ rw (e, on_match) (leave-Carrying _ w _ (sending sends _ s tt h))
  | inr (inr (evt, g, e, x, b)) ↦
      rw (e, on_match)
        (choose sends _ _ (add_sent-Carrying _ s (λ p. absurd (cc)) h) (leave-Carrying _ _ s h))
]

answer-Carrying :
    (now : ℤ) (sends accepted : Bool) (evt : MatchEvent) (w : World) (s : Stream)
    → Carrying s
    → NextCarrying (answer now sends accepted evt w s)
unfolding answer
answer-Carrying now sends accepted evt w s h =
    elim (Option-cases (try_send evt.response_ch accepted w.bools)) [
      | inl e ↦ rw (e, answer) tt
      | inr ((g, b), e) ↦
          rw (e, answer) (choose accepted _ _ h (leave-Carrying _ _ _ (sending sends _ s tt h)))
    ]

on_verdict-Carrying :
    (now : ℤ) (sends : Bool) (evt : MatchEvent) (w : World) (s : Stream)
    → Carrying s
    → NextCarrying (on_verdict now sends evt w s)
unfolding on_verdict
on_verdict-Carrying now sends evt w s h = elim (recv_cases evt.result_ch w.bools) [
  | inl e ↦ rw (e, on_verdict) tt
  | inr (inl e) ↦ rw (e, on_verdict) (sending sends _ s tt h)
  | inr (inr (result, g, e, x, b)) ↦
      rw (e, on_verdict)
        (choose result _ _
          (choose sends _ _ (leave-Carrying _ _ _ (add_sent-Carrying _ s (λ p. absurd (cc)) h))
            (leave-Carrying _ _ s h))
          (sending sends _ s tt h))
]

search-Carrying :
    (now : ℤ) (sends : Bool) (ev : Event) (w : World) (s : Stream)
    → Carrying s
    → NextCarrying (search_step now sends ev w s)
unfolding search_step
search-Carrying now sends match_case w s h = on_match-Carrying now sends w s h
search-Carrying now sends ticker_case w s h =
    choose sends _ _ (add_sent-Carrying _ s tt h) (leave-Carrying _ w s h)
search-Carrying now sends cancel_case w s h = elim (Option-cases (dequeue s.qp.player_id w.lobby)) [
  | inl e ↦ rw (e, search_step) (choose s.cancel_req _ _ tt tt)
  | inr ((l, b), e) ↦
      rw (e, search_step)
        (choose s.cancel_req _ _
          (leave-Carrying _ _ _ (sending sends _ (record s { cancel_req = false }) tt h)) tt)
]
search-Carrying now sends client_done_case w s h =
    choose s.client_done _ _ (leave-Carrying _ w s h) tt
search-Carrying now sends context_case w s h = leave-Carrying _ w s h
search-Carrying now sends _ w s h = tt

ready-Carrying :
    (now : ℤ) (sends : Bool) (ev : Event) (evt : MatchEvent) (w : World) (s : Stream)
    → Carrying s
    → NextCarrying (ready_step now sends ev evt w s)
unfolding ready_step
ready-Carrying now sends accept_case evt w s h =
    choose s.accept_req _ _
      (answer-Carrying now sends true evt w (record s { accept_req = false }) h) tt
ready-Carrying now sends timer_case evt w s h = answer-Carrying now sends false evt w s h
ready-Carrying now sends client_done_case evt w s h =
    choose s.client_done _ _ (answer-Carrying now sends false evt w s h) tt
ready-Carrying now sends context_case evt w s h = answer-Carrying now sends false evt w s h
ready-Carrying now sends _ evt w s h = tt

await-Carrying :
    (now : ℤ) (sends : Bool) (ev : Event) (evt : MatchEvent) (w : World) (s : Stream)
    → Carrying s
    → NextCarrying (await_step now sends ev evt w s)
unfolding await_step
await-Carrying now sends verdict_read evt w s h = on_verdict-Carrying now sends evt w s h
await-Carrying now sends _ evt w s h = tt

phase-Carrying :
    (p : Phase) (now : ℤ) (sends : Bool) (ev : Event) (w : World) (s : Stream)
    → Carrying s
    → NextCarrying (phase_step p now sends ev w s)
unfolding phase_step
phase-Carrying searching now sends ev w s h = search-Carrying now sends ev w s h
phase-Carrying (ready_checking evt) now sends ev w s h = ready-Carrying now sends ev evt w s h
phase-Carrying (awaiting evt) now sends ev w s h = await-Carrying now sends ev evt w s h
phase-Carrying (returned r) now sends ev w s h = tt

read_message-Carrying :
    (msg : GatewayRequest) (s : Stream) → Carrying s → Carrying (read_message msg s)
read_message-Carrying msg s h =
    let (_, _, same) = read_message_keeps msg s in subst (All IsAssigned) (sym same) h

step-Carrying :
    (now : ℤ) (sends : Bool) (ev : Event) (w : World) (s : Stream)
    → Carrying s
    → NextCarrying (stream_step now sends ev w s)
unfolding stream_step
step-Carrying now sends (client_sends msg) w s h =
    choose s.client_done _ _ tt (read_message-Carrying msg s h)
step-Carrying now sends client_ends w s h = choose s.client_done _ _ tt h
step-Carrying now sends ev w s h = phase-Carrying s.phase now sends ev w s h

-- Whatever step a stream takes, if each ready check and each confirmation among the messages sent
-- before carries an assignment, so does each among those sent after it.
pub stream_step-IsAssigned :
    (now : ℤ) (sends : Bool) (ev : Event) (w w' : World) (s s' : Stream)
    → All IsAssigned s.sent
    → stream_step now sends ev w s ≡ next w' s'
    → All IsAssigned s'.sent
stream_step-IsAssigned now sends ev w w' s s' h e =
    subst NextCarrying e (step-Carrying now sends ev w s h)
