-- ===== src/System/Streams.antt =====
-- Every step of a stream moves the world as System.Moves says, and leaves the stream with an event, if
-- it is in a ready check, that can be answered.
use fp_insis.Prelude.{ℕ, ◌≡◌, refl, subst, Bool, true, false, All, if◌then◌else◌, ℤ, inl, inr}
use fp_insis.Chan.{Chans, buffer_of, recv_cases, try_send_open}
use fp_insis.Pool.{MatchEvent}
use fp_insis.Pool.Queueing.{IsSafe, dequeue_lem}
use fp_insis.Status.{Reply}
use fp_insis.Gateway.{Phase, searching, ready_checking, awaiting, returned, Stream, World}
use fp_insis.Gateway.Loop.{
  Event, Next, blocked, panicked, next, leave, on_match, answer, on_verdict, search_step,
  ready_step, await_step, phase_step, stream_step, match_case, ticker_case, cancel_case,
  client_done_case, context_case, accept_case, timer_case, verdict_read, client_ends, client_sends,
}
use fp_insis.Gateway.Cleanup.{recv-IsSafe}
use fp_insis.Gateway.Steps.{read_message_keeps}
use fp_insis.System.Moves.{
  Good, Moves, Moves-refl, Moves-trans, sent-Moves, received-Moves, matched-Moves, dequeued-Moves,
}

-- A stream in a ready check has an event that can be answered.
abbrev pub PhaseGood : (ℕ → Bool) → Chans Bool → Phase → Type 0
PhaseGood held h searching = Unit {0}
PhaseGood held h (ready_checking evt) = Good held h evt
PhaseGood held h (awaiting evt) = Unit {0}
PhaseGood held h (returned r) = Unit {0}

-- What follows from the world `w`.
pub data Moved (held : ℕ → Bool) (w : World) : Next → Type 1 where
  stays : Moved held w blocked
  moves :
      {w' : World} {s' : Stream}
      → Moves held w w'
      → IsSafe w'.lobby
      → PhaseGood held w'.bools s'.phase
      → Moved held w (next w' s')

module _ (held : ℕ → Bool) where
  choose :
      (b : Bool) (w : World) (x y : Next)
      → Moved held w x
      → Moved held w y
      → Moved held w (if b then x else y)
  choose true w x y hx hy = hx
  choose false w x y hx hy = hy

  after : (a b : World) (n : Next) → Moves held a b → Moved held b n → Moved held a n
  after a b blocked m stays = stays
  after a b panicked m n = elim n [ ]
  after a b (next w s) m (moves n safe g) = moves (Moves-trans held a b w m n) safe g

  leave-Moved :
      (r : Reply (Unit {0})) (w : World) (s : Stream) → IsSafe w.lobby → Moved held w (leave r w s)
  unfolding leave
  leave-Moved r w s safe =
      let (l', e, safe', _) = dequeue_lem s.qp.player_id w.lobby safe in
      rw (e, leave) (moves (dequeued-Moves held w s.qp.player_id l' _ safe e) safe' tt)

  module _ (now : ℤ) (sends : Bool) (w : World) (safe : IsSafe w.lobby) where
    on_match-Moved :
        (s : Stream)
        → All (Good held w.bools) (buffer_of s.qp.match_ch w.lobby.chans)
        → Moved held w (on_match now sends w s)
    unfolding on_match
    on_match-Moved s good = elim (recv_cases s.qp.match_ch w.lobby.chans) [
      | inl e ↦ rw (e, on_match) stays
      | inr (inl e) ↦ rw (e, on_match) (leave-Moved _ w _ safe)
      | inr (inr (evt, g, e, x, b)) ↦
          let safe' = recv-IsSafe w.lobby g safe x in
          let m = matched-Moves held w s.qp.match_ch evt g x e in
          rw (e, on_match)
            (choose sends w _ _ (moves m safe' (subst (All (Good held w.bools)) b good).0)
              (after w _ _ m (leave-Moved _ _ s safe')))
    ]

    answer-Moved :
        (accepted : Bool) (evt : MatchEvent) (s : Stream)
        → Good held w.bools evt
        → Moved held w (answer now sends accepted evt w s)
    unfolding answer
    answer-Moved accepted evt s good =
        let (g, b, e, x) = try_send_open evt.response_ch accepted w.bools good.opened in
        let m = sent-Moves held w evt.response_ch accepted b g x e good.other in
        rw (e, answer)
          (choose accepted w _ _ (moves m safe tt) (after w _ _ m (leave-Moved _ _ _ safe)))

    on_verdict-Moved : (evt : MatchEvent) (s : Stream) → Moved held w (on_verdict now sends evt w s)
    unfolding on_verdict
    on_verdict-Moved evt s = elim (recv_cases evt.result_ch w.bools) [
      | inl e ↦ rw (e, on_verdict) stays
      | inr (inl e) ↦ rw (e, on_verdict) (moves (Moves-refl held w) safe tt)
      | inr (inr (result, g, e, x, b)) ↦
          let m = received-Moves held w evt.result_ch result g x e in
          rw (e, on_verdict)
            (choose result w _ _
              (choose sends w _ _ (after w _ _ m (leave-Moved _ _ _ safe))
                (after w _ _ m (leave-Moved _ _ _ safe)))
              (moves m safe tt))
    ]

    cancel-Moved : (s : Stream) → Moved held w (search_step now sends cancel_case w s)
    unfolding search_step
    cancel-Moved s =
        let (l', e, safe', _) = dequeue_lem s.qp.player_id w.lobby safe in
        rw (e, search_step)
          (choose s.cancel_req w _ _
            (after w _ _ (dequeued-Moves held w s.qp.player_id l' _ safe e)
              (leave-Moved _ _ _ safe'))
            stays)

    search-Moved :
        (ev : Event) (s : Stream)
        → s.phase ≡ searching
        → All (Good held w.bools) (buffer_of s.qp.match_ch w.lobby.chans)
        → Moved held w (search_step now sends ev w s)
    unfolding search_step
    search-Moved match_case s p good = on_match-Moved s good
    search-Moved ticker_case s p good =
        choose sends w _ _ (moves (Moves-refl held w) safe (rw p tt)) (leave-Moved _ w _ safe)
    search-Moved cancel_case s p good = cancel-Moved s
    search-Moved client_done_case s p good =
        choose s.client_done w _ _ (leave-Moved _ w _ safe) stays
    search-Moved context_case s p good = leave-Moved _ w _ safe
    search-Moved _ s p good = stays

    ready-Moved :
        (ev : Event) (evt : MatchEvent) (s : Stream)
        → Good held w.bools evt
        → Moved held w (ready_step now sends ev evt w s)
    unfolding ready_step
    ready-Moved accept_case evt s good =
        choose s.accept_req w _ _ (answer-Moved true evt _ good) stays
    ready-Moved timer_case evt s good = answer-Moved false evt s good
    ready-Moved client_done_case evt s good =
        choose s.client_done w _ _ (answer-Moved false evt s good) stays
    ready-Moved context_case evt s good = answer-Moved false evt s good
    ready-Moved _ evt s good = stays

    await-Moved :
        (ev : Event) (evt : MatchEvent) (s : Stream)
        → Moved held w (await_step now sends ev evt w s)
    unfolding await_step
    await-Moved verdict_read evt s = on_verdict-Moved evt s
    await-Moved _ evt s = stays

    phase-Moved :
        (p : Phase) (ev : Event) (s : Stream)
        → s.phase ≡ p
        → PhaseGood held w.bools p
        → All (Good held w.bools) (buffer_of s.qp.match_ch w.lobby.chans)
        → Moved held w (phase_step p now sends ev w s)
    unfolding phase_step
    phase-Moved searching ev s p g good = search-Moved ev s p good
    phase-Moved (ready_checking evt) ev s p g good = ready-Moved ev evt s g
    phase-Moved (awaiting evt) ev s p g good = await-Moved ev evt s
    phase-Moved (returned r) ev s p g good = stays

    -- A step of a stream does not panic and moves the world.
    pub stream_step-Moved :
        (ev : Event) (s : Stream)
        → PhaseGood held w.bools s.phase
        → All (Good held w.bools) (buffer_of s.qp.match_ch w.lobby.chans)
        → Moved held w (stream_step now sends ev w s)
    unfolding stream_step
    stream_step-Moved (client_sends msg) s g good =
        choose s.client_done w _ _ stays
          (moves (Moves-refl held w) safe (rw (read_message_keeps msg s).1 g))
    stream_step-Moved client_ends s g good =
        choose s.client_done w _ _ stays (moves (Moves-refl held w) safe g)
    stream_step-Moved ev s g good = phase-Moved s.phase ev s refl g good
