-- ===== src/Gateway/ReadyCheck.antt =====
-- The ready check of internal/services/gateway.go: what the coordinator is answered, what its verdict
-- does to the stream.
use fp_insis.Prelude.{
  ℕ, ◌≡◌, refl, ap, subst, sym, ◌∙◌, inl, inr, Bool, true, false, some, [], ◌∷◌, arith,
  if◌then◌else◌, nat_eq, nat_beq_iff, string_eq, ℤ, get, get-put, put, Bool-cases,
}
use fp_insis.Chan.{Chan, Chans, taken, recv, try_send}
use fp_insis.Pool.{MatchEvent}
use fp_insis.Pool.Queueing.{IsSafe, dequeue_lem}
use fp_insis.Pb.{waiting, in_game, cancelled}
use fp_insis.Status.{Reply, ok, fail, aborted}
use fp_insis.Coordinator.Verdict.{fresh_chan, told_chan}
use fp_insis.Gateway.{Phase, searching, awaiting, returned, Stream, World, notice}
use fp_insis.Gateway.Loop.{
  Event, Next, add_sent, told, blocked, panicked, next, leave, answer, on_verdict, ready_step,
  await_step, phase_step, stream_step, match_case, ticker_case, cancel_case, client_done_case,
  context_case, accept_case, timer_case, verdict_read, client_ends, client_sends,
}

abbrev pub accepts : Event → Bool
accepts accept_case = true
accepts _ = false

-- A response channel with one answer in it.
abbrev pub answered_chan : Bool → Chan Bool
answered_chan v = record { buffer = v ∷ []; capacity = 1; closed = false }

pub leave_keeps :
    (r : Reply (Unit {0})) (w : World) (s : Stream)
    → IsSafe w.lobby
    → (w' : World) × (leave r w s ≡ next w' (record s { phase = returned r }))
      × (w'.bools ≡ w.bools)
      × IsSafe w'.lobby
unfolding leave
leave_keeps r w s safe =
    let (l', d, safe', g) = dequeue_lem s.qp.player_id w.lobby safe in
    (record w { lobby = l' }, rw (d, leave) refl, refl, safe')

tell :
    (c : ℕ) (v : Bool) (h : Chans Bool)
    → get c h.cells ≡ some fresh_chan
    → (g : Chans Bool) × (try_send c v h ≡ some (g, true))
      × (get c g.cells ≡ some (answered_chan v))
unfolding try_send
tell c v h fresh = (
  record h { cells = put c (answered_chan v) h.cells },
  ground arith,
  ground (arith, get-put c c (answered_chan v) h.cells, nat_beq_iff c c),
)

-- What the code after the select does, with the response channel as it was made.
answer_told :
    (now : ℤ) (sends accepted : Bool) (evt : MatchEvent) (w : World) (s : Stream)
    → IsSafe w.lobby
    → get evt.response_ch w.bools.cells ≡ some fresh_chan
    → (w' : World) × (s' : Stream) × (answer now sends accepted evt w s ≡ next w' s')
      × (get evt.response_ch w'.bools.cells ≡ some (answered_chan accepted))
      × (s'.phase ≡ (if accepted then awaiting evt else returned (fail aborted)))
unfolding answer
answer_told now sends true evt w s safe fresh =
    let (g, e, a) = tell evt.response_ch true w.bools fresh in
    (record w { bools = g }, record s { phase = awaiting evt }, rw (e, answer) refl, a, refl)
answer_told now sends false evt w s safe fresh =
    let (g, e, a) = tell evt.response_ch false w.bools fresh in
    let failed = notice cancelled "Ready check failed. Returning to queue or disconnecting." now in
    let s2 = if sends then add_sent failed s else s in
    let (w', l, b, _) = leave_keeps (fail aborted) (record w { bools = g }) s2 safe in
    (w', record s2 { phase = returned (fail aborted) }, rw (e, answer) l, rw b a, refl)

branch : (b : Bool) (x y : Next) → b ≡ true → (if b then x else y) ≡ x
branch true x y e = refl
branch false x y e = absurd (cc)

same :
    (w1 w' : World) (s1 s' : Stream) (v : Bool) (evt : MatchEvent)
    → next w1 s1 ≡ next w' s'
    → get evt.response_ch w1.bools.cells ≡ some (answered_chan v)
    → s1.phase ≡ (if v then awaiting evt else returned (fail aborted))
    → (get evt.response_ch w'.bools.cells ≡ some (answered_chan v))
      × (s'.phase ≡ (if v then awaiting evt else returned (fail aborted)))
same w1 w' s1 s' v evt e a p = subst Told e (a, p)
  where
    Told : Next → Type 0
    Told blocked = Unit
    Told panicked = Unit
    Told (next w2 s2) =
        (get evt.response_ch w2.bools.cells ≡ some (answered_chan v))
        × (s2.phase ≡ (if v then awaiting evt else returned (fail aborted)))

unaccepted :
    (now : ℤ) (sends : Bool) (evt : MatchEvent) (w w' : World) (s s' : Stream)
    → IsSafe w.lobby
    → get evt.response_ch w.bools.cells ≡ some fresh_chan
    → answer now sends false evt w s ≡ next w' s'
    → (get evt.response_ch w'.bools.cells ≡ some (answered_chan false))
      × (s'.phase ≡ returned (fail aborted))
unaccepted now sends evt w w' s s' safe fresh h =
    let (w1, s1, e, a, p) = answer_told now sends false evt w s safe fresh in
    same w1 w' s1 s' false evt (sym e ∙ h) a p

-- In a ready check with the response channel as it was made, each of the select's four cases that is
-- ready answers the coordinator once: with true if the client accepted, and the verdict is awaited;
-- with false otherwise, and the handler returns Aborted.
pub ready_answers :
    (now : ℤ) (sends : Bool) (ev : Event) (evt : MatchEvent) (w w' : World) (s s' : Stream)
    → IsSafe w.lobby
    → get evt.response_ch w.bools.cells ≡ some fresh_chan
    → ready_step now sends ev evt w s ≡ next w' s'
    → (get evt.response_ch w'.bools.cells ≡ some (answered_chan (accepts ev)))
      × (s'.phase ≡ (if accepts ev then awaiting evt else returned (fail aborted)))
unfolding ready_step
ready_answers now sends accept_case evt w w' s s' safe fresh h = elim (Bool-cases s.accept_req) [
  | inl t ↦
      let (w1, s1, e, a, p) =
        answer_told now sends true evt w (record s { accept_req = false }) safe fresh in
      same w1 w' s1 s' true evt (sym e ∙ sym (branch s.accept_req _ _ t) ∙ h) a p
  | inr f ↦ absurd (ground arith)
]
ready_answers now sends timer_case evt w w' s s' safe fresh h =
    unaccepted now sends evt w w' s s' safe fresh h
ready_answers now sends context_case evt w w' s s' safe fresh h =
    unaccepted now sends evt w w' s s' safe fresh h
ready_answers now sends client_done_case evt w w' s s' safe fresh h =
    elim (Bool-cases s.client_done) [
      | inl t ↦ unaccepted now sends evt w w' s s' safe fresh (sym (branch s.client_done _ _ t) ∙ h)
      | inr f ↦ absurd (ground arith)
    ]
ready_answers now sends match_case evt w w' s s' safe fresh h = absurd (ground arith)
ready_answers now sends ticker_case evt w w' s s' safe fresh h = absurd (ground arith)
ready_answers now sends cancel_case evt w w' s s' safe fresh h = absurd (ground arith)
ready_answers now sends verdict_read evt w w' s s' safe fresh h = absurd (ground arith)
ready_answers now sends client_ends evt w w' s s' safe fresh h = absurd (ground arith)
ready_answers now sends (client_sends m) evt w w' s s' safe fresh h = absurd (ground arith)

recv_told :
    (c : ℕ) (v : Bool) (h : Chans Bool)
    → get c h.cells ≡ some (told_chan v)
    → (g : Chans Bool) × (recv c h ≡ taken v g)
unfolding recv
recv_told c v h e =
    (record h { cells = put c (record (told_chan v) { buffer = [] }) h.cells }, ground arith)

-- With the lobby in good order and Sends that work, a verdict as the coordinator leaves it ends the
-- wait: the handler returns without an error if the session is on, and goes back to searching if it is
-- not.
pub verdict_delivered :
    (now : ℤ) (evt : MatchEvent) (v : Bool) (w : World) (s : Stream)
    → IsSafe w.lobby
    → s.phase ≡ awaiting evt
    → get evt.result_ch w.bools.cells ≡ some (told_chan v)
    → (w' : World) × (s' : Stream) × (stream_step now true verdict_read w s ≡ next w' s')
      × (s'.phase ≡ (if v then returned (ok tt) else searching))
      × (s'.accept_req ≡ s.accept_req)
unfolding stream_step phase_step await_step on_verdict recv
verdict_delivered now evt true w s safe p told_v =
    let (g, e) = recv_told evt.result_ch true w.bools told_v in
    let s1 = add_sent (told in_game "All players accepted. Session starting!" now evt) s in
    let (w', l, _, _) = leave_keeps (ok tt) (record w { bools = g }) s1 safe in
    (
      w',
      record s1 { phase = returned (ok tt) },
      ap (λ (ph : Phase). phase_step ph now true verdict_read w s) p ∙ rw (e, on_verdict) l,
      refl,
      refl,
    )
verdict_delivered now evt false w s safe p told_v =
    let (g, e) = recv_told evt.result_ch false w.bools told_v in
    let again = notice waiting "Another player failed ready check. You have been re-queued." now in
    (
      record w { bools = g },
      record (add_sent again s) { phase = searching },
      ap (λ (ph : Phase). phase_step ph now true verdict_read w s) p ∙ rw (e, on_verdict) refl,
      refl,
      refl,
    )
