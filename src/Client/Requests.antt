-- ===== src/Client/Requests.antt =====
-- What the client simulator sends, against the checks of the gateway and of the tracker, and what the
-- gateway sends it.
use fp_insis.Prelude.{
  ℕ, zero, suc, ◌+◌, ◌*◌, ◌≤◌, ◌≡◌, refl, subst, ◌≢◌, ◌⊎◌, inl, inr, Bool, true, false, Option,
  none, some, List, [], ◌∷◌, String, arith, All, All-append, Bool-cases, Option-cases,
  if◌then◌else◌, ◌==◌, string_eq, int_eq, ℤ, pos, get_elem?, wrap32_of_IsInt32,
}
use text.Mathlib.TextEquality.{eq_iff}
use fp_insis.Runtime.{unix_milli}
use fp_insis.Status.{Reply, ok, fail}
use fp_insis.Pb.{
  GatewayRequest, QueueStatus, heartbeat, in_game, cancelled, ready_check, SubmitResultRequest,
  SubmitResultResponse, MatchAssignment, match_result_unspecified,
}
use fp_insis.Gateway.{check_join, Stream}
use fp_insis.Gateway.Loop.{read_message}
use fp_insis.Tracker.{validate}
use fp_insis.Tracker.Replies.{validate_iff}
use fp_insis.Client.{
  Beat, context_done, ticks, send_heartbeats, Tally, no_tally, Incoming, recv_failed, received,
  Reading, request, interleave, on_stream, left_loop, gave_up, nil_panic, still_reading,
  accept_request, on_response, with_sent, read_responses, Surroundings, join_player, join_request,
  second, possible_results, Simulated, finished, crashed, still_waiting, submission, submit_request,
  on_reply, on_submission, add_failed, after_reading, simulate_player,
}
use fp_insis.Client.Counts.{InRange}

-- The rating that a player joins with is from 1000 to 5000, as drawn.
rating_kept :
    (w : Surroundings) → InRange w.draws → (join_player w).mmr ≡ pos (1000 + w.draws.rating)
rating_kept w d =
    wrap32_of_IsInt32 (pos (1000 + w.draws.rating))
      (record { above = omega arith; below = omega (arith, d.rating) })

join_admitted :
    (w : Surroundings)
    → w.player_id ≢ ""
    → InRange w.draws
    → check_join (some (join_request w)) ≡ some (join_player w)
unfolding check_join
join_admitted w named d = ground (arith, rating_kept w d, d.rating, eq_iff w.player_id "", named)

-- All that the read loop sends.
abbrev AllSent : (GatewayRequest → Type 0) → Reading → Type 0
AllSent P (left_loop sid t sent) = All P sent
AllSent P (gave_up t sent) = All P sent
AllSent P nil_panic = Unit
AllSent P still_reading = Unit

module _ (P : GatewayRequest → Type 0) where
  AllSent-with_sent :
      (before : List GatewayRequest) (r : Reading)
      → All P before
      → AllSent P r
      → AllSent P (with_sent before r)
  AllSent-with_sent before (left_loop sid t sent) b h = All-append P before sent b h
  AllSent-with_sent before (gave_up t sent) b h = All-append P before sent b h
  AllSent-with_sent before nil_panic b h = tt
  AllSent-with_sent before still_reading b h = tt

  response_sent :
      (status : QueueStatus) (assignment : Option MatchAssignment) (id : String) (sends : Bool)
      (sid : String) (t : Tally) (go_on : String → Tally → List GatewayRequest → Reading)
      → P (accept_request id)
      → ((sid' : String) (u : Tally) (sent : List GatewayRequest)
          → All P sent
          → AllSent P (go_on sid' u sent))
      → AllSent P (on_response status assignment id sends sid t go_on)
  unfolding on_response
  response_sent ready_check none id sends sid t go_on p h = tt
  response_sent ready_check (some x) id true sid t go_on p h = h _ _ _ (p, tt)
  response_sent ready_check (some x) id false sid t go_on p h = tt
  response_sent in_game none id sends sid t go_on p h = tt
  response_sent in_game (some x) id sends sid t go_on p h = h _ _ _ tt
  response_sent cancelled assignment id sends sid t go_on p h = tt
  response_sent _ assignment id sends sid t go_on p h = h _ _ _ tt

  read_sent :
      (id : String) (incoming : List Incoming) (sid : String) (t : Tally)
      → P (accept_request id)
      → AllSent P (read_responses id incoming sid t)
  unfolding read_responses
  read_sent id [] sid t p = tt
  read_sent id (recv_failed ∷ rest) sid t p = tt
  read_sent id (received resp sends ∷ rest) sid t p =
      response_sent resp.status resp.assignment id sends sid t _ p (λ sid' u sent b.
        elim (Bool-cases (sid' == "")) [
          | inl unset ↦ rw unset (AllSent-with_sent sent _ b (read_sent id rest sid' u p))
          | inr set ↦ rw set b
        ])

-- A request of the player's own acceptance, or a heartbeat. The gateway's reader takes it as nothing but
-- the sign that the ready check waits for.
pub record IsOwn (w : Surroundings) (r : GatewayRequest) : Type 0 where
  pub kind :
      (r ≡ accept_request w.player_id)
      ⊎ ((at : ℤ) × (r ≡ request (heartbeat (record { client_timestamp_ms = at }))))
  pub read :
      (s : Stream) → (read_message r s ≡ s) ⊎ (read_message r s ≡ record s { accept_req = true })

accept-IsOwn : (w : Surroundings) → IsOwn w (accept_request w.player_id)
unfolding read_message
accept-IsOwn w = record { kind = inl refl; read = λ s. inr refl }

beats-IsOwn : (w : Surroundings) (beats : List Beat) → All (IsOwn w) (send_heartbeats beats).0
unfolding send_heartbeats read_message
beats-IsOwn w [] = tt
beats-IsOwn w (context_done ∷ rest) = tt
beats-IsOwn w (ticks now true ∷ rest) =
    (record { kind = inr (unix_milli now, refl); read = λ s. inl refl }, beats-IsOwn w rest)
beats-IsOwn w (ticks now false ∷ rest) = tt

All-interleave :
    (P : GatewayRequest → Type 0) (bs : List Bool) (xs ys : List GatewayRequest)
    → All P xs
    → All P ys
    → All P (interleave bs xs ys)
unfolding interleave
All-interleave P [] xs ys h k = All-append P xs ys h k
All-interleave P (b ∷ bs) [] ys h k = k
All-interleave P (b ∷ bs) (x ∷ xs) [] h k = h
All-interleave P (true ∷ bs) (x ∷ xs) (y ∷ ys) h k = (h.0, All-interleave P bs xs (y ∷ ys) h.1 k)
All-interleave P (false ∷ bs) (x ∷ xs) (y ∷ ys) h k = (k.0, All-interleave P bs (x ∷ xs) ys h k.1)

-- Nothing, or the join and after it acceptances of the player's own and heartbeats.
abbrev pub JoinThenOwn : Surroundings → List GatewayRequest → Type 0
JoinThenOwn w [] = Unit {0}
JoinThenOwn w (first ∷ rest) = (first ≡ join_request w) × All (IsOwn w) rest

on_stream-JoinThenOwn :
    (w : Surroundings) (sent : List GatewayRequest)
    → All (IsOwn w) sent
    → JoinThenOwn w (on_stream w sent)
on_stream-JoinThenOwn w sent h =
    (refl, All-interleave (IsOwn w) w.turns sent _ h (beats-IsOwn w w.beats))

abbrev pub ValidSubmission : Surroundings → Option SubmitResultRequest → Type 0
ValidSubmission w none = Unit {0}
ValidSubmission w (some req) = (validate req ≡ none) × (req.player_id ≡ w.player_id)

abbrev Proper : Surroundings → Simulated → Type 0
Proper w (finished t sent submitted) = JoinThenOwn w sent × ValidSubmission w submitted
Proper w crashed = Unit
Proper w still_waiting = Unit

module _ (whole_seconds : ℕ → ℤ)
    (whole_exact : (n : ℕ) → n ≤ 3 → whole_seconds (n * second) ≡ pos n) where
  result_given :
      (n : ℕ) (c : ℤ) → get_elem? possible_results n ≡ some c → c ≢ match_result_unspecified
  result_given zero c e f = absurd (cc)
  result_given (suc zero) c e f = absurd (cc)
  result_given (suc (suc zero)) c e f = absurd (cc)
  result_given (suc (suc (suc n))) c e f = absurd (cc)

  submission_valid :
      (w : Surroundings) (sid : String)
      → w.player_id ≢ ""
      → InRange w.draws
      → (sid == "") ≡ false
      → ValidSubmission w (submission whole_seconds w sid)
  unfolding submission
  submission_valid w sid named d set =
      elim (Option-cases (get_elem? possible_results w.draws.result)) [
        | inl e ↦ rw e tt
        | inr (c, e) ↦ rw e (
          (validate_iff (submit_request whole_seconds w sid c)).1 (
            λ f. ground (arith, eq_iff sid ""),
            named,
            result_given w.draws.result c e,
            ground (arith, whole_exact (1 + w.draws.duration) (omega (arith, d.duration))),
          ),
          refl,
        )
      ]

  replied-Proper :
      (w : Surroundings) (t : Tally) (sent : List GatewayRequest) (req : SubmitResultRequest)
      (reply : Reply SubmitResultResponse)
      → JoinThenOwn w sent
      → ValidSubmission w (some req)
      → Proper w (on_reply t sent req reply)
  replied-Proper w t sent req (ok x) j v = (j, v)
  replied-Proper w t sent req (fail c) j v = (j, v)

  submitted-Proper :
      (w : Surroundings) (t : Tally) (sent : List GatewayRequest) (o : Option SubmitResultRequest)
      → JoinThenOwn w sent
      → ValidSubmission w o
      → Proper w (on_submission w t sent o)
  submitted-Proper w t sent none j v = tt
  submitted-Proper w t sent (some req) j v = replied-Proper w t sent req (w.tracker req) j v

  after_reading-Proper :
      (w : Surroundings) (r : Reading)
      → w.player_id ≢ ""
      → InRange w.draws
      → AllSent (IsOwn w) r
      → Proper w (after_reading whole_seconds w r)
  after_reading-Proper w (left_loop sid t sent) named d h = elim (Bool-cases (sid == "")) [
    | inl unset ↦ rw unset (on_stream-JoinThenOwn w sent h, tt)
    | inr set ↦ rw set (
        submitted-Proper w t _ (submission whole_seconds w sid) (on_stream-JoinThenOwn w sent h)
          (submission_valid w sid named d set))
  ]
  after_reading-Proper w (gave_up t sent) named d h = (on_stream-JoinThenOwn w sent h, tt)
  after_reading-Proper w nil_panic named d h = tt
  after_reading-Proper w still_reading named d h = tt

  when :
      (w : Surroundings) (b : Bool) (x : Simulated)
      → Proper w x
      → Proper w (if b then x else finished (add_failed no_tally) [] none)
  when w true x h = h
  when w false x h = (tt, tt)

  simulate-Proper :
      (w : Surroundings)
      → w.player_id ≢ ""
      → InRange w.draws
      → Proper w (simulate_player whole_seconds w)
  unfolding simulate_player
  simulate-Proper w named d = when w w.dials _ (
      when w w.opens _ (
        when w w.joins _ (
          after_reading-Proper w _ named d
            (read_sent (IsOwn w) w.player_id w.incoming "" no_tally (accept-IsOwn w)))))

  -- With a name, and draws in range, a player who ends sent on the stream either nothing or a join that
  -- the gateway's checks admit, with a rating from 1000 to 5000, and then only acceptances of the
  -- player's own and heartbeats, in any order of the two goroutines; the gateway's reader takes each of
  -- them as nothing but the sign that the ready check waits for; and what was submitted, if anything, is
  -- the player's own and passes the tracker's validation.
  pub simulate_player_lem :
      (w : Surroundings) (t : Tally) (sent : List GatewayRequest)
      (submitted : Option SubmitResultRequest)
      → w.player_id ≢ ""
      → InRange w.draws
      → simulate_player whole_seconds w ≡ finished t sent submitted
      → JoinThenOwn w sent
        × (check_join (some (join_request w)) ≡ some (join_player w))
        × ((join_player w).mmr ≡ pos (1000 + w.draws.rating))
        × ValidSubmission w submitted
  simulate_player_lem w t sent submitted named d e =
      let proper = subst (Proper w) e (simulate-Proper w named d) in
      (proper.0, join_admitted w named d, rating_kept w d, proper.1)
