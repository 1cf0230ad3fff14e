-- ===== src/Client/Counts.antt =====
-- The counters of a run of the client simulator.
use fp_insis.Prelude.{
  ℕ, ◌+◌, ◌≤◌, ◌<◌, ◌≡◌, refl, ◌∙◌, ◌≢◌, ◌⊎◌, inl, inr, Bool, true, false, Option, none, some, List,
  [], ◌∷◌, String, arith, All, Bool-cases, Option-cases, if◌then◌else◌, ◌==◌, string_eq, ℤ, length,
  get_elem?, zero, suc,
}
use text.Mathlib.TextEquality.{eq_iff}
use fp_insis.Status.{Reply, ok, fail}
use fp_insis.Pb.{
  GatewayRequest, GatewayResponse, QueueStatus, in_game, cancelled, ready_check,
  SubmitResultRequest, SubmitResultResponse, MatchAssignment,
}
use fp_insis.Client.{
  Tally, no_tally, Incoming, recv_failed, received, Reading, left_loop, gave_up, nil_panic,
  still_reading, on_response, with_sent, read_responses, Draws, Surroundings, Simulated, finished,
  crashed, still_waiting, possible_results, submission, submit_request, on_reply, add_failed,
  add_simulated, after_reading, simulate_player, simulate_all,
}

-- A ready check and a confirmation carry the assignment.
abbrev pub Assigned : QueueStatus → Option MatchAssignment → Type 0
Assigned ready_check a = a ≢ none
Assigned in_game a = a ≢ none
Assigned _ a = Unit {0}

abbrev pub IsAssigned : GatewayResponse → Type 0
IsAssigned resp = Assigned resp.status resp.assignment

abbrev pub IncomingAssigned : Incoming → Type 0
IncomingAssigned recv_failed = Unit {0}
IncomingAssigned (received resp sends) = IsAssigned resp

-- Recv fails at some time, as it does at the latest when the context's 60 seconds are over.
abbrev pub fails : List Incoming → Bool
fails [] = false
fails (recv_failed ∷ rest) = true
fails (received resp sends ∷ rest) = fails rest

-- What the read loop may have counted since `t`.
abbrev Counted : Tally → Reading → Type 0
Counted t (left_loop sid u sent) =
    (u.failed ≡ t.failed)
    × (u.results ≡ t.results)
    × (t.matched ≤ u.matched)
    × ((sid ≡ "") ⊎ (t.matched < u.matched))
Counted t (gave_up u sent) = (u.failed ≡ t.failed + 1) × (u.results ≡ t.results)
Counted t nil_panic = ⊥
Counted t still_reading = ⊥

Counted-with_sent :
    (t u : Tally) (before : List GatewayRequest) (r : Reading)
    → u.failed ≡ t.failed
    → u.results ≡ t.results
    → t.matched ≤ u.matched
    → Counted u r
    → Counted t (with_sent before r)
Counted-with_sent t u before (left_loop sid v sent) f r m (c, d, e, inl g) =
    (c ∙ f, d ∙ r, omega arith, inl g)
Counted-with_sent t u before (left_loop sid v sent) f r m (c, d, e, inr g) =
    (c ∙ f, d ∙ r, omega arith, inr (omega arith))
Counted-with_sent t u before (gave_up v sent) f r m (c, d) = (omega arith, d ∙ r)
Counted-with_sent t u before nil_panic f r m c = c
Counted-with_sent t u before still_reading f r m c = c

-- One response, whatever follows it.
response-Counted :
    (status : QueueStatus) (assignment : Option MatchAssignment) (id : String) (sends : Bool)
    (sid : String) (t : Tally) (go_on : String → Tally → List GatewayRequest → Reading)
    → Assigned status assignment
    → ((u : Tally) (sent : List GatewayRequest)
        → u.failed ≡ t.failed
        → u.results ≡ t.results
        → t.matched ≤ u.matched
        → (sid' : String) → (sid' ≡ sid) ⊎ (t.matched < u.matched)
        → Counted t (go_on sid' u sent))
    → Counted t (on_response status assignment id sends sid t go_on)
unfolding on_response
response-Counted ready_check none id sends sid t go_on a h = absurd (a refl)
response-Counted ready_check (some x) id true sid t go_on a h =
    h t _ refl refl (omega arith) sid (inl refl)
response-Counted ready_check (some x) id false sid t go_on a h = (refl, refl)
response-Counted in_game none id sends sid t go_on a h = absurd (a refl)
response-Counted in_game (some x) id sends sid t go_on a h =
    h _ _ refl refl (omega arith) x.session_id (inr (omega arith))
response-Counted cancelled assignment id sends sid t go_on a h = (refl, refl)
response-Counted _ assignment id sends sid t go_on a h =
    h t _ refl refl (omega arith) sid (inl refl)

continued :
    (t u : Tally) (sid : String) (sent : List GatewayRequest) (more : Reading)
    → u.failed ≡ t.failed
    → u.results ≡ t.results
    → t.matched ≤ u.matched
    → (sid ≡ "") ⊎ (t.matched < u.matched)
    → (sid ≡ "" → Counted u more)
    → Counted t (if sid == "" then with_sent sent more else left_loop sid u sent)
continued t u sid sent more f r m d h = elim (Bool-cases (sid == "")) [
  | inl none_yet ↦
      rw none_yet (Counted-with_sent t u sent more f r m (h (ground (arith, eq_iff sid ""))))
  | inr given ↦ rw given (f, r, m, d)
]

read-Counted :
    (id : String) (incoming : List Incoming) (sid : String) (t : Tally)
    → sid ≡ ""
    → All IncomingAssigned incoming
    → fails incoming ≡ true
    → Counted t (read_responses id incoming sid t)
unfolding read_responses
read-Counted id [] sid t s a f = absurd (cc)
read-Counted id (recv_failed ∷ rest) sid t s a f = (refl, refl, omega arith, inl s)
read-Counted id (received resp sends ∷ rest) sid t s a f =
    response-Counted resp.status resp.assignment id sends sid t _ a.0 (λ u sent x y m sid' d.
      continued t u sid' sent (read_responses id rest sid' u) x y m
        (elim d [ inl e ↦ inl (e ∙ s) | inr l ↦ inr l ]) (λ e. read-Counted id rest sid' u e a.1 f))

-- rand.Intn gives numbers below its argument.
pub record InRange (d : Draws) : Type 0 where
  pub rating : d.rating < 4001
  pub duration : d.duration < 3
  pub result : d.result < 3
  pub score : d.score < 100

-- The draws are in range, each ready check and each confirmation carries an assignment, and Recv fails
-- at some time.
pub record Plays (w : Surroundings) : Type 0 where
  pub draws : InRange w.draws
  pub assigned : All IncomingAssigned w.incoming
  pub fails : fails w.incoming ≡ true

-- A player who ends adds one to `failed` or to `results`, and to `results` only with a match.
abbrev Once : Simulated → Type 0
Once (finished t sent submitted) = (t.failed + t.results ≡ 1) × (t.results ≤ t.matched)
Once crashed = ⊥
Once still_waiting = ⊥

replied :
    (t : Tally) (sent : List GatewayRequest) (req : SubmitResultRequest)
    (reply : Reply SubmitResultResponse)
    → t.failed ≡ 0
    → t.results ≡ 0
    → 0 < t.matched
    → Once (on_reply t sent req reply)
replied t sent req (ok x) f r m = (omega arith, omega arith)
replied t sent req (fail c) f r m = (omega arith, omega arith)

when :
    (b : Bool) (x : Simulated)
    → Once x
    → Once (if b then x else finished (add_failed no_tally) [] none)
when true x h = h
when false x h = (refl, omega arith)

add-Once :
    (x : Simulated) (t : Tally) (n : ℕ)
    → Once x
    → t.failed + t.results ≡ n
    → t.results ≤ t.matched
    → (u : Tally) × (add_simulated x (some t) ≡ some u)
      × (u.failed + u.results ≡ suc n)
      × (u.results ≤ u.matched)
add-Once (finished v sent submitted) t n o e le = (_, refl, omega (arith, o.0), omega (arith, o.1))
add-Once crashed t n o e le = elim o [ ]
add-Once still_waiting t n o e le = elim o [ ]

module _ (whole_seconds : ℕ → ℤ) where
  chosen : (n : ℕ) → n < 3 → get_elem? possible_results n ≢ none
  chosen zero lt e = absurd (cc)
  chosen (suc zero) lt e = absurd (cc)
  chosen (suc (suc zero)) lt e = absurd (cc)
  chosen (suc (suc (suc n))) lt e = absurd (omega arith)

  submission_lem :
      (w : Surroundings) (sid : String)
      → InRange w.draws
      → (req : SubmitResultRequest) × (submission whole_seconds w sid ≡ some req)
  unfolding submission
  submission_lem w sid d = elim (Option-cases (get_elem? possible_results w.draws.result)) [
    | inl e ↦ absurd (chosen w.draws.result d.result e)
    | inr (c, e) ↦ (submit_request whole_seconds w sid c, rw e refl)
  ]

  after_reading-Once :
      (w : Surroundings) (r : Reading)
      → InRange w.draws
      → Counted no_tally r
      → Once (after_reading whole_seconds w r)
  after_reading-Once w (left_loop sid t sent) d (f, r, m, c) =
      let (req, e) = submission_lem w sid d in
      elim (Bool-cases (sid == "")) [
        | inl unset ↦ rw unset (omega arith, omega arith)
        | inr set ↦
            rw (set, e)
              (replied t _ req (w.tracker req) f r
                (elim c [ inl n ↦ absurd (ground (arith, eq_iff sid "")) | inr l ↦ l ]))
      ]
  after_reading-Once w (gave_up t sent) d (f, r) = (omega arith, omega arith)
  after_reading-Once w nil_panic d c = elim c [ ]
  after_reading-Once w still_reading d c = elim c [ ]

  simulate-Once : (w : Surroundings) → Plays w → Once (simulate_player whole_seconds w)
  unfolding simulate_player
  simulate-Once w p = when w.dials _ (
      when w.opens _ (
        when w.joins _ (
          after_reading-Once w _ p.draws
            (read-Counted w.player_id w.incoming "" no_tally refl p.assigned p.fails))))

  -- Where Recv fails at some time for each player, the draws are in range, and no ready check and no
  -- confirmation comes without its assignment, no player panics or waits forever. At the end `failed`
  -- and `results` add up to the players, and no more results than matches were counted.
  pub simulate_all_lem :
      (ws : List Surroundings)
      → All Plays ws
      → (t : Tally) × (simulate_all whole_seconds ws ≡ some t)
        × (t.failed + t.results ≡ length ws)
        × (t.results ≤ t.matched)
  unfolding simulate_all
  simulate_all_lem [] h = (no_tally, refl, refl, omega arith)
  simulate_all_lem (w ∷ ws) h =
      let (t, e, sum, le) = simulate_all_lem ws h.1 in
      rw e (add-Once (simulate_player whole_seconds w) t (length ws) (simulate-Once w h.0) sum le)
