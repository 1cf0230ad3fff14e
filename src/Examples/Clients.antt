-- ===== src/Examples/Clients.antt =====
-- Two simulated players: one who plays a match to its end, and one whose stream is cancelled.
use fp_insis.Prelude.{
  ℕ, ◌+◌, ◌*◌, ◌/◌, ◌≤◌, ◌≡◌, ◌≢◌, refl, true, false, Option, none, some, List, [], ◌∷◌, arith, ℤ,
  pos,
}
use text.Mathlib.TextEquality.{eq_iff}
use fp_insis.Status.{ok}
use fp_insis.Pb.{
  GatewayRequest, waiting, in_game, cancelled, ready_check, SubmitResultRequest, MatchAssignment,
}
use fp_insis.Gateway.{check_join, notice}
use fp_insis.Client.{
  Tally, recv_failed, received, ticks, context_done, Draws, Surroundings, join_request, join_player,
  second, Simulated, finished, read_responses, on_response, submission, simulate_player,
  simulate_all,
}
use fp_insis.Client.Counts.{Plays, InRange, simulate_all_lem}
use fp_insis.Client.Requests.{JoinThenOwn, ValidSubmission, simulate_player_lem}

abbrev whole : ℕ → ℤ
whole n = pos (n / 1000000000)

whole_exact : (n : ℕ) → n ≤ 3 → whole (n * second) ≡ pos n
whole_exact n le = ground arith

abbrev match_info : MatchAssignment
match_info = record { session_id = "s1"; player_ids = "player-0000" ∷ []; created_at_ms = pos 7 }

abbrev draws : Draws
draws = record { rating = 4000; duration = 2; result = 1; score = 99 }

abbrev winner : Surroundings
winner = record {
  player_id = "player-0000";
  display_name = "Bot_0000";
  draws = draws;
  dials = true;
  opens = true;
  joins = true;
  incoming =
      received (notice waiting "" (pos 1)) true
      ∷ received (record (notice ready_check "" (pos 2)) { assignment = some match_info }) true
      ∷ received (record (notice in_game "" (pos 3)) { assignment = some match_info }) true
      ∷ recv_failed
      ∷ [];
  beats = ticks (pos 1) true ∷ ticks (pos 4) true ∷ context_done ∷ [];
  turns = false ∷ true ∷ [];
  tracker = λ req. ok (record { accepted = true; message = ""; new_mmr = pos 25 });
}

abbrev loser : Surroundings
loser = record winner {
  player_id = "player-0001";
  incoming = received (notice cancelled "" (pos 4)) true ∷ recv_failed ∷ [];
}

in_range : InRange draws
in_range = record {
  rating = omega arith;
  duration = omega arith;
  result = omega arith;
  score = omega arith;
}

winner-Plays : Plays winner
winner-Plays = record {
  draws = in_range;
  assigned = (tt, ((λ e. absurd (cc)), ((λ e. absurd (cc)), (tt, tt))));
  fails = refl;
}

loser-Plays : Plays loser
loser-Plays = record { draws = in_range; assigned = (tt, (tt, tt)); fails = refl }

simulate_all_lem_example :
    (t : Tally) × (simulate_all whole (winner ∷ loser ∷ []) ≡ some t)
    × (t.failed + t.results ≡ 2)
    × (t.results ≤ t.matched)
simulate_all_lem_example =
    simulate_all_lem whole (winner ∷ loser ∷ []) (winner-Plays, (loser-Plays, tt))

abbrev end : Simulated
end = simulate_player whole winner

abbrev tally_of : Simulated → Tally
tally_of (finished t sent submitted) = t
tally_of _ = record { matched = 0; failed = 0; results = 0 }

abbrev sent_of : Simulated → List GatewayRequest
sent_of (finished t sent submitted) = sent
sent_of _ = []

abbrev submitted_of : Simulated → Option SubmitResultRequest
submitted_of (finished t sent submitted) = submitted
submitted_of _ = none

ends : simulate_player whole winner ≡ finished (tally_of end) (sent_of end) (submitted_of end)
unfolding simulate_player read_responses on_response submission
ends = refl

winner_named : winner.player_id ≢ ""
winner_named e = absurd (ground (arith, eq_iff "player-0000" ""))

simulate_player_lem_example :
    JoinThenOwn winner (sent_of end)
    × (check_join (some (join_request winner)) ≡ some (join_player winner))
    × ((join_player winner).mmr ≡ pos (1000 + 4000))
    × ValidSubmission winner (submitted_of end)
simulate_player_lem_example =
    simulate_player_lem whole whole_exact winner (tally_of end) (sent_of end) (submitted_of end)
      winner_named in_range ends
