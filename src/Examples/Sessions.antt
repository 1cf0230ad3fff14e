-- ===== src/Examples/Sessions.antt =====
-- A session of two players, who send their results.
use fp_insis.Prelude.{
  Permᴰ, ◌≡◌, ◌↔◌, refl, true, false, none, some, List, [], ◌∷◌, String, arith, if◌then◌else◌, ◌==◌,
  string_eq, int_eq, pos, get, put, All, length, nat_beq,
}
use mathlib.Core.List.Permᴰ
use fp_insis.Status.{
  ok, fail, not_found, permission_denied, already_exists, invalid_argument, internal,
}
use fp_insis.Pb.{SubmitResultRequest, SubmitResultResponse, SessionSummary}
use fp_insis.Session.{
  Session, SessionStore, ResultEntry, player_not_in_session, duplicate_submission, recorded,
  rejected, new_session_store, new_session, create_session, record_result, get_session,
  check_result, add_entry, is_member, delta_of,
}
use fp_insis.Session.Recording.{record_twice}
use fp_insis.Session.Outcomes.{
  Listed, Earns, HasEntered, Reason, record_result-recorded, record_result-rejected,
}
use fp_insis.Session.Finality.{has_submitted}
use fp_insis.Session.History.{Call, creates, records, step, run, Fits, history_finalized}
use fp_insis.Tracker.{validate, submit_result, get_session_rpc}
use fp_insis.Runtime.{unix_milli}
use fp_insis.Tracker.Summaries.{submit-get_session_rpc}
use fp_insis.Tracker.Replies.{submit_codes, submit_unknown_result, submit-get_session}

abbrev duo : SessionStore
duo = create_session (pos 1) "s1" ("ann" ∷ "bob" ∷ []) new_session_store

ann_wins : (record_result (pos 2) "s1" "ann" (pos 1) (pos 9) duo).1 ≡ recorded (pos 25)
unfolding create_session record_result check_result get put
ann_wins = refl

record_result-recorded_example :
    (s t : Session) × (get_session "s1" duo ≡ some s)
    × (get_session "s1" (record_result (pos 2) "s1" "ann" (pos 1) (pos 9) duo).0 ≡ some t)
    × Listed "ann" s.player_ids
    × (get "ann" s.results ≡ none)
    × Earns (pos 1) (pos 25)
    × HasEntered (pos 2) "ann" (pos 1) (pos 9) (pos 25) s t
    × ((j : String)
        → get_session j (record_result (pos 2) "s1" "ann" (pos 1) (pos 9) duo).0
          ≡ (if "s1" == j then some t else get_session j duo))
record_result-recorded_example =
    record_result-recorded (pos 2) "s1" "ann" (pos 1) (pos 9) duo (pos 25) ann_wins

record_result-rejected_example :
    ((record_result (pos 2) "s1" "zoe" (pos 1) (pos 9) duo).1 ≡ rejected player_not_in_session) ↔ (
      ((record_result (pos 2) "s1" "zoe" (pos 1) (pos 9) duo).0 ≡ duo)
      × Reason (pos 2) "s1" "zoe" (pos 1) (pos 9) duo player_not_in_session)
record_result-rejected_example =
    record_result-rejected (pos 2) "s1" "zoe" (pos 1) (pos 9) duo player_not_in_session

record_twice_example :
    let ss' = (record_result (pos 2) "s1" "ann" (pos 1) (pos 9) duo).0 in
    record_result (pos 3) "s1" "ann" (pos 2) (pos 4) ss' ≡ (ss', rejected duplicate_submission)
record_twice_example =
    record_twice (pos 2) (pos 3) "s1" "ann" (pos 1) (pos 9) (pos 2) (pos 4) duo (pos 25) ann_wins

abbrev calls : List Call
calls =
    creates (pos 1) "s1" ("ann" ∷ "bob" ∷ [])
    ∷ records (pos 2) "s1" "ann" (pos 1) (pos 9)
    ∷ records (pos 3) "s1" "bob" (pos 2) (pos 4)
    ∷ []

abbrev closed_session : Session
closed_session = elim (get_session "s1" (run new_session_store calls)) [
  | none ↦ new_session (pos 0) "" []
  | some s ↦ s
]

closed_there : get_session "s1" (run new_session_store calls) ≡ some closed_session
unfolding run step create_session record_result check_result add_entry get_session get put
closed_there = refl

calls_fit : All Fits calls
calls_fit = (((refl, (refl, tt)), λ e. omega (arith, e)), (tt, (tt, tt)))

history_finalized_example :
    ((closed_session.finalized ≡ true)
      ↔ All (λ pid. has_submitted pid closed_session.results ≡ true) closed_session.player_ids)
    × ((pid : String) (e : ResultEntry)
        → get pid closed_session.results ≡ some e
        → (is_member pid closed_session.player_ids ≡ true) × (delta_of e.result ≡ some e.mmr_delta))
history_finalized_example = history_finalized calls "s1" closed_session calls_fit closed_there

s2_new : get_session "s2" duo ≡ none
unfolding create_session get_session get put
s2_new = refl

abbrev win : SubmitResultRequest
win = record {
  session_id = "s1";
  player_id = "ann";
  result = pos 1;
  score = pos 9;
  duration_s = pos 600;
}

abbrev odd : SubmitResultRequest
odd = record win { result = pos 7 }

abbrev unnamed : SubmitResultRequest
unnamed = record win { session_id = "" }

win_valid : validate win ≡ none
unfolding validate
win_valid = refl

odd_valid : validate odd ≡ none
unfolding validate
odd_valid = refl

unnamed_fails : (submit_result false (pos 2) unnamed duo).1 ≡ fail invalid_argument
unfolding submit_result validate
unnamed_fails = refl

submit_codes_example :
    (((submit_result false (pos 2) win duo).1 ≡ fail not_found)
      ↔ (get_session win.session_id duo ≡ none))
    × (((submit_result false (pos 2) win duo).1 ≡ fail permission_denied) ↔ (
        (s : Session) × (get_session win.session_id duo ≡ some s)
        × (is_member win.player_id s.player_ids ≡ false)))
    × (((submit_result false (pos 2) win duo).1 ≡ fail already_exists) ↔ (
        (s : Session) × (e : ResultEntry) × (get_session win.session_id duo ≡ some s)
        × (is_member win.player_id s.player_ids ≡ true)
        × (get win.player_id s.results ≡ some e)))
submit_codes_example = submit_codes (pos 2) win duo win_valid

duo_there : get_session "s1" duo ≡ some (new_session (pos 1) "s1" ("ann" ∷ "bob" ∷ []))
unfolding create_session get_session get put
duo_there = refl

nobody_yet : get "ann" (new_session (pos 1) "s1" ("ann" ∷ "bob" ∷ [])).results ≡ none
unfolding get
nobody_yet = refl

submit_unknown_result_example : submit_result false (pos 2) odd duo ≡ (duo, fail internal)
submit_unknown_result_example =
    submit_unknown_result (pos 2) odd duo (new_session (pos 1) "s1" ("ann" ∷ "bob" ∷ [])) odd_valid
      (λ e. ground arith) (λ e. ground arith) (λ e. ground arith) duo_there refl nobody_yet

abbrev win_reply : SubmitResultResponse
win_reply = record { accepted = true; message = "Result recorded successfully."; new_mmr = pos 25 }

win_accepted : (submit_result false (pos 2) win duo).1 ≡ ok win_reply
unfolding submit_result validate create_session record_result check_result get put
win_accepted = refl

submit-get_session_example :
    (s t : Session) × (get_session win.session_id duo ≡ some s)
    × (get_session win.session_id (submit_result false (pos 2) win duo).0 ≡ some t)
    × (t.player_ids ≡ s.player_ids)
    × ((j : String)
        → get j t.results ≡ (
            if win.player_id == j
            then some (record {
              player_id = win.player_id;
              result = win.result;
              score = win.score;
              mmr_delta = win_reply.new_mmr;
            })
            else get j s.results))
submit-get_session_example = submit-get_session (pos 2) win duo win_reply win_accepted

duo_order : List (String × ResultEntry) → List (String × ResultEntry)
duo_order m = m

duo_order-perm : (m : List (String × ResultEntry)) → Permᴰ m (duo_order m)
unfolding duo_order
duo_order-perm m = Permᴰ.refl m

submit-get_session_rpc_example :
    (s : Session) × (r0 r1 : SessionSummary) × (get_session win.session_id duo ≡ some s)
    × (get_session_rpc duo_order (record { session_id = win.session_id }) duo ≡ ok r0)
    × (get_session_rpc duo_order
          (record { session_id = win.session_id })
          (submit_result false (pos 2) win duo).0
        ≡ ok r1)
    × (r1.session_id ≡ r0.session_id)
    × (r1.started_at_ms ≡ r0.started_at_ms)
    × Permᴰ
        (record {
          player_id = win.player_id;
          result = win.result;
          score = win.score;
          mmr_delta = win_reply.new_mmr;
        }
          ∷ r0.results)
        r1.results
    × (r1.finalized
        ≡ (if nat_beq (length r1.results) (length s.player_ids) then true else r0.finalized))
    × (r1.ended_at_ms ≡ (
        if nat_beq (length r1.results) (length s.player_ids)
        then unix_milli (pos 2)
        else r0.ended_at_ms))
submit-get_session_rpc_example =
    submit-get_session_rpc duo_order duo_order duo_order-perm duo_order-perm (pos 2) win duo
      win_reply win_accepted
