-- ===== src/Tracker.antt =====
-- internal/services/tracker.go: the SessionTrackerService over the session store.
pub mod Replies
pub mod Summaries
use fp_insis.Prelude.{
  ℕ, Bool, true, false, Option, none, some, List, [], ◌∷◌, String, map, if◌then◌else◌, ◌==◌,
  string_eq, int_eq, ℤ, pos, negsuc, ltb_ℤ,
}
use fp_insis.Runtime.{unix_milli}
use fp_insis.Status.{
  Reply, ok, fail, Code, invalid_argument, deadline_exceeded, not_found, permission_denied,
  already_exists, internal,
}
use fp_insis.Pb.{
  SubmitResultRequest, SubmitResultResponse, GetSessionRequest, SessionSummary, PlayerResult,
  match_result_unspecified,
}
use fp_insis.Session.{
  SessionStore, Session, ResultEntry, RecordReply, recorded, rejected, RecordError,
  session_not_found, player_not_in_session, duplicate_submission, invalid_result, record_result,
  get_session,
}

-- The payload validation, in order: `none` where the request passes.
unfoldable pub validate : SubmitResultRequest → Option Code
validate req =
    if req.session_id == ""
    then some invalid_argument
    else if req.player_id == ""
    then some invalid_argument
    else if req.result == match_result_unspecified
    then some invalid_argument
    else if ltb_ℤ req.duration_s (pos 0)
    then some invalid_argument
    else none

-- The switch over errors.Is.
abbrev pub code_of : RecordError → Code
code_of session_not_found = not_found
code_of player_not_in_session = permission_denied
code_of duplicate_submission = already_exists
code_of (invalid_result result) = internal

-- `expired` is whether ctx.Err() is set when the handler looks.
unfoldable pub submit_result :
    Bool → ℤ → SubmitResultRequest → SessionStore → SessionStore × Reply SubmitResultResponse
submit_result expired now req ss = elim (validate req) [
  | some code ↦ (ss, fail code)
  | none ↦
      if expired
      then (ss, fail deadline_exceeded)
      else let (ss', reply) =
          record_result now req.session_id req.player_id req.result req.score ss in
        elim reply [
          | rejected e ↦ (ss', fail (code_of e))
          | recorded delta ↦ (
            ss',
            ok (record {
              accepted = true;
              message = "Result recorded successfully.";
              new_mmr = delta;
            }),
          )
        ]
]

abbrev pub player_result : String × ResultEntry → PlayerResult
player_result (_, r) = record {
  player_id = r.player_id;
  result = r.result;
  score = r.score;
  mmr_delta = r.mmr_delta;
}

-- `order` is the order in which `range` visits the results.
unfoldable pub get_session_rpc :
    (List (String × ResultEntry) → List (String × ResultEntry))
    → GetSessionRequest
    → SessionStore
    → Reply SessionSummary
get_session_rpc order req ss =
    if req.session_id == "" then fail invalid_argument else elim (get_session req.session_id ss) [
      | none ↦ fail not_found
      | some s ↦ ok (record {
        session_id = s.session_id;
        results = map player_result (order s.results);
        started_at_ms = unix_milli s.started_at;
        ended_at_ms = unix_milli s.ended_at;
        finalized = s.finalized;
      })
    ]
