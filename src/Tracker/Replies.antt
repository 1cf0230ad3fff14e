-- ===== src/Tracker/Replies.antt =====
-- The replies of SubmitResult and GetSession of internal/services/tracker.go.
use fp_insis.Prelude.{
  ◌≡◌, ◌↔◌, inl, inr, ◌≢◌, Bool, true, false, none, some, String, arith, get, get-put,
  if◌then◌else◌, ◌==◌, string_eq, int_eq, ℤ, pos, Option-cases, ltb_ℤ,
}
use text.Mathlib.TextEquality.{eq_iff}
use fp_insis.Status.{ok, fail, Code, not_found, permission_denied, already_exists, internal}
use fp_insis.Pb.{SubmitResultRequest, SubmitResultResponse, match_result_unspecified}
use fp_insis.Session.{
  SessionStore, Session, ResultEntry, record_result, get_session, is_member, check_result,
  add_entry,
}
use fp_insis.Session.Recording.{record_recorded}
use fp_insis.Session.Finality.{add_entry_fields}
use fp_insis.Tracker.{validate, submit_result}

-- A request passes validation exactly when the ids are there, the result is given and the duration
-- is not negative.
pub validate_iff :
    (req : SubmitResultRequest)
    → (validate req ≡ none) ↔ (
        (req.session_id ≢ "")
        × (req.player_id ≢ "")
        × (req.result ≢ match_result_unspecified)
        × (ltb_ℤ req.duration_s (pos 0) ≡ false))
unfolding validate
validate_iff req = ground (arith, eq_iff req.session_id "", eq_iff req.player_id "")

-- Any refusal leaves the sessions as they were.
pub submit_refused :
    (expired : Bool) (now : ℤ) (req : SubmitResultRequest) (ss : SessionStore) (c : Code)
    → (submit_result expired now req ss).1 ≡ fail c
    → (submit_result expired now req ss).0 ≡ ss
unfolding submit_result record_result
submit_refused expired now req ss c h = ground arith

module _ (now : ℤ) (req : SubmitResultRequest) (ss : SessionStore)
    (valid : validate req ≡ none) where
  missing :
      ((submit_result false now req ss).1 ≡ fail not_found) ↔ (get_session req.session_id ss ≡ none)
  unfolding submit_result record_result get_session check_result
  missing = (λ h. ground arith, λ h. ground arith)

  outside : ((submit_result false now req ss).1 ≡ fail permission_denied) ↔ (
      (s : Session) × (get_session req.session_id ss ≡ some s)
      × (is_member req.player_id s.player_ids ≡ false))
  unfolding submit_result record_result get_session check_result
  outside = (
    λ h. elim (Option-cases (get req.session_id ss.sessions)) [
      | inl e ↦ absurd (ground arith)
      | inr (s, e) ↦ (s, e, ground arith)
    ],
    λ h. ground (arith, h.1),
  )

  again : ((submit_result false now req ss).1 ≡ fail already_exists) ↔ (
      (s : Session) × (e : ResultEntry) × (get_session req.session_id ss ≡ some s)
      × (is_member req.player_id s.player_ids ≡ true)
      × (get req.player_id s.results ≡ some e))
  unfolding submit_result record_result get_session check_result
  again = (
    λ h. elim (Option-cases (get req.session_id ss.sessions)) [
      | inl e ↦ absurd (ground arith)
      | inr (s, e) ↦ elim (Option-cases (get req.player_id s.results)) [
        | inl n ↦ absurd (ground arith)
        | inr (x, ex) ↦ (s, x, e, ground arith, ex)
      ]
    ],
    λ h. ground (arith, h.2),
  )

  -- A valid request in time is answered with NOT_FOUND exactly when there is no such session, with
  -- PERMISSION_DENIED exactly when the session is not the player's, and with ALREADY_EXISTS exactly
  -- when the player has submitted to it before.
  pub submit_codes :
      (((submit_result false now req ss).1 ≡ fail not_found)
        ↔ (get_session req.session_id ss ≡ none))
      × (((submit_result false now req ss).1 ≡ fail permission_denied) ↔ (
          (s : Session) × (get_session req.session_id ss ≡ some s)
          × (is_member req.player_id s.player_ids ≡ false)))
      × (((submit_result false now req ss).1 ≡ fail already_exists) ↔ (
          (s : Session) × (e : ResultEntry) × (get_session req.session_id ss ≡ some s)
          × (is_member req.player_id s.player_ids ≡ true)
          × (get req.player_id s.results ≡ some e)))
  submit_codes = (missing, outside, again)

-- A request that passes validation with a number that is no MatchResult, from a player of the session
-- who has not submitted, is answered as an internal error and changes nothing.
pub submit_unknown_result :
    (now : ℤ) (req : SubmitResultRequest) (ss : SessionStore) (s : Session)
    → validate req ≡ none
    → req.result ≢ pos 1
    → req.result ≢ pos 2
    → req.result ≢ pos 3
    → get_session req.session_id ss ≡ some s
    → is_member req.player_id s.player_ids ≡ true
    → get req.player_id s.results ≡ none
    → submit_result false now req ss ≡ (ss, fail internal)
unfolding submit_result record_result get_session check_result
submit_unknown_result now req ss s v a b c h m g = ground arith

-- An accepted result is what GetSession then finds of the player, in a session of the same id and
-- players: the request's result and score, and the change that the reply gave.
pub submit-get_session :
    (now : ℤ) (req : SubmitResultRequest) (ss : SessionStore) (r : SubmitResultResponse)
    → (submit_result false now req ss).1 ≡ ok r
    → (s t : Session) × (get_session req.session_id ss ≡ some s)
      × (get_session req.session_id (submit_result false now req ss).0 ≡ some t)
      × (t.player_ids ≡ s.player_ids)
      × ((j : String)
          → get j t.results ≡ (
              if req.player_id == j
              then some (record {
                player_id = req.player_id;
                result = req.result;
                score = req.score;
                mmr_delta = r.new_mmr;
              })
              else get j s.results))
unfolding submit_result
submit-get_session now req ss r h =
    let (s, found, member, new, delta, after) =
      record_recorded now req.session_id req.player_id req.result req.score ss r.new_mmr
        (ground arith) in
    let entry : ResultEntry = record {
      player_id = req.player_id;
      result = req.result;
      score = req.score;
      mmr_delta = r.new_mmr;
    } in
    let (ids, res, _) = add_entry_fields now req.player_id entry s in
    (
      s,
      add_entry now req.player_id entry s,
      found,
      ground (arith, after req.session_id, eq_iff req.session_id req.session_id),
      ids,
      λ j. ground (arith, res, get-put req.player_id j entry s.results),
    )
