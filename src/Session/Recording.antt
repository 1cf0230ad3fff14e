-- ===== src/Session/Recording.antt =====
-- What CreateSession and RecordResult of internal/state/session.go do, branch by branch.
use fp_insis.Prelude.{
  ◌≡◌, ◌↔◌, ◌⊎◌, inl, inr, true, none, some, String, arith, get, get-put, if◌then◌else◌, ◌==◌,
  string_eq, int_eq, ℤ, pos, Option-cases,
}
use text.Mathlib.TextEquality.{eq_iff}
use fp_insis.Session.{
  RecordError, session_not_found, duplicate_submission, Session, SessionStore, recorded, rejected,
  is_member, delta_of, add_entry, check_result, record_result, get_session, mmr_win_delta,
  mmr_loss_delta, mmr_draw_delta,
}

module _ (now : ℤ) (sid pid : String) (result score : ℤ) (ss : SessionStore) where
  -- A rejected result leaves every session as it was, and which error is returned says which check
  -- failed first.
  pub record_rejected :
      (e : RecordError)
      → (record_result now sid pid result score ss).1 ≡ rejected e
      → ((record_result now sid pid result score ss).0 ≡ ss)
        × (((e ≡ session_not_found) × (get_session sid ss ≡ none))
            ⊎ ((s : Session) × (get_session sid ss ≡ some s)
                × (check_result pid result s ≡ rejected e)))
  unfolding record_result get_session
  record_rejected e h = elim (Option-cases (get sid ss.sessions)) [
    | inl missing ↦ (ground arith, inl (ground arith, missing))
    | inr (s, found) ↦ (ground arith, inr (s, found, ground arith))
  ]

  -- A recorded result: the session exists and has the player, who had not submitted; the reply is
  -- the rating change of the result; and only that session changes, only in that player's entry and
  -- in whether it is closed.
  pub record_recorded :
      (d : ℤ)
      → (record_result now sid pid result score ss).1 ≡ recorded d
      → (s : Session) × (get_session sid ss ≡ some s)
        × (is_member pid s.player_ids ≡ true)
        × (get pid s.results ≡ none)
        × (delta_of result ≡ some d)
        × ((j : String)
            → get_session j (record_result now sid pid result score ss).0 ≡ (
                if sid == j
                then some (
                    add_entry now pid
                      (record { player_id = pid; result = result; score = score; mmr_delta = d })
                      s)
                else get_session j ss))
  unfolding record_result get_session
  record_recorded d h = elim (Option-cases (get sid ss.sessions)) [
    | inl missing ↦ absurd (ground arith)
    | inr (s, found) ↦ (
      s,
      found,
      ground arith,
      ground arith,
      ground arith,
      λ j. ground (
        arith,
        get-put sid j
            (add_entry now pid
              (record { player_id = pid; result = result; score = score; mmr_delta = d }) s)
            ss.sessions,
      ),
    )
  ]

-- A result that was recorded cannot be submitted again, whatever it says.
pub record_twice :
    (now later : ℤ) (sid pid : String) (result score result' score' : ℤ) (ss : SessionStore) (d : ℤ)
    → (record_result now sid pid result score ss).1 ≡ recorded d
    → let ss' = (record_result now sid pid result score ss).0 in
      record_result later sid pid result' score' ss' ≡ (ss', rejected duplicate_submission)
unfolding record_result get_session add_entry
record_twice now later sid pid result score result' score' ss d h =
    let (s, found, member, new, delta, after) = record_recorded now sid pid result score ss d h in
    ground (
      arith,
      after sid,
      eq_iff sid sid,
      get-put pid pid (record { player_id = pid; result = result; score = score; mmr_delta = d })
          s.results,
      eq_iff pid pid,
    )

-- The switch knows three results.
pub delta_of_iff :
    (result d : ℤ)
    → (delta_of result ≡ some d) ↔ (
        ((result ≡ pos 1) × (d ≡ mmr_win_delta))
        ⊎ ((result ≡ pos 2) × (d ≡ mmr_loss_delta))
        ⊎ ((result ≡ pos 3) × (d ≡ mmr_draw_delta)))
delta_of_iff result d = ground arith
