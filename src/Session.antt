-- ===== src/Session.antt =====
-- internal/state/session.go: the session records. Pointers to sessions are shared only through the
-- store, so an update through one is an update of the store. Error texts are left out.
pub mod Recording
pub mod Outcomes
pub mod Finality
pub mod History
use fp_insis.Prelude.{
  ℕ, suc, ◌+◌, Bool, true, false, Option, none, some, List, [], ◌∷◌, String, length, get, put,
  if◌then◌else◌, ◌==◌, string_eq, int_eq, ℤ, pos, negsuc, nat_beq, not, ◌||◌,
}

abbrev pub mmr_win_delta : ℤ
mmr_win_delta = pos 25

abbrev pub mmr_loss_delta : ℤ
mmr_loss_delta = negsuc 24

abbrev pub mmr_draw_delta : ℤ
mmr_draw_delta = pos 0

-- The sentinel errors, and the error of the `default` case of the switch.
pub data RecordError : Type 0 where
  session_not_found player_not_in_session duplicate_submission : RecordError
  invalid_result : ℤ → RecordError

pub record ResultEntry : Type 0 where
  pub player_id : String
  pub result : ℤ
  pub score : ℤ
  pub mmr_delta : ℤ

-- Times are nanoseconds since 1970; time.Time{} is the first instant of the year 1.
abbrev pub zero_time : ℤ
zero_time = negsuc 62135596799999999999

pub record Session : Type 0 where
  pub session_id : String
  pub player_ids : List String
  pub results : List (String × ResultEntry)
  pub started_at : ℤ
  pub ended_at : ℤ
  pub finalized : Bool

pub record SessionStore : Type 0 where
  pub sessions : List (String × Session)

abbrev pub new_session_store : SessionStore
new_session_store = record { sessions = [] }

abbrev pub new_session : ℤ → String → List String → Session
new_session now id player_ids = record {
  session_id = id;
  player_ids = player_ids;
  results = [];
  started_at = now;
  ended_at = zero_time;
  finalized = false;
}

unfoldable pub create_session : ℤ → String → List String → SessionStore → SessionStore
create_session now id player_ids ss = record {
  sessions = put id (new_session now id player_ids) ss.sessions;
}

-- The loop that looks for the player among the session's.
abbrev pub is_member : String → List String → Bool
is_member id [] = false
is_member id (x ∷ xs) = x == id || is_member id xs

-- The switch on the result.
abbrev pub delta_of : ℤ → Option ℤ
delta_of result =
    if result == pos 1
    then some mmr_win_delta
    else if result == pos 2
    then some mmr_loss_delta
    else if result == pos 3
    then some mmr_draw_delta
    else none

-- The write of one entry, and the check that closes the session.
unfoldable pub add_entry : ℤ → String → ResultEntry → Session → Session
add_entry now player_id entry s =
    let results' = put player_id entry s.results in
    if nat_beq (length results') (length s.player_ids)
    then record s { results = results'; finalized = true; ended_at = now }
    else record s { results = results' }

pub data RecordReply : Type 0 where
  recorded : ℤ → RecordReply
  rejected : RecordError → RecordReply

-- The checks of RecordResult, in order, on the session that was found.
unfoldable pub check_result : String → ℤ → Session → RecordReply
check_result player_id result s =
    if not (is_member player_id s.player_ids)
    then rejected player_not_in_session
    else elim (get player_id s.results) [
      | some _ ↦ rejected duplicate_submission
      | none ↦ elim (delta_of result) [
        | none ↦ rejected (invalid_result result)
        | some delta ↦ recorded delta
      ]
    ]

unfoldable pub record_result :
    ℤ → String → String → ℤ → ℤ → SessionStore → SessionStore × RecordReply
unfolding check_result
record_result now session_id player_id result score ss = elim (get session_id ss.sessions) [
  | none ↦ (ss, rejected session_not_found)
  | some s ↦ elim (check_result player_id result s) [
    | rejected e ↦ (ss, rejected e)
    | recorded delta ↦
        let entry : ResultEntry = record {
          player_id = player_id;
          result = result;
          score = score;
          mmr_delta = delta;
        } in
        (
          record { sessions = put session_id (add_entry now player_id entry s) ss.sessions },
          recorded delta,
        )
  ]
]

unfoldable pub get_session : String → SessionStore → Option Session
get_session id ss = get id ss.sessions

-- The count over the map, whose order does not matter to it.
unfoldable pub count_active : List (String × Session) → ℕ
count_active [] = 0
count_active ((_, s) ∷ m) = (if s.finalized then 0 else 1) + count_active m

unfoldable pub active_count : SessionStore → ℕ
unfolding count_active
active_count ss = count_active ss.sessions
