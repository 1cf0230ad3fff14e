-- ===== src/Session/Outcomes.antt =====
-- RecordResult of internal/state/session.go, against what its caller may rely on.
use fp_insis.Prelude.{
  ℕ, zero, suc, ◌+◌, ◌≡◌, ap, ◌∙◌, ◌≢◌, ◌↔◌, ◌⊎◌, inl, inr, true, none, some, List, [], ◌∷◌, String,
  arith, get, get-put, get_elem?, length, length-put_new, if◌then◌else◌, ◌==◌, string_eq, int_eq, ℤ,
  pos, negsuc, nat_beq, Option-cases, Bool-cases,
}
use text.Mathlib.TextEquality.{eq_iff}
use fp_insis.Session.{
  RecordError, session_not_found, player_not_in_session, duplicate_submission, invalid_result,
  ResultEntry, Session, SessionStore, recorded, rejected, is_member, add_entry, check_result,
  record_result, get_session,
}
use fp_insis.Session.Recording.{record_recorded, delta_of_iff}

-- The player stands among these.
abbrev pub Listed : String → List String → Type 0
Listed id ids = (k : ℕ) × (get_elem? ids k ≡ some id)

listed : (id : String) (ids : List String) → is_member id ids ≡ true → Listed id ids
listed id [] h = absurd (cc)
listed id (x ∷ xs) h = elim (Bool-cases (x == id)) [
  | inl e ↦
      let same : x ≡ id = ground (arith, eq_iff x id) in (zero, ap (λ (y : String). some y) same)
  | inr e ↦ let (k, at) = listed id xs (ground arith) in (suc k, at)
]

member :
    (id : String) (ids : List String) (k : ℕ) → get_elem? ids k ≡ some id → is_member id ids ≡ true
member id [] k h = absurd (cc)
member id (x ∷ xs) zero h = ground (arith, eq_iff x id)
member id (x ∷ xs) (suc k) h = ground (arith, member id xs k h)

-- The rating change that each result earns.
abbrev pub Earns : ℤ → ℤ → Type 0
Earns result d =
    ((result ≡ pos 1) × (d ≡ pos 25))
    ⊎ ((result ≡ pos 2) × (d ≡ negsuc 24))
    ⊎ ((result ≡ pos 3) × (d ≡ pos 0))

-- A session before and after the entry of one player.
pub record HasEntered (now : ℤ) (pid : String) (result score d : ℤ) (s t : Session) : Type 0 where
  pub id : t.session_id ≡ s.session_id
  pub players : t.player_ids ≡ s.player_ids
  pub began : t.started_at ≡ s.started_at
  pub entries :
      (j : String)
      → get j t.results ≡ (
          if pid == j
          then some (record { player_id = pid; result = result; score = score; mmr_delta = d })
          else get j s.results)
  pub one_more : length t.results ≡ length s.results + 1
  pub closed :
      t.finalized
      ≡ (if nat_beq (length s.results + 1) (length s.player_ids) then true else s.finalized)
  pub ended :
      t.ended_at
      ≡ (if nat_beq (length s.results + 1) (length s.player_ids) then now else s.ended_at)

pub add_entry-HasEntered :
    (now : ℤ) (pid : String) (result score d : ℤ) (s : Session)
    → get pid s.results ≡ none
    → HasEntered now pid result score d s (
        add_entry now pid
          (record { player_id = pid; result = result; score = score; mmr_delta = d })
          s)
unfolding add_entry
add_entry-HasEntered now pid result score d s new =
    let e : ResultEntry = record {
      player_id = pid;
      result = result;
      score = score;
      mmr_delta = d;
    } in
    let more = length-put_new pid e s.results new in
    record {
      id = ground arith;
      players = ground arith;
      began = ground arith;
      entries = λ j. ground (arith, get-put pid j e s.results);
      one_more = ground (arith, more);
      closed = ground (arith, more);
      ended = ground (arith, more);
    }

module _ (now : ℤ) (sid pid : String) (result score : ℤ) (ss : SessionStore) where
  -- A recorded result: the session exists and lists the player, who had not submitted; the reply is 25
  -- for a win, -25 for a loss and 0 for a draw; the session gets the player's entry, keeps every other
  -- one, and is closed, with the time, when it then has as many entries as players; every other
  -- session is as it was.
  pub record_result-recorded :
      (d : ℤ)
      → (record_result now sid pid result score ss).1 ≡ recorded d
      → (s t : Session) × (get_session sid ss ≡ some s)
        × (get_session sid (record_result now sid pid result score ss).0 ≡ some t)
        × Listed pid s.player_ids
        × (get pid s.results ≡ none)
        × Earns result d
        × HasEntered now pid result score d s t
        × ((j : String)
            → get_session j (record_result now sid pid result score ss).0
              ≡ (if sid == j then some t else get_session j ss))
  record_result-recorded d h =
      let (s, found, is_m, new, delta, after) = record_recorded now sid pid result score ss d h in
      (
        s,
        _,
        found,
        after sid ∙ ground (arith, eq_iff sid sid),
        listed pid s.player_ids is_m,
        new,
        (delta_of_iff result d).0 delta,
        add_entry-HasEntered now pid result score d s new,
        after,
      )

  -- Why each error is returned.
  abbrev pub Reason : RecordError → Type 0
  Reason session_not_found = get_session sid ss ≡ none
  Reason player_not_in_session =
      (s : Session) × (get_session sid ss ≡ some s) × (Listed pid s.player_ids → ⊥)
  Reason duplicate_submission =
      (s : Session) × (e : ResultEntry) × (get_session sid ss ≡ some s)
      × Listed pid s.player_ids
      × (get pid s.results ≡ some e)
  Reason (invalid_result r) =
      (s : Session) × (get_session sid ss ≡ some s)
      × Listed pid s.player_ids
      × (get pid s.results ≡ none)
      × (r ≡ result)
      × (result ≢ pos 1)
      × (result ≢ pos 2)
      × (result ≢ pos 3)

  -- Each error is returned for its own reason and for no other, and leaves every session as it was: no
  -- such session; else the player is not listed in it; else the player has an entry; else the result is
  -- none of the three.
  pub record_result-rejected :
      (e : RecordError)
      → ((record_result now sid pid result score ss).1 ≡ rejected e)
        ↔ (((record_result now sid pid result score ss).0 ≡ ss) × Reason e)
  unfolding record_result get_session check_result
  record_result-rejected session_not_found = (
    λ h. elim (Option-cases (get sid ss.sessions)) [
      | inl n ↦ (ground arith, n)
      | inr (s, f) ↦ absurd (ground arith)
    ],
    λ h. ground (arith, h.1),
  )
  record_result-rejected player_not_in_session = (
    λ h. elim (Option-cases (get sid ss.sessions)) [
      | inl n ↦ absurd (ground arith)
      | inr (s, f) ↦
          (ground arith, (s, f, λ at. let m = member pid s.player_ids at.0 at.1 in ground arith))
    ],
    λ h.
        let (s, f, out) = h.1 in
        elim (Bool-cases (is_member pid s.player_ids)) [
          | inl m ↦ absurd (out (listed pid s.player_ids m))
          | inr n ↦ ground arith
        ],
  )
  record_result-rejected duplicate_submission = (
    λ h. elim (Option-cases (get sid ss.sessions)) [
      | inl n ↦ absurd (ground arith)
      | inr (s, f) ↦ elim (Option-cases (get pid s.results)) [
        | inl n ↦ absurd (ground arith)
        | inr (x, at) ↦ (ground arith, (s, x, f, listed pid s.player_ids (ground arith), at))
      ]
    ],
    λ h. let (s, x, f, l, at) = h.1 in let m = member pid s.player_ids l.0 l.1 in ground arith,
  )
  record_result-rejected (invalid_result r) = (
    λ h. elim (Option-cases (get sid ss.sessions)) [
      | inl n ↦ absurd (ground arith)
      | inr (s, f) ↦ elim (Option-cases (get pid s.results)) [
        | inl n ↦ (
          ground arith,
          (
            s,
            f,
            listed pid s.player_ids (ground arith),
            n,
            ground arith,
            λ e. ground arith,
            λ e. ground arith,
            λ e. ground arith,
          ),
        )
        | inr (x, at) ↦ absurd (ground arith)
      ]
    ],
    λ h.
        let (s, f, l, n, same, a, b, c) = h.1 in
        let m = member pid s.player_ids l.0 l.1 in ground (arith, a, b, c),
  )
