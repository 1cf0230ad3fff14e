-- ===== src/Session/History.antt =====
-- Any sequence of CreateSession and RecordResult calls, from an empty store.
use fp_insis.Prelude.{
  subst, ℕ, ◌+◌, ◌≡◌, ◌↔◌, refl, ◌⊎◌, inl, inr, ◌≢◌, true, Option, none, some, List, [], ◌∷◌,
  String, arith, length, get, put, get-put, if◌then◌else◌, ◌==◌, string_eq, ℤ, Bool-cases, All,
}
use fp_insis.Session.{
  ResultEntry, Session, SessionStore, new_session_store, new_session, create_session, record_result,
  RecordError, is_member, delta_of, get_session, add_entry, active_count, count_active, RecordReply,
  recorded, rejected, check_result,
}
use fp_insis.Session.Recording.{record_recorded, record_rejected}
use fp_insis.Session.Finality.{
  IsSound, NamesDistinct, new_session-IsSound, add_entry-IsSound, has_submitted, finalized_iff,
}

pub data Call : Type 0 where
  creates : ℤ → String → List String → Call
  records : ℤ → String → String → ℤ → ℤ → Call

unfoldable pub step : SessionStore → Call → SessionStore
step ss (creates now id ids) = create_session now id ids ss
step ss (records now sid pid result score) = (record_result now sid pid result score ss).0

unfoldable pub run : SessionStore → List Call → SessionStore
run ss [] = ss
run ss (c ∷ cs) = run (step ss c) cs

-- The coordinator creates sessions of different players, and of at least one.
abbrev pub Fits : Call → Type 0
Fits (creates now id ids) = NamesDistinct ids × (length ids ≢ 0)
Fits (records now sid pid result score) = Unit

pub record AllSound (ss : SessionStore) : Type 0 where
  pub at : (id : String) (s : Session) → get_session id ss ≡ some s → IsSound s

pub create_session_lem :
    (now : ℤ) (id j : String) (ids : List String) (ss : SessionStore)
    → get_session j (create_session now id ids ss)
      ≡ (if id == j then some (new_session now id ids) else get_session j ss)
unfolding create_session get_session
create_session_lem now id j ids ss = get-put id j (new_session now id ids) ss.sessions

passes :
    (id : String) (result d : ℤ) (s : Session)
    → is_member id s.player_ids ≡ true
    → get id s.results ≡ none
    → delta_of result ≡ some d
    → check_result id result s ≡ recorded d
unfolding check_result
passes id result d s m n e = ground arith

RecordReply-cases :
    (r : RecordReply) → ((d : ℤ) × (r ≡ recorded d)) ⊎ ((e : RecordError) × (r ≡ rejected e))
RecordReply-cases (recorded d) = inl (d, refl)
RecordReply-cases (rejected e) = inr (e, refl)

create-AllSound :
    (now : ℤ) (id : String) (ids : List String) (ss : SessionStore)
    → NamesDistinct ids
    → length ids ≢ 0
    → AllSound ss
    → AllSound (create_session now id ids ss)
create-AllSound now id ids ss d n v = record {
  at = λ j s h. elim (Bool-cases (id == j)) [
    | inl e ↦
        let same : new_session now id ids ≡ s =
          ground (arith, create_session_lem now id j ids ss) in
        subst IsSound same (new_session-IsSound now id ids d n)
    | inr e ↦ v.at j s (ground (arith, create_session_lem now id j ids ss))
  ];
}

record-AllSound :
    (now : ℤ) (sid pid : String) (result score : ℤ) (ss : SessionStore)
    → AllSound ss
    → AllSound (record_result now sid pid result score ss).0
record-AllSound now sid pid result score ss v =
    elim (RecordReply-cases (record_result now sid pid result score ss).1) [
      | inr (e, r) ↦ rw ((record_rejected now sid pid result score ss e r).0) v
      | inl (d, r) ↦
          let (s, found, member, new, delta, after) =
            record_recorded now sid pid result score ss d r in
          let entry : ResultEntry = record {
            player_id = pid;
            result = result;
            score = score;
            mmr_delta = d;
          } in
          record {
            at = λ j t h. elim (Bool-cases (sid == j)) [
              | inl e ↦
                  let same : add_entry now pid entry s ≡ t = ground (arith, after j) in
                  subst IsSound same (
                    add_entry-IsSound now pid result score d s
                      (passes pid result d s member new delta) (v.at sid s found))
              | inr e ↦ v.at j t (ground (arith, after j))
            ];
          }
    ]

pub step-AllSound : (ss : SessionStore) (c : Call) → Fits c → AllSound ss → AllSound (step ss c)
unfolding step
step-AllSound ss (creates now id ids) fits v = create-AllSound now id ids ss fits.0 fits.1 v
step-AllSound ss (records now sid pid result score) fits v =
    record-AllSound now sid pid result score ss v

run-AllSound :
    (ss : SessionStore) (cs : List Call) → All Fits cs → AllSound ss → AllSound (run ss cs)
unfolding run
run-AllSound ss [] fits v = v
run-AllSound ss (c ∷ cs) fits v = run-AllSound (step ss c) cs fits.1 (step-AllSound ss c fits.0 v)

-- After any calls that start from an empty store, and make sessions of one or more different players
-- only, a session is finalized exactly when each of its
-- players has submitted, and each entry is a player's, with the change that its result earns.
pub history_finalized :
    (cs : List Call) (id : String) (s : Session)
    → All Fits cs
    → get_session id (run new_session_store cs) ≡ some s
    → ((s.finalized ≡ true) ↔ All (λ pid. has_submitted pid s.results ≡ true) s.player_ids)
      × ((pid : String) (e : ResultEntry)
          → get pid s.results ≡ some e
          → (is_member pid s.player_ids ≡ true) × (delta_of e.result ≡ some e.mmr_delta))
history_finalized cs id s fits h =
    (finalized_iff s sound, λ pid e g. let (_, m, d) = sound.entries pid e g in (m, d))
  where
    empty : AllSound new_session_store
    empty = record { at = λ j t g. absurd (unfold get_session get in cc) }

    sound : IsSound s
    sound = (run-AllSound new_session_store cs fits empty).at id s h

abbrev active : Option Session → ℕ
active none = 0
active (some s) = if s.finalized then 0 else 1

count_active-put :
    (id : String) (s : Session) (m : List (String × Session))
    → count_active (put id s m) + active (get id m) ≡ count_active m + active (some s)
unfolding count_active put get
count_active-put id s [] = ground arith
count_active-put id s ((j, t) ∷ m) = ground (arith, count_active-put id s m)

-- A session under a new id is one more active session.
pub active_count-create :
    (now : ℤ) (id : String) (ids : List String) (ss : SessionStore)
    → get_session id ss ≡ none
    → active_count (create_session now id ids ss) ≡ active_count ss + 1
unfolding active_count create_session get_session
active_count-create now id ids ss h =
    ground (arith, count_active-put id (new_session now id ids) ss.sessions)
