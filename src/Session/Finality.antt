-- ===== src/Session/Finality.antt =====
-- When a session is finalized: exactly when every player has submitted.
use fp_insis.Prelude.{
  ℕ, ◌+◌, ◌≡◌, ◌↔◌, refl, ◌≢◌, Bool, true, false, none, some, List, [], ◌∷◌, String, arith, length,
  get, put, get-put, length-put_new, if◌then◌else◌, string_eq, ℤ, nat_beq, All,
}
use text.Mathlib.TextEquality.{eq_iff}
use fp_insis.Session.{
  ResultEntry, Session, is_member, delta_of, add_entry, new_session, check_result, recorded,
}

abbrev pub has_submitted : String → List (String × ResultEntry) → Bool
has_submitted id m = elim (get id m) [ none ↦ false | some _ ↦ true ]

-- How many of the players have not submitted.
pub pending : List (String × ResultEntry) → List String → ℕ
pending m [] = 0
pending m (x ∷ xs) = (if has_submitted x m then 0 else 1) + pending m xs

abbrev pub NamesDistinct : List String → Type 0
NamesDistinct [] = Unit {0}
NamesDistinct (x ∷ xs) = (is_member x xs ≡ false) × NamesDistinct xs

-- What holds of a session at all times: its players differ, its entries are theirs, with the change
-- that the result earns, and it is closed when there are as many entries as players.
pub record IsSound (s : Session) : Type 0 where
  pub players : NamesDistinct s.player_ids
  pub some_player : length s.player_ids ≢ 0
  pub counted : length s.results + pending s.results s.player_ids ≡ length s.player_ids
  pub closed : s.finalized ≡ nat_beq (length s.results) (length s.player_ids)
  pub entries :
      (id : String) (e : ResultEntry)
      → get id s.results ≡ some e
      → (e.player_id ≡ id)
        × (is_member id s.player_ids ≡ true)
        × (delta_of e.result ≡ some e.mmr_delta)

pending-nil : (xs : List String) → pending [] xs ≡ length xs
unfolding pending get
pending-nil [] = refl
pending-nil (x ∷ xs) = omega (arith, pending-nil xs)

pub new_session-IsSound :
    (now : ℤ) (id : String) (xs : List String)
    → NamesDistinct xs
    → length xs ≢ 0
    → IsSound (new_session now id xs)
unfolding get
new_session-IsSound now id xs d n = record {
  players = d;
  some_player = n;
  counted = omega (arith, pending-nil xs);
  closed = ground arith;
  entries = λ j e h. absurd (cc);
}

pending-put_other :
    (id : String) (e : ResultEntry) (m : List (String × ResultEntry)) (xs : List String)
    → is_member id xs ≡ false
    → pending (put id e m) xs ≡ pending m xs
unfolding pending
pending-put_other id e m [] h = refl
pending-put_other id e m (x ∷ xs) h =
    ground (arith, pending-put_other id e m xs, get-put id x e m, eq_iff id x, eq_iff x id)

pending-put :
    (id : String) (e : ResultEntry) (m : List (String × ResultEntry)) (xs : List String)
    → NamesDistinct xs
    → get id m ≡ none
    → is_member id xs ≡ true
    → pending (put id e m) xs + 1 ≡ pending m xs
unfolding pending
pending-put id e m [] d new h = absurd (cc)
pending-put id e m (x ∷ xs) d new h = ground (
  arith,
  pending-put id e m xs d.1 new,
  pending-put_other id e m xs,
  get-put id x e m,
  eq_iff id x,
  eq_iff x id,
)

pub add_entry_fields :
    (now : ℤ) (id : String) (e : ResultEntry) (s : Session)
    → let t = add_entry now id e s in
      (t.player_ids ≡ s.player_ids)
      × (t.results ≡ put id e s.results)
      × (t.finalized ≡ (
          if nat_beq (length (put id e s.results)) (length s.player_ids)
          then true
          else s.finalized))
unfolding add_entry
add_entry_fields now id e s = (ground arith, ground arith, ground arith)

-- What the checks of RecordResult let pass.
check_result_passed :
    (id : String) (result d : ℤ) (s : Session)
    → check_result id result s ≡ recorded d
    → (is_member id s.player_ids ≡ true) × (get id s.results ≡ none) × (delta_of result ≡ some d)
unfolding check_result
check_result_passed id result d s ok = (ground arith, ground arith, ground arith)

pub add_entry-IsSound :
    (now : ℤ) (id : String) (result score d : ℤ) (s : Session)
    → check_result id result s ≡ recorded d
    → IsSound s
    → IsSound (
        add_entry now id
          (record { player_id = id; result = result; score = score; mmr_delta = d })
          s)
add_entry-IsSound now id result score d s ok v = record {
  players = rw ids v.players;
  some_player = rw ids v.some_player;
  counted = rw (ids, res) (omega (arith, v.counted, fewer, longer));
  closed = rw (fin, ids, res) (ground (arith, v.closed, v.counted, fewer, longer));
  entries =
      rw (ids, res)
        λ j x h. ground (arith, get-put id j e s.results, v.entries j x, passed, eq_iff id j);
}
  where
    e : ResultEntry
    e = record { player_id = id; result = result; score = score; mmr_delta = d }

    passed :
        (is_member id s.player_ids ≡ true) × (get id s.results ≡ none) × (delta_of result ≡ some d)
    passed = check_result_passed id result d s ok

    ids : (add_entry now id e s).player_ids ≡ s.player_ids
    ids = (add_entry_fields now id e s).0

    res : (add_entry now id e s).results ≡ put id e s.results
    res = (add_entry_fields now id e s).1

    fin : (add_entry now id e s).finalized ≡ (
        if nat_beq (length (put id e s.results)) (length s.player_ids) then true else s.finalized)
    fin = (add_entry_fields now id e s).2

    fewer : pending (put id e s.results) s.player_ids + 1 ≡ pending s.results s.player_ids
    fewer = pending-put id e s.results s.player_ids v.players passed.1 passed.0

    longer : length (put id e s.results) ≡ length s.results + 1
    longer = length-put_new id e s.results passed.1

pending-zero_iff :
    (m : List (String × ResultEntry)) (xs : List String)
    → (pending m xs ≡ 0) ↔ All (λ x. has_submitted x m ≡ true) xs
unfolding pending
pending-zero_iff m [] = (λ _. tt, λ _. refl)
pending-zero_iff m (x ∷ xs) = (
  λ h. (ground arith, (pending-zero_iff m xs).0 (ground arith)),
  λ h. ground (arith, (pending-zero_iff m xs).1 h.1),
)

-- A session is finalized exactly when each of its players has submitted a result.
pub finalized_iff :
    (s : Session)
    → IsSound s
    → (s.finalized ≡ true) ↔ All (λ id. has_submitted id s.results ≡ true) s.player_ids
finalized_iff s v = (
  λ h. (pending-zero_iff s.results s.player_ids).0 (ground (arith, v.closed, v.counted)),
  λ h. ground (arith, v.closed, v.counted, (pending-zero_iff s.results s.player_ids).1 h),
)
