-- ===== src/Matchmaker/Opening.antt =====
-- What opening a room leaves behind, and what a tick can have done when it ends.
use fp_insis.Prelude.{
  ℕ, ◌+◌, ◌≤◌, ◌≡◌, refl, ap, ◌∙◌, Bool, true, none, some, List, [], ◌∷◌, ◌++◌, String, arith,
  length, get, All, All-map, if◌then◌else◌, string_eq, nat_eq,
}
use fp_insis.Runtime.{Floats}
use fp_insis.Chan.{Chans, is_open}
use fp_insis.Pool.{QueuedPlayer, Pool, players_per_match, has_id, size}
use fp_insis.Pool.Slices.{IdsDistinct}
use fp_insis.Pool.Extract.{extract_match}
use fp_insis.Pool.Extract.Match.{IsMatch, extract_some}
use fp_insis.Pool.Queueing.{IsSafe}
use fp_insis.Coordinator.{ids_of}
use fp_insis.Coordinator.Verdict.{NumbersDistinct}
use fp_insis.Matchmaker.{Round, Room, Engine, make_room_chans, open_room}
use fp_insis.Matchmaker.Rooms.{Unmade, Extends, MadeFresh, make_room_chans_lem, notify_lem}

-- A room of ten, with a channel of each kind for each player, made since `h` and still empty.
pub record IsOpened (h g : Chans Bool) (room : Room) : Type 0 where
  pub full : length room.players ≡ players_per_match
  pub responses : length room.response_chs ≡ players_per_match
  pub results : length room.result_chs ≡ players_per_match
  pub distinct : NumbersDistinct room.result_chs
  pub fresh_responses : All (MadeFresh h g) room.response_chs
  pub fresh_results : All (MadeFresh h g) room.result_chs

-- All the players of some rooms, in order.
abbrev pub seated : List Room → List QueuedPlayer
seated [] = []
seated (r ∷ rs) = r.players ++ seated rs

-- What a tick that went from `e` to `e'` and opened `rooms` did.
pub record Ticked (e e' : Engine) (rooms : List Room) : Type 0 where
  pub safe : IsSafe e'.lobby
  pub conserved : size e'.lobby.pool + length (seated rooms) ≡ size e.lobby.pool
  pub counted : e'.matches_created ≡ e.matches_created + length rooms
  pub opened : All (IsOpened e.bools e'.bools) rooms
  pub queued : All (λ q. get q.player_id e.lobby.pool.players ≡ some q) (seated rooms)
  pub distinct : IdsDistinct (seated rooms)
  pub remaining :
      (j : String)
      → get j e'.lobby.pool.players
        ≡ (if has_id j (seated rooms) then none else get j e.lobby.pool.players)
  pub bools : Extends e.bools e'.bools
  pub sessions : e'.sessions ≡ e.sessions

append_nil : {A : Type 0} (xs : List A) → xs ++ [] ≡ xs
append_nil [] = refl
append_nil (x ∷ xs) = ap (x ∷◌) (append_nil xs)

module _ (fl : Floats) (r : Round) (e : Engine) (safe : IsSafe e.lobby) (unmade : Unmade e.bools)
    (pool' : Pool) (sel : List QueuedPlayer)
    (extracted : extract_match fl r.env e.lobby.pool ≡ (pool', some sel)) where
  sel_open : IsMatch e.lobby.pool sel → All (λ q. is_open q.match_ch e.lobby.chans ≡ true) sel
  sel_open m =
      All-map (λ q. get q.player_id e.lobby.pool.players ≡ some q)
        (λ q. is_open q.match_ch e.lobby.chans ≡ true) sel (λ q h. safe.open_chs q.player_id q h)
        m.queued

  left_queued :
      (j : String) (q : QueuedPlayer)
      → ((k : String)
          → get k pool'.players ≡ (if has_id k sel then none else get k e.lobby.pool.players))
      → get j pool'.players ≡ some q
      → get j e.lobby.pool.players ≡ some q
  left_queued j q left h = ground (arith, left j)

  -- A round never panics, and the worker's state stays good.
  pub open_room_lem :
      (e' : Engine) × (room : Room) × (open_room r sel pool' e ≡ some (e', room))
      × (e'.lobby.pool ≡ pool')
      × (room.players ≡ sel)
      × Ticked e e' (room ∷ [])
  unfolding open_room
  open_room_lem =
      let (m, valid, sized, left) =
        extract_some fl r.env e.lobby.pool safe.valid pool' sel extracted in
      let (x, lr, lc, d, fr, fc) = make_room_chans_lem sel e.bools unmade in
      let made = make_room_chans sel e.bools in
      let (chans', n, s) =
        notify_lem r.session_id (ids_of sel) r.now sel made.1 made.2 e.lobby.chans (sel_open m) in
      (
        record e {
          lobby = record { pool = pool'; chans = chans' };
          bools = made.0;
          matches_created = e.matches_created + 1;
        },
        record {
          session_id = r.session_id;
          players = sel;
          response_chs = made.1;
          result_chs = made.2;
        },
        rw (n, open_room) refl,
        refl,
        refl,
        record {
          safe = record {
            valid = valid;
            open_chs = λ j q h. s.open_as q.match_ch ∙ safe.open_chs j q (left_queued j q left h);
            apart = λ i j q q' h h'.
                safe.apart i j q q' (left_queued i q left h) (left_queued j q' left h');
            unmade = λ (c : ℕ) (le : chans'.next ≤ c).
                s.none_as c (safe.unmade c (omega (arith, s.next, le)));
          };
          conserved = rw (append_nil sel) (omega (arith, sized, m.full));
          counted = refl;
          opened = (
            record {
              full = m.full;
              responses = lr ∙ m.full;
              results = lc ∙ m.full;
              distinct = d;
              fresh_responses = fr;
              fresh_results = fc;
            },
            tt,
          );
          queued = rw (append_nil sel) m.queued;
          distinct = rw (append_nil sel) m.distinct;
          remaining = λ j. rw (append_nil sel) (left j);
          bools = x;
          sessions = refl;
        },
      )
