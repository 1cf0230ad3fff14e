-- ===== src/Matchmaker.antt =====
-- internal/services/matchmaker.go but for the coordinator: one tick of the worker and the admin
-- calls. A tick runs many extractions; the clock, the session id and the choices of each are inputs.
pub mod Rooms
pub mod Opening
pub mod Sequence
pub mod Tick
pub mod Drawing
pub mod Admin
pub mod Verdicts
use fp_insis.Prelude.{
  ℕ, zero, suc, ◌+◌, Bool, Option, none, some, List, [], ◌∷◌, String, length, ℤ, pos, ◌-ℤ◌, wrap32,
}
use fp_insis.Runtime.{Floats}
use fp_insis.Chan.{Chans, make_chan, try_send}
use fp_insis.Pool.{QueuedPlayer, Pool, MatchEvent, Lobby, size}
use fp_insis.Pool.Extract.{Env, extract_match}
use fp_insis.Session.{SessionStore, active_count}
use fp_insis.Coordinator.{ids_of}
use fp_insis.Pb.{QueueStatsResponse, ForceMatchResponse}

-- The inputs of one round of a tick: the extraction's, uuid.New and time.Now.
pub record Round : Type 0 where
  pub env : Env
  pub session_id : String
  pub now : ℤ

-- The arguments of the coordinator that a round launches.
pub record Room : Type 0 where
  pub session_id : String
  pub players : List QueuedPlayer
  pub response_chs : List ℕ
  pub result_chs : List ℕ

-- The worker's state: the pool and the players' channels, the channels of the ready checks, the
-- sessions and the counter (an int64, which is not taken to wrap).
pub record Engine : Type 0 where
  pub lobby : Lobby
  pub bools : Chans Bool
  pub sessions : SessionStore
  pub matches_created : ℕ

-- The loop that makes a response and a result channel for each player.
unfoldable pub make_room_chans : List QueuedPlayer → Chans Bool → Chans Bool × List ℕ × List ℕ
make_room_chans [] h = (h, [], [])
make_room_chans (q ∷ qs) h =
    let (h1, response) = make_chan 1 h in
    let (h2, result) = make_chan 1 h1 in
    let (h3, responses, results) = make_room_chans qs h2 in
    (h3, response ∷ responses, result ∷ results)

-- The loop that sends the events. A full channel is passed over; `none` is the panic of a send on a
-- closed one.
unfoldable pub notify :
    String
    → List String
    → ℤ
    → List QueuedPlayer
    → List ℕ
    → List ℕ
    → Chans MatchEvent
    → Option (Chans MatchEvent)
notify sid ids now (q ∷ qs) (r ∷ rs) (c ∷ cs) h =
    let evt : MatchEvent = record {
      session_id = sid;
      player_ids = ids;
      created_at = now;
      response_ch = r;
      result_ch = c;
    } in
    elim (try_send q.match_ch evt h) [ none ↦ none | some (h', _) ↦ notify sid ids now qs rs cs h' ]
notify sid ids now _ _ _ h = some h

pub data TickResult : Type 0 where
  done : Engine → List Room → TickResult
  panicked out_of_fuel : TickResult

abbrev pub with_room : Room → TickResult → TickResult
with_room room (done e rooms) = done e (room ∷ rooms)
with_room room panicked = panicked
with_room room out_of_fuel = out_of_fuel

-- The body of the loop after a successful extraction, up to the launch of the coordinator: the state
-- that the next round finds, and the room.
unfoldable pub open_room : Round → List QueuedPlayer → Pool → Engine → Option (Engine × Room)
open_room r players pool' e =
    let (bools', responses, results) = make_room_chans players e.bools in
    elim (notify r.session_id (ids_of players) r.now players responses results e.lobby.chans) [
      | none ↦ none
      | some chans' ↦ some (
        record e {
          lobby = record { pool = pool'; chans = chans' };
          bools = bools';
          matches_created = e.matches_created + 1;
        },
        record {
          session_id = r.session_id;
          players = players;
          response_chs = responses;
          result_chs = results;
        },
      )
    ]

-- The loop of tick, on fuel: one round for each extraction, from round i on.
unfoldable pub tick : Floats → ℕ → (ℕ → Round) → ℕ → Engine → TickResult
tick fl zero rounds i e = out_of_fuel
tick fl (suc fuel) rounds i e =
    let (pool', extracted) = extract_match fl (rounds i).env e.lobby.pool in
    elim extracted [
      | none ↦ done (record e { lobby = record e.lobby { pool = pool' } }) []
      | some players ↦ elim (open_room (rounds i) players pool' e) [
        | none ↦ panicked
        | some (e', room) ↦ with_room room (tick fl fuel rounds (suc i) e')
      ]
    ]

-- Each round takes ten players out, so the pool's size bounds the rounds.
abbrev pub tick_all : Floats → (ℕ → Round) → Engine → TickResult
tick_all fl rounds e = tick fl (size e.lobby.pool + 1) rounds 0 e

unfoldable pub get_queue_stats : Engine → QueueStatsResponse
get_queue_stats e = record {
  total_waiting = wrap32 (pos (size e.lobby.pool));
  total_matched = pos 0;
  active_sessions = wrap32 (pos (active_count e.sessions));
}

-- One round of the loop of tick by itself: what it leaves, and the room if there is a match.
pub data Drawn : Type 0 where
  nothing_left : Engine → Drawn
  opens : Engine → Room → Drawn
  draw_panics : Drawn

unfoldable pub draw : Floats → Round → Engine → Drawn
draw fl r e =
    let (pool', extracted) = extract_match fl r.env e.lobby.pool in
    elim extracted [
      | none ↦ nothing_left (record e { lobby = record e.lobby { pool = pool' } })
      | some players ↦ elim (open_room r players pool' e) [
        | none ↦ draw_panics
        | some (e', room) ↦ opens e' room
      ]
    ]

-- Whose turn it is while ForceMatch runs: its own next step, which in its tick is a round, or a round of
-- another goroutine's tick.
pub data Turn : Type 0 where
  own others : Round → Turn

-- ForceMatch answers, with the rooms that it opened and those that others opened meanwhile; or it still
-- runs; or a round panics.
pub data Forced : Type 0 where
  answered : Engine → (mine theirs : List Room) → ForceMatchResponse → Forced
  still_runs round_panics : Forced

abbrev pub with_mine : Room → Forced → Forced
with_mine room (answered e mine theirs r) = answered e (room ∷ mine) theirs r
with_mine room still_runs = still_runs
with_mine room round_panics = round_panics

abbrev pub with_theirs : Room → Forced → Forced
with_theirs room (answered e mine theirs r) = answered e mine (room ∷ theirs) r
with_theirs room still_runs = still_runs
with_theirs room round_panics = round_panics

-- A round of another goroutine, and then what follows.
abbrev pub then_goes : Drawn → (Engine → Forced) → Forced
then_goes (nothing_left e) f = f e
then_goes (opens e room) f = with_theirs room (f e)
then_goes draw_panics f = round_panics

-- After the tick: the second read of the counter.
unfoldable pub count_after : Floats → ℕ → List Turn → Engine → Forced
count_after fl before [] e = still_runs
count_after fl before (own r ∷ turns) e =
    answered e [] [] (record { matches_created = wrap32 (pos e.matches_created -ℤ pos before) })
count_after fl before (others r ∷ turns) e =
    then_goes (draw fl r e) (λ e'. count_after fl before turns e')

-- A round of the call's own tick: the loop goes on after a match and ends without one.
abbrev pub own_goes : Drawn → (Engine → Forced) → (Engine → Forced) → Forced
own_goes (nothing_left e) ends more = ends e
own_goes (opens e room) ends more = with_mine room (more e)
own_goes draw_panics ends more = round_panics

-- The tick of the call.
unfoldable pub force_tick : Floats → ℕ → List Turn → Engine → Forced
force_tick fl before [] e = still_runs
force_tick fl before (own r ∷ turns) e =
    own_goes (draw fl r e) (λ e'. count_after fl before turns e')
      (λ e'. force_tick fl before turns e')
force_tick fl before (others r ∷ turns) e =
    then_goes (draw fl r e) (λ e'. force_tick fl before turns e')

-- The first read of the counter, and the rest.
unfoldable pub force_match : Floats → List Turn → Engine → Forced
force_match fl turns e = force_tick fl e.matches_created turns e
