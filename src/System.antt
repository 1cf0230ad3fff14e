-- ===== src/System.antt =====
-- The server as a whole: the streams of internal/services/gateway.go, the rounds of the worker and the
-- coordinators of internal/services/matchmaker.go, and the submissions of internal/services/tracker.go,
-- on the state that they share. Any goroutine may take the next step. A step is a call that holds a
-- mutex or one operation on a channel, with the code around it that only the goroutine sees; a round
-- of a tick is one step, and so are the send and the close of one result channel.
pub mod Moves
pub mod Streams
pub mod Apart
pub mod Coords
pub mod Handling
pub mod Shared
pub mod Rounds
pub mod Opening
pub mod Connecting
pub mod Running
pub mod Reach
pub mod Progress
pub mod Alone
use fp_insis.Prelude.{
  ℕ, ◌+◌, Bool, true, false, not, ◌&&◌, ◌||◌, Option, none, some, List, [], ◌∷◌, ◌++◌, String, map,
  ltb, length, set, replicate, get_elem?, nat_beq, if◌then◌else◌, ℤ,
}
use fp_insis.Runtime.{Floats}
use fp_insis.Chan.{Chans, blocks, drained, taken, recv, try_send, close}
use fp_insis.Pool.{QueuedPlayer, Pool, re_enqueue, new_pool}
use fp_insis.Pool.Extract.{extract_match}
use fp_insis.Session.{create_session, new_session_store}
use fp_insis.Status.{Reply}
use fp_insis.Pb.{GatewayRequest, SubmitResultRequest}
use fp_insis.Tracker.{submit_result}
use fp_insis.Coordinator.{ids_of}
use fp_insis.Matchmaker.{Round, Room, Engine, open_room}
use fp_insis.Gateway.{Stream, World, Entered, rejected, joined, panicked, enter}
use fp_insis.Gateway.Loop.{Event, Next, stream_step}

-- Where a coordinator stands: its select, with the answers counted and the flags; the loop over the
-- result channels; the loop that puts players back.
pub data CoordPhase : Type 0 where
  gathering : (received : ℕ) → (accepted : List Bool) → CoordPhase
  telling : Bool → (left : List ℕ) → (accepted : List Bool) → CoordPhase
  putting_back : List QueuedPlayer → List Bool → CoordPhase
  ended : CoordPhase

-- A coordinator: its arguments, the fan-in goroutines that have passed on an answer, what is in
-- fanInCh, and whether the context's time is over.
pub record Coord : Type 0 where
  pub room : Room
  pub heard : List ℕ
  pub fan_in : List (ℕ × Bool)
  pub timed_out : Bool
  pub phase : CoordPhase

-- `idle` is a step that is not ready, `crashed` a panic, `stuck` a send that blocks for good.
pub data Stepped (A : Type 0) : Type 0 where
  idle crashed stuck : Stepped A
  stepped : A → Stepped A

abbrev pub is_listed : ℕ → List ℕ → Bool
is_listed n [] = false
is_listed n (m ∷ ms) = nat_beq n m || is_listed n ms

-- What a coordinator can do: a fan-in goroutine hears an answer or sees the context end; the time is
-- over; the select takes an answer or the end of the context; one result channel is told and closed;
-- one player is put back.
pub data CoordAction : Type 0 where
  hears gives_up : ℕ → CoordAction
  time_passes : CoordAction
  gathers expires : (now : ℤ) → CoordAction
  tells puts_back : CoordAction

abbrev pub is_gathering : CoordPhase → Bool
is_gathering (gathering received accepted) = true
is_gathering (telling v left accepted) = false
is_gathering (putting_back players accepted) = false
is_gathering ended = false

abbrev pub pass_on : ℕ → Bool → Coord → Coord
pass_on i answer c = record c { heard = i ∷ c.heard; fan_in = c.fan_in ++ (i, answer) ∷ [] }

-- The fan-in goroutine of one player.
unfoldable pub listen : ℕ → Engine → Coord → Stepped (Engine × Coord)
listen i e c = elim (get_elem? c.room.response_chs i) [
  | none ↦ idle
  | some ch ↦
      let out : Stepped (Engine × Coord) = elim (recv ch e.bools) [
        | blocks ↦ idle
        | drained ↦ stepped (e, pass_on i false c)
        | taken answer bools' ↦ stepped (record e { bools = bools' }, pass_on i answer c)
      ] in
      if is_listed i c.heard then idle else out
]

-- The code at the label verdict, up to the loop over the result channels.
unfoldable pub decide : ℤ → Bool → List Bool → Engine → Coord → Engine × Coord
decide now v accepted e c =
    let created = create_session now c.room.session_id (ids_of c.room.players) e.sessions in
    let c' = record c { phase = telling v c.room.result_chs accepted } in
    if v then (record e { sessions = created }, c') else (e, c')

-- The loop's select takes the oldest answer. An index out of range would panic.
unfoldable pub gather_one : ℤ → ℕ → List Bool → Engine → Coord → Stepped (Engine × Coord)
gather_one now received accepted e c = elim c.fan_in [
  | [] ↦ idle
  | first ∷ rest ↦
      let c' = record c { fan_in = rest } in
      let accepted' = set accepted first.0 first.1 in
      let more = record c' { phase = gathering (received + 1) accepted' } in
      if ltb first.0 (length accepted)
      then (if first.1
          then (if ltb (received + 1) (length c.room.players)
              then stepped (e, more)
              else stepped (decide now true accepted' e c'))
          else stepped (decide now false accepted' e c'))
      else crashed
]

-- ch <- v; close(ch) for the next result channel.
unfoldable pub tell_one : Bool → List ℕ → List Bool → Engine → Coord → Stepped (Engine × Coord)
tell_one v [] accepted e c =
    if v
    then stepped (e, record c { phase = ended })
    else stepped (e, record c { phase = putting_back c.room.players accepted })
tell_one v (ch ∷ chs) accepted e c = elim (try_send ch v e.bools) [
  | none ↦ crashed
  | some (h1, sent) ↦
      let out : Stepped (Engine × Coord) = elim (close ch h1) [
        | none ↦ crashed
        | some h2 ↦ stepped (record e { bools = h2 }, record c { phase = telling v chs accepted })
      ] in
      if sent then out else stuck
]

-- if accepted[i] { ReEnqueue(p) } for the next player. An index out of range would panic.
unfoldable pub put_back_one :
    (ℕ → ℕ → ℕ) → List QueuedPlayer → List Bool → Engine → Coord → Stepped (Engine × Coord)
put_back_one grow [] accepted e c = stepped (e, record c { phase = ended })
put_back_one grow (q ∷ qs) [] e c = crashed
put_back_one grow (q ∷ qs) (a ∷ accepted) e c =
    let pool' = if a then (re_enqueue grow q e.lobby.pool).0 else e.lobby.pool in
    stepped (
      record e { lobby = record e.lobby { pool = pool' } },
      record c { phase = putting_back qs accepted },
    )

unfoldable pub coord_step : (ℕ → ℕ → ℕ) → CoordAction → Engine → Coord → Stepped (Engine × Coord)
coord_step grow (hears i) e c = listen i e c
coord_step grow (gives_up i) e c =
    if not (is_listed i c.heard)
      && ltb i (length c.room.response_chs)
      && (c.timed_out || not (is_gathering c.phase))
    then stepped (e, pass_on i false c)
    else idle
coord_step grow time_passes e c = stepped (e, record c { timed_out = true })
coord_step grow (gathers now) e c = elim c.phase [
  | gathering received accepted ↦ gather_one now received accepted e c
  | telling v left accepted ↦ idle
  | putting_back players accepted ↦ idle
  | ended ↦ idle
]
coord_step grow (expires now) e c = elim c.phase [
  | gathering received accepted ↦
      if c.timed_out then stepped (decide now false accepted e c) else idle
  | telling v left accepted ↦ idle
  | putting_back players accepted ↦ idle
  | ended ↦ idle
]
coord_step grow tells e c = elim c.phase [
  | gathering received accepted ↦ idle
  | telling v left accepted ↦ tell_one v left accepted e c
  | putting_back players accepted ↦ idle
  | ended ↦ idle
]
coord_step grow puts_back e c = elim c.phase [
  | gathering received accepted ↦ idle
  | telling v left accepted ↦ idle
  | putting_back players accepted ↦ put_back_one grow players accepted e c
  | ended ↦ idle
]

-- What the goroutines share, the streams whose handlers have started their loop, and the coordinators,
-- the latest first.
pub record System : Type 0 where
  pub engine : Engine
  pub streams : List Stream
  pub coords : List Coord

-- A goroutine for each: a client connects with its first message; a stream steps; a round of a tick,
-- of the worker or of ForceMatch; a coordinator steps; a result is submitted.
pub data Action : Type 0 where
  connects : (now : ℤ) → (sends : Bool) → Option GatewayRequest → Action
  stream_acts : ℕ → (now : ℤ) → (sends : Bool) → Event → Action
  draws : Round → Action
  coord_acts : ℕ → CoordAction → Action
  submits : (expired : Bool) → (now : ℤ) → SubmitResultRequest → Action

abbrev pub world_of : Engine → World
world_of e = record { lobby = e.lobby; bools = e.bools }

abbrev pub with_world : World → Engine → Engine
with_world w e = record e { lobby = w.lobby; bools = w.bools }

abbrev pub launched : Room → Coord
launched room = record {
  room = room;
  heard = [];
  fan_in = [];
  timed_out = false;
  phase = gathering 0 (replicate (length room.players) false);
}

-- One round of the loop of tick: nothing where there is no match.
unfoldable pub draw_round : Floats → Round → System → Stepped System
draw_round fl r s =
    let (pool', extracted) = extract_match fl r.env s.engine.lobby.pool in
    elim extracted [
      | none ↦ idle
      | some players ↦ elim (open_room r players pool' s.engine) [
        | none ↦ crashed
        | some (e', room) ↦ stepped (record s { engine = e'; coords = launched room ∷ s.coords })
      ]
    ]

abbrev pub connected : System → Entered → Stepped System
connected s (rejected code w) = stepped (record s { engine = with_world w s.engine })
connected s (joined w st) =
    stepped (record s { engine = with_world w s.engine; streams = st ∷ s.streams })
connected s panicked = crashed

abbrev pub streamed : ℕ → System → Next → Stepped System
streamed i s Next.blocked = idle
streamed i s Next.panicked = crashed
streamed i s (Next.next w st) =
    stepped (record s { engine = with_world w s.engine; streams = set s.streams i st })

abbrev pub coordinated : ℕ → System → Stepped (Engine × Coord) → Stepped System
coordinated k s idle = idle
coordinated k s crashed = crashed
coordinated k s stuck = stuck
coordinated k s (stepped (e, c)) = stepped (record s { engine = e; coords = set s.coords k c })

unfoldable pub system_step : (ℕ → ℕ → ℕ) → Floats → Action → System → Stepped System
system_step grow fl (connects now sends first) s =
    connected s (enter grow now sends first (world_of s.engine))
system_step grow fl (stream_acts i now sends ev) s = elim (get_elem? s.streams i) [
  | none ↦ idle
  | some st ↦ streamed i s (stream_step now sends ev (world_of s.engine) st)
]
system_step grow fl (draws r) s = draw_round fl r s
system_step grow fl (coord_acts k a) s = elim (get_elem? s.coords k) [
  | none ↦ idle
  | some c ↦ coordinated k s (coord_step grow a s.engine c)
]
system_step grow fl (submits expired now req) s =
    let ss = (submit_result expired now req s.engine.sessions).0 in
    stepped (record s { engine = record s.engine { sessions = ss } })

-- What main starts with.
abbrev pub new_system : System
new_system = record {
  engine = record {
    lobby = record { pool = new_pool; chans = record { next = 0; cells = [] } };
    bools = record { next = 0; cells = [] };
    sessions = new_session_store;
    matches_created = 0;
  };
  streams = [];
  coords = [];
}
