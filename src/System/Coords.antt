-- ===== src/System/Coords.antt =====
-- One step of a coordinator: what it still has to tell and to put back, and that it neither panics nor
-- blocks for good.
use fp_insis.Prelude.{
  refl, if◌then◌else◌, ℕ, ◌<◌, ◌≡◌, Bool, true, false, some, List, [], map, length, get, All,
  nat_eq,
}
use fp_insis.Chan.{is_open}
use fp_insis.Pool.{QueuedPlayer}
use fp_insis.Pool.Queueing.{IsSafe}
use fp_insis.Pool.Channels.{Free}
use fp_insis.Coordinator.Verdict.{fresh_chan, is_one_of, NumbersDistinct}
use fp_insis.Matchmaker.{Room, Engine}
use fp_insis.Matchmaker.Rooms.{Unmade}
use fp_insis.System.{
  CoordPhase, gathering, telling, putting_back, ended, Coord, Stepped, idle, stepped,
}
use fp_insis.System.Apart.{Within}

-- The result channels that hold no verdict yet.
abbrev pub untold : Room → CoordPhase → List ℕ
untold room (gathering received accepted) = room.result_chs
untold room (telling v left accepted) = left
untold room (putting_back players accepted) = []
untold room ended = []

abbrev pub channels_of : List QueuedPlayer → List ℕ
channels_of = map (λ q. q.match_ch)

-- The channels of the players who may be put back.
abbrev pub lent : Room → CoordPhase → List ℕ
lent room (gathering received accepted) = channels_of room.players
lent room (telling v left accepted) = channels_of room.players
lent room (putting_back players accepted) = channels_of players
lent room ended = []

-- A flag for each player.
abbrev pub Flagged : Room → CoordPhase → Type 0
Flagged room (gathering received accepted) = length accepted ≡ length room.players
Flagged room (telling v left accepted) = length accepted ≡ length room.players
Flagged room (putting_back players accepted) = length accepted ≡ length players
Flagged room ended = Unit {0}

-- What a coordinator's step relies on.
pub record Ready (e : Engine) (room : Room) (p : CoordPhase) : Type 0 where
  pub safe : IsSafe e.lobby
  pub unmade : Unmade e.bools
  pub flagged : Flagged room p
  pub untold_distinct : NumbersDistinct (untold room p)
  pub lent_distinct : NumbersDistinct (lent room p)
  pub fresh : (n : ℕ) → is_one_of n (untold room p) ≡ true → get n e.bools.cells ≡ some fresh_chan
  pub free : (n : ℕ) → is_one_of n (lent room p) ≡ true → Free e.lobby n

-- What it leaves: the channels that it has no more to do with are its own, and the others are as they
-- were for everyone else.
pub record Handled (e : Engine) (room : Room) (p : CoordPhase) (e' : Engine) (p' : CoordPhase)
    : Type 0 where
  pub safe : IsSafe e'.lobby
  pub unmade : Unmade e'.bools
  pub flagged : Flagged room p'
  pub untold_distinct : NumbersDistinct (untold room p')
  pub lent_distinct : NumbersDistinct (lent room p')
  pub untold_within : Within (untold room p') (untold room p)
  pub lent_within : Within (lent room p') (lent room p)
  pub chans : e'.lobby.chans ≡ e.lobby.chans
  pub fresh :
      (n : ℕ)
      → (is_one_of n (untold room p) ≡ true → is_one_of n (untold room p') ≡ true)
      → get n e.bools.cells ≡ some fresh_chan
      → get n e'.bools.cells ≡ some fresh_chan
  pub free :
      (n : ℕ)
      → (is_one_of n (lent room p) ≡ true → is_one_of n (lent room p') ≡ true)
      → Free e.lobby n
      → Free e'.lobby n
  pub opened :
      (n : ℕ)
      → is_one_of n (untold room p) ≡ false
      → is_open n e.bools ≡ true
      → is_open n e'.bools ≡ true

-- The answers that were passed on are of players of the room.
pub record Seated (c : Coord) : Type 0 where
  pub seats : length c.room.response_chs ≡ length c.room.players
  pub indices : All (λ (a : ℕ × Bool). a.0 < length c.room.players) c.fan_in

pub data HandledBy (e : Engine) (room : Room) (p : CoordPhase)
    : Stepped (Engine × Coord) → Type 0 where
  idles : HandledBy e room p idle
  handles :
      (e' : Engine) (c' : Coord)
      → Handled e room p e' c'.phase
      → c'.room ≡ room
      → Seated c'
      → HandledBy e room p (stepped (e', c'))

-- The coordinator has moved on, and what it shares with others has not changed but for the sessions.
pub moved_on :
    (e e' : Engine) (room : Room) (p p' : CoordPhase)
    → Ready e room p
    → e'.lobby ≡ e.lobby
    → e'.bools ≡ e.bools
    → Flagged room p'
    → untold room p' ≡ untold room p
    → NumbersDistinct (lent room p')
    → Within (lent room p') (lent room p)
    → Handled e room p e' p'
moved_on e e' room p p' r el eb f u d w = record {
  safe = rw el r.safe;
  unmade = rw eb r.unmade;
  flagged = f;
  untold_distinct = rw u r.untold_distinct;
  lent_distinct = d;
  untold_within = rw u (λ n h. h);
  lent_within = w;
  chans = rw el refl;
  fresh = λ n k h. rw eb h;
  free = λ n k h. rw el h;
  opened = λ n k h. rw eb h;
}

pub pick :
    (b : Bool) (e : Engine) (room : Room) (p : CoordPhase) (x y : Stepped (Engine × Coord))
    → (b ≡ true → HandledBy e room p x)
    → (b ≡ false → HandledBy e room p y)
    → HandledBy e room p (if b then x else y)
pick true e room p x y hx hy = hx refl
pick false e room p x y hx hy = hy refl
