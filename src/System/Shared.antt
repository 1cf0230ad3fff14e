-- ===== src/System/Shared.antt =====
-- What the goroutines of the server rely on of each other, and that a step of a stream or of a
-- coordinator keeps it.
use fp_insis.Prelude.{
  ℕ, ◌≡◌, Bool, true, some, List, arith, set, get, get_elem?, All, All-map, nat_eq, string_eq,
}
use fp_insis.Chan.{Chans, buffer_of}
use fp_insis.Pool.{MatchEvent}
use fp_insis.Pool.Queueing.{IsSafe}
use fp_insis.Pool.Channels.{Free}
use fp_insis.Coordinator.Verdict.{fresh_chan}
use fp_insis.Matchmaker.{Room, Engine}
use fp_insis.Matchmaker.Rooms.{Unmade}
use fp_insis.Gateway.{Phase, searching, ready_checking, awaiting, returned, Stream, World}
use fp_insis.System.{CoordPhase, world_of, with_world}
use fp_insis.System.Apart.{
  held, Separate, held_at, held-set, not_held, Separate-set, Separate-at, stays_listed, not_listed,
}
use fp_insis.System.Moves.{Good, Moves, Moves-Good}
use fp_insis.System.Streams.{PhaseGood}
use fp_insis.System.Coords.{untold, lent, Ready, Handled, Flagged}

abbrev pub StreamGood : (ℕ → Bool) → Chans Bool → Stream → Type 0
StreamGood f h st = PhaseGood f h st.phase

-- The lobby is in good order. The result channels that coordinators have not told, `us` by
-- coordinator, are different, new and empty; the channels of the players that they may put back, `ls`,
-- are different, open and of no queued player. Each event that waits for a stream, or that one is
-- answering, has a response channel that is open and is no such result channel.
pub record IsShared (us ls : List (List ℕ)) (e : Engine) (streams : List Stream) : Type 0 where
  pub safe : IsSafe e.lobby
  pub unmade : Unmade e.bools
  pub untold_apart : Separate us
  pub untold_fresh : (n : ℕ) → held us n ≡ true → get n e.bools.cells ≡ some fresh_chan
  pub lent_apart : Separate ls
  pub lent_free : (n : ℕ) → held ls n ≡ true → Free e.lobby n
  pub events : (c : ℕ) → All (Good (held us) e.bools) (buffer_of c e.lobby.chans)
  pub good : All (StreamGood (held us) e.bools) streams

PhaseGood-map :
    (f g : ℕ → Bool) (h k : Chans Bool) (p : Phase)
    → ((evt : MatchEvent) → Good f h evt → Good g k evt)
    → PhaseGood f h p
    → PhaseGood g k p
PhaseGood-map f g h k searching m x = tt
PhaseGood-map f g h k (ready_checking evt) m x = m evt x
PhaseGood-map f g h k (awaiting evt) m x = tt
PhaseGood-map f g h k (returned r) m x = tt

pub StreamGood-map :
    (f g : ℕ → Bool) (h k : Chans Bool) (streams : List Stream)
    → ((evt : MatchEvent) → Good f h evt → Good g k evt)
    → All (StreamGood f h) streams
    → All (StreamGood g k) streams
StreamGood-map f g h k streams m =
    All-map (StreamGood f h) (StreamGood g k) streams (λ st x. PhaseGood-map f g h k st.phase m x)

module _ (us ls : List (List ℕ)) (e : Engine) (streams : List Stream)
    (ok : IsShared us ls e streams) where
  -- A stream, old or new, has moved the world.
  pub moved-IsShared :
      (w : World) (streams' : List Stream)
      → Moves (held us) (world_of e) w
      → IsSafe w.lobby
      → All (StreamGood (held us) w.bools) streams'
      → IsShared us ls (with_world w e) streams'
  moved-IsShared w streams' m safe good = record {
    safe = safe;
    unmade = λ n le. m.shape.none_as n (ok.unmade n (omega (arith, m.shape.next)));
    untold_apart = ok.untold_apart;
    untold_fresh = λ n h. m.fresh n h (ok.untold_fresh n h);
    lent_apart = ok.lent_apart;
    lent_free = λ n h. m.free n (ok.lent_free n h);
    events = λ c.
        All-map (Good (held us) e.bools) (Good (held us) w.bools) (buffer_of c w.lobby.chans)
          (λ evt g. Moves-Good (held us) (world_of e) w evt m g)
          (m.events (Good (held us) e.bools) c (ok.events c));
    good = good;
  }

  pub moved-StreamGood :
      (w : World) → Moves (held us) (world_of e) w → All (StreamGood (held us) w.bools) streams
  moved-StreamGood w m =
      StreamGood-map (held us) (held us) e.bools w.bools streams
        (λ evt x. Moves-Good (held us) (world_of e) w evt m x) ok.good

  module _ (k : ℕ) (room : Room) (p : CoordPhase) (is_u : get_elem? us k ≡ some (untold room p))
      (is_l : get_elem? ls k ≡ some (lent room p)) where
    pub Ready-at : Flagged room p → Ready e room p
    Ready-at f = record {
      safe = ok.safe;
      unmade = ok.unmade;
      flagged = f;
      untold_distinct = Separate-at us k _ is_u ok.untold_apart;
      lent_distinct = Separate-at ls k _ is_l ok.lent_apart;
      fresh = λ n h. ok.untold_fresh n (held_at us k _ n is_u h);
      free = λ n h. ok.lent_free n (held_at ls k _ n is_l h);
    }

    -- A coordinator has taken a step.
    pub handled-IsShared :
        (e' : Engine) (p' : CoordPhase)
        → Handled e room p e' p'
        → IsShared (set us k (untold room p')) (set ls k (lent room p')) e' streams
    handled-IsShared e' p' h = record {
      safe = h.safe;
      unmade = h.unmade;
      untold_apart = Separate-set us k _ _ is_u h.untold_within h.untold_distinct ok.untold_apart;
      untold_fresh = λ n held_n.
          h.fresh n (stays_listed us k _ _ n ok.untold_apart is_u held_n)
            (ok.untold_fresh n (held-set us k _ _ n is_u h.untold_within held_n));
      lent_apart = Separate-set ls k _ _ is_l h.lent_within h.lent_distinct ok.lent_apart;
      lent_free = λ n held_n.
          h.free n (stays_listed ls k _ _ n ok.lent_apart is_l held_n)
            (ok.lent_free n (held-set ls k _ _ n is_l h.lent_within held_n));
      events = λ c. rw h.chans (
          All-map (Good (held us) e.bools) (Good (held (set us k (untold room p'))) e'.bools)
            (buffer_of c e.lobby.chans) still (ok.events c));
      good = StreamGood-map _ _ e.bools e'.bools streams still ok.good;
    }
      where
        still :
            (evt : MatchEvent)
            → Good (held us) e.bools evt
            → Good (held (set us k (untold room p'))) e'.bools evt
        still evt g = record {
          opened =
              h.opened evt.response_ch (not_listed us k _ evt.response_ch is_u g.other) g.opened;
          other = not_held us k _ _ evt.response_ch is_u h.untold_within g.other;
        }
