-- ===== src/Matchmaker/Admin.antt =====
-- ForceMatch, while other goroutines may run ticks of their own.
use fp_insis.Prelude.{
  ℕ, ◌+◌, ◌*◌, ◌≤◌, ◌≡◌, refl, ap, ◌∙◌, List, [], ◌∷◌, arith, length, length-append, ℤ, pos, ◌-ℤ◌,
  wrap32, wrap32_of_IsInt32,
}
use fp_insis.Runtime.{Floats}
use fp_insis.Pool.{size, players_per_match}
use fp_insis.Pool.Queueing.{IsSafe}
use fp_insis.Matchmaker.{
  Room, Engine, Drawn, Turn, own, others, Forced, answered, with_mine, with_theirs, then_goes,
  own_goes, count_after, force_tick, force_match,
}
use fp_insis.Matchmaker.Rooms.{Unmade}
use fp_insis.Matchmaker.Opening.{Ticked}
use fp_insis.Matchmaker.Drawing.{DrawsWell, stays, made, draw-DrawsWell}

difference : (a n : ℕ) → pos (a + n) -ℤ pos a ≡ pos n
unfolding ◌-ℤ◌
difference a n = ground arith

-- How often it is the call's own turn.
abbrev pub own_turns : List Turn → ℕ
own_turns [] = 0
own_turns (own r ∷ turns) = own_turns turns + 1
own_turns (others r ∷ turns) = own_turns turns

-- The call answers by the counter that it finds, and the rooms opened meanwhile, by it and by others,
-- are those that the counter and the pool show.
record Answers (before : ℕ) (e : Engine) (f : Forced) : Type 0 where
  last : Engine
  mine : List Room
  theirs : List Room
  ends :
      f
      ≡ answered last mine theirs
          (record { matches_created = wrap32 (pos last.matches_created -ℤ pos before) })
  safe : IsSafe last.lobby
  conserved :
      size last.lobby.pool + players_per_match * (length mine + length theirs) ≡ size e.lobby.pool
  counted : last.matches_created ≡ e.matches_created + (length mine + length theirs)

ten_fewer :
    (e e' : Engine) (room : Room)
    → Ticked e e' (room ∷ [])
    → size e'.lobby.pool + players_per_match ≡ size e.lobby.pool
ten_fewer e e' room t = omega (arith, t.conserved, t.opened.0.full, length-append room.players [])

module _ (before : ℕ) where
  mine-Answers :
      (e e1 : Engine) (room : Room) (f : Forced)
      → Ticked e e1 (room ∷ [])
      → Answers before e1 f
      → Answers before e (with_mine room f)
  mine-Answers e e1 room f t a = record {
    last = a.last;
    mine = room ∷ a.mine;
    theirs = a.theirs;
    ends = ap (with_mine room) a.ends;
    safe = a.safe;
    conserved = omega (arith, a.conserved, ten_fewer e e1 room t);
    counted = omega (arith, a.counted, t.counted);
  }

  theirs-Answers :
      (e e1 : Engine) (room : Room) (f : Forced)
      → Ticked e e1 (room ∷ [])
      → Answers before e1 f
      → Answers before e (with_theirs room f)
  theirs-Answers e e1 room f t a = record {
    last = a.last;
    mine = a.mine;
    theirs = room ∷ a.theirs;
    ends = ap (with_theirs room) a.ends;
    safe = a.safe;
    conserved = omega (arith, a.conserved, ten_fewer e e1 room t);
    counted = omega (arith, a.counted, t.counted);
  }

  then_goes-Answers :
      (e : Engine) (d : Drawn) (f : Engine → Forced)
      → DrawsWell e d
      → IsSafe e.lobby
      → Unmade e.bools
      → ((e1 : Engine)
          → IsSafe e1.lobby
          → Unmade e1.bools
          → size e1.lobby.pool ≤ size e.lobby.pool
          → Answers before e1 (f e1))
      → Answers before e (then_goes d f)
  then_goes-Answers e d f stays safe unmade h = h e safe unmade (omega arith)
  then_goes-Answers e d f (made e1 room t) safe unmade h =
      theirs-Answers e e1 room (f e1) t
        (h e1 t.safe t.bools.unmade (omega (arith, ten_fewer e e1 room t)))

  own_goes-Answers :
      (e : Engine) (d : Drawn) (ends more : Engine → Forced)
      → DrawsWell e d
      → Answers before e (ends e)
      → ((e1 : Engine)
          → IsSafe e1.lobby
          → Unmade e1.bools
          → size e1.lobby.pool + players_per_match ≡ size e.lobby.pool
          → Answers before e1 (more e1))
      → Answers before e (own_goes d ends more)
  own_goes-Answers e d ends more stays x h = x
  own_goes-Answers e d ends more (made e1 room t) x h =
      mine-Answers e e1 room (more e1) t (h e1 t.safe t.bools.unmade (ten_fewer e e1 room t))

  module _ (fl : Floats) where
    count_after-Answers :
        (turns : List Turn) (e : Engine)
        → IsSafe e.lobby
        → Unmade e.bools
        → 1 ≤ own_turns turns
        → Answers before e (count_after fl before turns e)
    unfolding count_after
    count_after-Answers [] e safe unmade enough = absurd (omega (arith, enough))
    count_after-Answers (own r ∷ turns) e safe unmade enough = record {
      last = e;
      mine = [];
      theirs = [];
      ends = refl;
      safe = safe;
      conserved = omega arith;
      counted = omega arith;
    }
    count_after-Answers (others r ∷ turns) e safe unmade enough =
        then_goes-Answers e _ _ (draw-DrawsWell fl r e safe unmade) safe unmade
          (λ e1 s1 u1 le. count_after-Answers turns e1 s1 u1 enough)

    force_tick-Answers :
        (turns : List Turn) (e : Engine)
        → IsSafe e.lobby
        → Unmade e.bools
        → size e.lobby.pool + 2 ≤ own_turns turns
        → Answers before e (force_tick fl before turns e)
    unfolding force_tick
    force_tick-Answers [] e safe unmade enough = absurd (omega (arith, enough))
    force_tick-Answers (own r ∷ turns) e safe unmade enough =
        own_goes-Answers e _ _ _ (draw-DrawsWell fl r e safe unmade)
          (count_after-Answers turns e safe unmade (omega (arith, enough)))
          (λ e1 s1 u1 fewer. force_tick-Answers turns e1 s1 u1 (omega (arith, enough, fewer)))
    force_tick-Answers (others r ∷ turns) e safe unmade enough =
        then_goes-Answers e _ _ (draw-DrawsWell fl r e safe unmade) safe unmade
          (λ e1 s1 u1 le. force_tick-Answers turns e1 s1 u1 (omega (arith, enough, le)))

-- Each round taken as one step: from a good state with fewer than 2^31 players queued, given two
-- turns more than there are players queued, ForceMatch answers, however rounds of other goroutines'
-- ticks come between its two reads of the counter and between its own rounds. The number that it
-- reports is that of the rooms that it opened and of those that the others opened meanwhile,
-- together; each of these took ten players from the pool.
pub force_match_lem :
    (fl : Floats) (turns : List Turn) (e : Engine)
    → IsSafe e.lobby
    → Unmade e.bools
    → size e.lobby.pool ≤ 2147483647
    → size e.lobby.pool + 2 ≤ own_turns turns
    → (e' : Engine) × (mine theirs : List Room) × (force_match fl turns e
        ≡ answered e' mine theirs (record { matches_created = pos (length mine + length theirs) }))
      × (size e'.lobby.pool + players_per_match * (length mine + length theirs) ≡ size e.lobby.pool)
      × (e'.matches_created ≡ e.matches_created + (length mine + length theirs))
unfolding force_match
force_match_lem fl turns e safe unmade few enough =
    let a = force_tick-Answers e.matches_created fl turns e safe unmade enough in
    let n = length a.mine + length a.theirs in
    let reported : wrap32 (pos a.last.matches_created -ℤ pos e.matches_created) ≡ pos n =
      ap (λ k. wrap32 (pos k -ℤ pos e.matches_created)) a.counted
      ∙ ap wrap32 (difference e.matches_created n)
      ∙ wrap32_of_IsInt32 (pos n)
          (record { above = omega (arith, a.conserved, few); below = omega arith }) in
    (
      a.last,
      a.mine,
      a.theirs,
      a.ends
          ∙ ap (λ (k : ℤ). answered a.last a.mine a.theirs (record { matches_created = k }))
              reported,
      a.conserved,
      a.counted,
    )
