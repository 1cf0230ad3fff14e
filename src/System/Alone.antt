-- ===== src/System/Alone.antt =====
-- A coordinator of System whose steps nothing interrupts, from its select to its end.
pub mod Deadline
pub mod Endings
pub mod Selecting
pub mod Outcome
use fp_insis.Prelude.{
  ℕ, Bool, true, false, List, [], ◌∷◌, ◌++◌, map, ◌≡◌, refl, ap, sym, ◌∙◌, arith, if◌then◌else◌,
}
use fp_insis.Coordinator.{Arrival, response, deadline, Shared}
use fp_insis.Matchmaker.{Room, Engine}
use fp_insis.System.{
  Coord, CoordAction, Stepped, idle, crashed, stuck, stepped, coord_step, launched,
}

-- The goroutine with these answers in its channel.
abbrev pub answered : Room → List (ℕ × Bool) → Bool → Coord
answered room answers late = record (launched room) {
  heard = map (λ (a : ℕ × Bool). a.0) answers;
  fan_in = answers;
  timed_out = late;
}

abbrev pub shared_of : Engine → Shared
shared_of e = record { pool = e.lobby.pool; sessions = e.sessions; bools = e.bools }

abbrev pub with_shared : Shared → Engine → Engine
with_shared s e = record e {
  lobby = record e.lobby { pool = s.pool };
  bools = s.bools;
  sessions = s.sessions;
}

abbrev pub continue :
    Stepped (Engine × Coord)
    → (Engine → Coord → Stepped (Engine × Coord))
    → Stepped (Engine × Coord)
continue idle f = idle
continue crashed f = crashed
continue stuck f = stuck
continue (stepped (e, c)) f = f e c

-- One step after another.
unfoldable pub run_coord :
    (ℕ → ℕ → ℕ) → List CoordAction → Engine → Coord → Stepped (Engine × Coord)
run_coord grow [] e c = stepped (e, c)
run_coord grow (a ∷ as_) e c = continue (coord_step grow a e c) (λ e' c'. run_coord grow as_ e' c')
