-- ===== src/System/Alone/Outcome.antt =====
-- What a coordinator alone makes of the answers: whom it puts back, the session, and what it tells.
use fp_insis.Prelude.{
  ◌≡◌, Bool, true, false, none, some, List, String, get, if◌then◌else◌, ◌==◌, string_eq, nat_eq, ℤ,
}
use fp_insis.Pool.Invariant.{IsValid}
use fp_insis.Session.{new_session, get_session}
use fp_insis.Coordinator.{ids_of}
use fp_insis.Coordinator.Verdict.{accepting}
use fp_insis.Matchmaker.{Room, Engine}

-- The pool and the sessions after a confirmed and after a cancelled ready check.
abbrev pub Leaves : Room → List Bool → Bool → Engine → Engine → Type 0
Leaves room flags true e e' =
    (now : ℤ) × (e'.lobby.pool ≡ e.lobby.pool)
    × ((j : String)
        → get_session j e'.sessions ≡ (
            if room.session_id == j
            then some (new_session now room.session_id (ids_of room.players))
            else get_session j e.sessions))
Leaves room flags false e e' =
    (e'.sessions ≡ e.sessions)
    × IsValid e'.lobby.pool
    × ((j : String)
        → get j e'.lobby.pool.players ≡ elim (get j e.lobby.pool.players) [
          | none ↦ accepting j room.players flags
          | some q ↦ some q
        ])
