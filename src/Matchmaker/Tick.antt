-- ===== src/Matchmaker/Tick.antt =====
-- The tick as a whole: it ends, it never panics, and it seats each player once.
use fp_insis.Prelude.{
  ℕ, zero, suc, ◌+◌, ◌<◌, ◌≡◌, refl, ap, ◌∙◌, inl, inr, Option, none, some, List, [], ◌∷◌, arith,
  length, length-append, Option-cases, subst,
}
use fp_insis.Runtime.{Floats}
use fp_insis.Pool.{QueuedPlayer, Pool, size}
use fp_insis.Pool.Extract.{extract_match}
use fp_insis.Pool.Extract.Match.{extract_none}
use fp_insis.Pool.Queueing.{IsSafe}
use fp_insis.Matchmaker.{Round, Room, Engine, done, with_room, open_room, tick, tick_all}
use fp_insis.Matchmaker.Rooms.{Unmade}
use fp_insis.Matchmaker.Opening.{Ticked, open_room_lem}
use fp_insis.Matchmaker.Sequence.{Ticked-refl, Ticked-trans}

-- The round that ends a tick finds nothing in the pool that it leaves.
abbrev pub Exhausted : Floats → (ℕ → Round) → ℕ → Engine → Type 0
Exhausted fl rounds i e = extract_match fl (rounds i).env e.lobby.pool ≡ (e.lobby.pool, none)

module _ (fl : Floats) (rounds : ℕ → Round) where
  abbrev Ends : ℕ → ℕ → Engine → Type 0
  Ends fuel i e =
      (e' : Engine) × (rooms : List Room) × (tick fl fuel rounds i e ≡ done e' rooms)
      × Ticked e e' rooms
      × Exhausted fl rounds (i + length rooms) e'

  tick_stop :
      (fuel i : ℕ) (e : Engine) (p : Pool)
      → extract_match fl (rounds i).env e.lobby.pool ≡ (p, none)
      → tick fl (suc fuel) rounds i e ≡ done (record e { lobby = record e.lobby { pool = p } }) []
  unfolding tick
  tick_stop fuel i e p x =
      rw
        (
          ap (λ (y : Pool × Option (List QueuedPlayer)). y.1) x,
          ap (λ (y : Pool × Option (List QueuedPlayer)). y.0) x,
          tick,
        )
        refl

  tick_next :
      (fuel i : ℕ) (e : Engine) (p : Pool) (sel : List QueuedPlayer) (e1 : Engine) (room : Room)
      → extract_match fl (rounds i).env e.lobby.pool ≡ (p, some sel)
      → open_room (rounds i) sel p e ≡ some (e1, room)
      → tick fl (suc fuel) rounds i e ≡ with_room room (tick fl fuel rounds (suc i) e1)
  unfolding tick
  tick_next fuel i e p sel e1 room x o =
      rw
        (
          ap (λ (y : Pool × Option (List QueuedPlayer)). y.1) x,
          ap (λ (y : Pool × Option (List QueuedPlayer)). y.0) x,
          o,
          tick,
        )
        refl

  last_round :
      (fuel i : ℕ) (e : Engine) (pool' : Pool)
      → IsSafe e.lobby
      → Unmade e.bools
      → extract_match fl (rounds i).env e.lobby.pool ≡ (pool', none)
      → Ends (suc fuel) i e
  last_round fuel i e pool' safe unmade x =
      let x' : extract_match fl (rounds i).env e.lobby.pool ≡ (e.lobby.pool, none) =
        subst (λ (p : Pool). extract_match fl (rounds i).env e.lobby.pool ≡ (p, none))
          (extract_none fl (rounds i).env e.lobby.pool safe.valid pool' x) x in
      (
        e,
        [],
        tick_stop fuel i e e.lobby.pool x',
        Ticked-refl e safe unmade,
        subst (λ k. Exhausted fl rounds k e) (omega arith) x',
      )

  -- With more fuel than there are players queued, the loop ends, and not by a panic.
  tick-Ends :
      (fuel i : ℕ) (e : Engine)
      → IsSafe e.lobby
      → Unmade e.bools
      → size e.lobby.pool < fuel
      → Ends fuel i e
  tick-Ends zero i e safe unmade enough = absurd (omega arith)
  tick-Ends (suc fuel) i e safe unmade enough =
      let x = extract_match fl (rounds i).env e.lobby.pool in
      elim (Option-cases x.1) [
        | inl n ↦
            last_round fuel i e x.0 safe unmade
              (ap (λ (o : Option (List QueuedPlayer)). (x.0, o)) n)
        | inr (sel, h) ↦
            let (e1, room, opened, p, seats, t) =
              open_room_lem fl (rounds i) e safe unmade x.0 sel
                (ap (λ (o : Option (List QueuedPlayer)). (x.0, o)) h) in
            let (e2, rooms, ends, u, stuck) = tick-Ends fuel (suc i) e1 t.safe t.bools.unmade (
              omega (arith, t.conserved, t.opened.0.full, enough, length-append room.players [])) in
            (
              e2,
              room ∷ rooms,
              tick_next fuel i e x.0 sel e1 room
                    (ap (λ (o : Option (List QueuedPlayer)). (x.0, o)) h) opened
                  ∙ ap (with_room room) ends,
              Ticked-trans e e1 e2 (room ∷ []) rooms t u,
              subst (λ k. Exhausted fl rounds k e2) (omega arith) stuck,
            )
      ]

  -- From a lobby in good order, a tick ends without a panic, whatever the map order, sorting and
  -- clock of its rounds. Each room seats ten queued players, nobody twice; they have left the pool,
  -- which stays in good order and keeps everyone else; each room has new, empty channels; the counter grew by
  -- the rooms; the sessions are untouched; and one more extraction would find nothing.
  pub tick_total :
      (e : Engine)
      → IsSafe e.lobby
      → Unmade e.bools
      → (e' : Engine) × (rooms : List Room) × (tick_all fl rounds e ≡ done e' rooms)
        × Ticked e e' rooms
        × Exhausted fl rounds (0 + length rooms) e'
  tick_total e safe unmade = tick-Ends (size e.lobby.pool + 1) 0 e safe unmade (omega arith)
