-- ===== src/Matchmaker/Drawing.antt =====
-- One round of the loop of tick.
use fp_insis.Prelude.{◌≡◌, ap, subst, inl, inr, Option, none, some, List, [], ◌∷◌, Option-cases}
use fp_insis.Runtime.{Floats}
use fp_insis.Pool.{QueuedPlayer, Pool}
use fp_insis.Pool.Extract.{extract_match}
use fp_insis.Pool.Extract.Match.{extract_none}
use fp_insis.Pool.Queueing.{IsSafe}
use fp_insis.Matchmaker.{Round, Room, Engine, Drawn, nothing_left, opens, draw}
use fp_insis.Matchmaker.Rooms.{Unmade}
use fp_insis.Matchmaker.Opening.{Ticked, open_room_lem}

-- A round that changes nothing, or opens one room as a tick does.
pub data DrawsWell (e : Engine) : Drawn → Type 0 where
  stays : DrawsWell e (nothing_left e)
  made : (e' : Engine) (room : Room) → Ticked e e' (room ∷ []) → DrawsWell e (opens e' room)

module _ (fl : Floats) (r : Round) (e : Engine) (safe : IsSafe e.lobby)
    (unmade : Unmade e.bools) where
  draws_nothing :
      (p : Pool) → extract_match fl r.env e.lobby.pool ≡ (p, none) → DrawsWell e (draw fl r e)
  unfolding draw
  draws_nothing p x =
      let x' : extract_match fl r.env e.lobby.pool ≡ (e.lobby.pool, none) =
        subst (λ (q : Pool). extract_match fl r.env e.lobby.pool ≡ (q, none))
          (extract_none fl r.env e.lobby.pool safe.valid p x) x in
      rw
        (
          ap (λ (y : Pool × Option (List QueuedPlayer)). y.1) x',
          ap (λ (y : Pool × Option (List QueuedPlayer)). y.0) x',
          draw,
        )
        stays

  draws_room :
      (p : Pool) (sel : List QueuedPlayer)
      → extract_match fl r.env e.lobby.pool ≡ (p, some sel)
      → DrawsWell e (draw fl r e)
  unfolding draw
  draws_room p sel x =
      let (e', room, o, _, _, t) = open_room_lem fl r e safe unmade p sel x in
      rw
        (
          ap (λ (y : Pool × Option (List QueuedPlayer)). y.1) x,
          ap (λ (y : Pool × Option (List QueuedPlayer)). y.0) x,
          o,
          draw,
        )
        (made e' room t)

  pub draw-DrawsWell : DrawsWell e (draw fl r e)
  draw-DrawsWell =
      let x = extract_match fl r.env e.lobby.pool in
      elim (Option-cases x.1) [
        | inl n ↦ draws_nothing x.0 (ap (λ (o : Option (List QueuedPlayer)). (x.0, o)) n)
        | inr (sel, h) ↦ draws_room x.0 sel (ap (λ (o : Option (List QueuedPlayer)). (x.0, o)) h)
      ]
