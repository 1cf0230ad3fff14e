-- ===== src/Pool/Extract/Removal.antt =====
-- The removal loop of ExtractMatch.
use fp_insis.Prelude.{
  ◌+◌, ◌≡◌, refl, none, some, List, [], ◌∷◌, String, arith, length, get, get-delete, length-delete,
  All, if◌then◌else◌, string_eq,
}
use text.Mathlib.TextEquality.{eq_iff}
use fp_insis.Pool.{QueuedPlayer, Pool, has_id, remove_player, size}
use fp_insis.Pool.Slices.{IdsDistinct, find_id}
use fp_insis.Pool.Invariant.{IsValid, remove_player-IsValid}
use fp_insis.Pool.Extract.{remove_all}

abbrev IsHere : Pool → QueuedPlayer → Type 0
IsHere p q = get q.player_id p.players ≡ some q

-- Those with another id are still there when one player is removed.
rest-IsHere :
    (q : QueuedPlayer) (qs : List QueuedPlayer) (p : Pool)
    → find_id q.player_id qs ≡ none
    → All (IsHere p) qs
    → All (IsHere (remove_player q.player_id q p)) qs
unfolding find_id remove_player
rest-IsHere q [] p new h = tt
rest-IsHere q (x ∷ xs) p new h = (
  ground (
    arith,
    get-delete q.player_id x.player_id p.players,
    eq_iff q.player_id x.player_id,
    eq_iff x.player_id q.player_id,
  ),
  rest-IsHere q xs p (ground arith) h.1,
)

pub remove_all-IsValid :
    (qs : List QueuedPlayer) (p : Pool)
    → IdsDistinct qs
    → All (IsHere p) qs
    → IsValid p
    → IsValid (remove_all qs p)
unfolding remove_all
remove_all-IsValid [] p d h v = v
remove_all-IsValid (q ∷ qs) p d h v =
    remove_all-IsValid qs (remove_player q.player_id q p) d.1 (rest-IsHere q qs p d.0 h.1)
      (remove_player-IsValid q.player_id q p h.0 v)

-- Exactly the listed ids are gone.
pub get-remove_all :
    (j : String) (qs : List QueuedPlayer) (p : Pool)
    → get j (remove_all qs p).players ≡ (if has_id j qs then none else get j p.players)
unfolding remove_all has_id remove_player
get-remove_all j [] p = refl
get-remove_all j (q ∷ qs) p =
    ground (
      arith,
      get-remove_all j qs (remove_player q.player_id q p),
      get-delete q.player_id j p.players,
    )

pub size-remove_all :
    (qs : List QueuedPlayer) (p : Pool)
    → IdsDistinct qs
    → All (IsHere p) qs
    → IsValid p
    → size (remove_all qs p) + length qs ≡ size p
unfolding remove_all remove_player
size-remove_all [] p d h v = omega arith
size-remove_all (q ∷ qs) p d h v = omega (
  arith,
  size-remove_all qs (remove_player q.player_id q p) d.1 (rest-IsHere q qs p d.0 h.1)
      (remove_player-IsValid q.player_id q p h.0 v),
  length-delete q.player_id q p.players v.players_distinct h.0,
)
