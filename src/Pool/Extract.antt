-- ===== src/Pool/Extract.antt =====
-- ExtractMatch of internal/state/pool.go. The clock, the order in which `range` visits the brackets
-- and the sorted order that sort.Slice chooses are parameters of a call.
pub mod Collected
pub mod Removal
pub mod Window
pub mod Match
pub mod Progress
use fp_insis.Prelude.{
  ℕ, zero, suc, ◌+◌, ◌-◌, ◌*◌, ◌≡◌, Bool, true, false, Option, none, some, List, [], ◌∷◌, ◌++◌,
  String, ltb, length, get_elem?, take, drop, get, if◌then◌else◌, ◌==◌, int_eq, ℤ, pos, negsuc,
  ltb_ℤ, ◌+ℤ◌, ◌-ℤ◌, wrap32, Permᴰ,
}
use fp_insis.Runtime.{Floats}
use fp_insis.Pool.{
  QueuedPlayer, Slice, Pool, max_mmr, players_per_match, max_bracket_expansion, slice_at,
  remove_player,
}
use fp_insis.Pool.Slices.{IsSorted}

-- candidates[i].MMR < candidates[j].MMR, the `less` that sort.Slice is given.
abbrev pub rated_below : QueuedPlayer → QueuedPlayer → Bool
rated_below a b = ltb_ℤ a.mmr b.mmr

-- One call's clock, map order and sort. sort.Slice is not stable: any sorted permutation may come out.
pub record Env : Type 0 where
  pub now : ℤ
  pub range_order : List (ℤ × Slice) → List (ℤ × Slice)
  pub range_order-perm : (m : List (ℤ × Slice)) → Permᴰ m (range_order m)
  pub sort_slice : (QueuedPlayer → QueuedPlayer → Bool) → List QueuedPlayer → List QueuedPlayer
  pub sort_slice-perm :
      (less : QueuedPlayer → QueuedPlayer → Bool) (l : List QueuedPlayer)
      → Permᴰ l (sort_slice less l)
  pub sort_slice-IsSorted : (l : List QueuedPlayer) → IsSorted (sort_slice rated_below l)

-- The scan for the bracket with the most players: the key, -1 at first, and the count.
unfoldable pub find_best : List (ℤ × Slice) → ℤ → ℕ → ℤ × ℕ
find_best [] best_bk best_count = (best_bk, best_count)
find_best ((bk, s) ∷ m) best_bk best_count =
    let more = ltb best_count (length s.items) in
    find_best m (if more then bk else best_bk) (if more then length s.items else best_count)

-- The loop over delta: the bracket above, then, but at 0, the bracket below.
unfoldable pub collect : ℕ → ℕ → List (ℤ × Slice) → ℤ → List QueuedPlayer → List QueuedPlayer
collect zero delta m bk acc = acc
collect (suc rounds) delta m bk acc =
    let above = acc ++ (slice_at m (bk +ℤ pos delta)).items in
    let below = above ++ (slice_at m (bk -ℤ pos delta)).items in
    collect rounds (suc delta) m bk (if ltb 0 delta then below else above)

unfoldable pub candidates : Pool → ℤ → List QueuedPlayer
unfolding collect
candidates p bk = collect (max_bracket_expansion + 1) 0 p.brackets bk []

-- c[i].MMR. The loops keep their indices in range, where Go would panic and this is 0.
abbrev pub mmr_at : List QueuedPlayer → ℕ → ℤ
mmr_at c i = elim (get_elem? c i) [ none ↦ pos 0 | some q ↦ q.mmr ]

abbrev pub window : List QueuedPlayer → ℕ → List QueuedPlayer
window c i = take players_per_match (drop i c)

abbrev pub wait_weight : ℤ
wait_weight = pos 5

module _ (fl : Floats) (env : Env) where
  open fl use {Float64, of_int, add, sub, mul, div, lt, seconds}

  -- totalWaitSec, summed over the window.
  unfoldable pub total_wait : Float64 → List QueuedPlayer → Float64
  total_wait acc [] = acc
  total_wait acc (q ∷ qs) = total_wait (add acc (seconds (env.now -ℤ q.enqueued_at))) qs

  -- The score of the window at i: the int32 spread, less five points for each second of average wait.
  unfoldable pub score : List QueuedPlayer → ℕ → Float64
  unfolding total_wait
  score c i =
      let spread = of_int (wrap32 (mmr_at c (i + players_per_match - 1) -ℤ mmr_at c i)) in
      let avg_wait =
        div (total_wait (of_int (pos 0)) (window c i)) (of_int (pos players_per_match)) in
      sub spread (mul avg_wait (of_int wait_weight))

  -- The sliding window: rounds left, the index, the best start and its score.
  unfoldable pub slide : List QueuedPlayer → ℕ → ℕ → ℕ → Float64 → ℕ × Float64
  slide c zero i best_start best_score = (best_start, best_score)
  slide c (suc rounds) i best_start best_score =
      let s = score c i in
      let better = lt s best_score in
      slide c rounds (suc i) (if better then i else best_start) (if better then s else best_score)

  -- float64(MaxMMR+1) * 10
  abbrev pub sentinel : Float64
  sentinel = mul (of_int (pos (max_mmr + 1))) (of_int (pos 10))

  -- The loop runs for i from 0 to len(candidates) - PlayersPerMatch.
  unfoldable pub best_start : List QueuedPlayer → ℕ
  best_start c = (slide c (length c + 1 - players_per_match) 0 0 sentinel).0

  unfoldable pub select : List QueuedPlayer → List QueuedPlayer
  select c = let sorted = env.sort_slice rated_below c in window sorted (best_start sorted)

-- The removal loop over the selected players.
unfoldable pub remove_all : List QueuedPlayer → Pool → Pool
remove_all [] p = p
remove_all (q ∷ qs) p = remove_all qs (remove_player q.player_id q p)

unfoldable pub extract_match : Floats → Env → Pool → Pool × Option (List QueuedPlayer)
extract_match fl env p =
    let best_bk = (find_best (env.range_order p.brackets) (negsuc 0) 0).0 in
    let c = candidates p best_bk in
    if best_bk == negsuc 0
    then (p, none)
    else if ltb (length c) players_per_match
    then (p, none)
    else (remove_all (select fl env c) p, some (select fl env c))
