-- ===== src/Examples/Queueing.antt =====
-- The queue with ten players and with two.
use fp_insis.Prelude.{
  ◌≡◌, refl, false, none, some, [], ◌∷◌, String, arith, if◌then◌else◌, ◌==◌, string_eq, int_eq,
  nat_eq, pos, get, put,
}
use fp_insis.Chan.{make_chan}
use fp_insis.Pool.{
  QueuedPlayer, Slice, Lobby, contains, enqueue, dequeue, add_player, insert_sorted,
}
use fp_insis.Pool.Slices.{IsSorted, insert, insert_sorted-eq-insert}
use fp_insis.Pool.Queueing.{IsSafe, enqueue-IsSafe, dequeue_lem}
use fp_insis.Examples.Fixtures.{exact, exact_fits, join_all, join_all-IsSafe, two_names}

abbrev pair : Lobby
pair = join_all two_names

enqueue-IsSafe_example : IsSafe (enqueue exact (pos 5) "zoe" "Zoe" (pos 900) pair).0
enqueue-IsSafe_example =
    enqueue-IsSafe exact exact_fits (pos 5) "zoe" "Zoe" (pos 900) pair (join_all-IsSafe two_names)

zoe_new : contains "zoe" pair.pool ≡ false
unfolding join_all enqueue make_chan add_player put get
zoe_new = refl

dequeue_lem_example :
    (l' : Lobby) × (dequeue "ann" pair ≡ some (l', contains "ann" pair.pool))
    × IsSafe l'
    × ((j : String)
        → get j l'.pool.players ≡ (if "ann" == j then none else get j pair.pool.players))
dequeue_lem_example = dequeue_lem "ann" pair (join_all-IsSafe two_names)

abbrev zoe : QueuedPlayer
zoe = record {
  player_id = "zoe";
  display_name = "Zoe";
  mmr = pos 900;
  enqueued_at = pos 5;
  match_ch = 7;
}

abbrev low : QueuedPlayer
low = record zoe { player_id = "low"; mmr = pos 600 }

abbrev high : QueuedPlayer
high = record zoe { player_id = "high"; mmr = pos 990 }

abbrev row : Slice
row = record { items = low ∷ high ∷ []; cap = 12 }

row-IsSorted : IsSorted row.items
row-IsSorted = ((omega arith, tt), (tt, tt))

insert_sorted-eq-insert_example : (insert_sorted exact row zoe).items ≡ insert zoe row.items
insert_sorted-eq-insert_example = insert_sorted-eq-insert exact row zoe row-IsSorted
