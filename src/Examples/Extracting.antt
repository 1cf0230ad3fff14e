-- ===== src/Examples/Extracting.antt =====
-- A match made of ten players, and a tick.
use fp_insis.Prelude.{
  replicate, ℕ, ◌+◌, ◌*◌, ◌≤◌, ◌≡◌, refl, Bool, true, false, Option, none, some, List, [], ◌∷◌,
  String, arith, length, if◌then◌else◌, pos, pos_part, get, put, int_eq, string_eq, nat_eq, All,
  ◌≤ℤ◌, ◌+ℤ◌, ◌-ℤ◌, wrap32, ltb_ℤ,
}
use fp_insis.Chan.{make_chan}
use fp_insis.Pool.{
  QueuedPlayer, Pool, Slice, players_per_match, size, has_id, enqueue, add_player, insert_sorted,
  search_index, bracket_key, slice_at,
}
use fp_insis.Pool.Invariant.{IsValid}
use fp_insis.Pool.Extract.{
  extract_match, find_best, collect, candidates, select, slide, score, best_start, total_wait,
  sentinel,
}
use fp_insis.Pool.Extract.Match.{IsMatch, extract_some}
use fp_insis.Pool.Extract.Progress.{extract_full, extract_spread}
use fp_insis.Pool.Extract.Window.{best_start_least}
use fp_insis.Session.{new_session_store}
use fp_insis.Matchmaker.{
  Round, Room, Engine, done, tick_all, Turn, own, others, answered, force_match,
}
use fp_insis.Matchmaker.Verdicts.{IsDecided, tick-verdict}
use fp_insis.Matchmaker.Rooms.{Unmade}
use fp_insis.Matchmaker.Opening.{Ticked}
use fp_insis.Matchmaker.Tick.{Exhausted, tick_total}
use fp_insis.Matchmaker.Admin.{force_match_lem}
use fp_insis.Examples.Fixtures.{
  exact, exact_fits, whole_floats, plain_env, join_all, join_all-IsSafe, ten_names, two_names,
}

abbrev full_pool : Pool
full_pool = (join_all ten_names).pool

abbrev drawn : Pool × Option (List QueuedPlayer)
drawn = extract_match whole_floats plain_env full_pool

abbrev chosen_ten : List QueuedPlayer
chosen_ten = elim drawn.1 [ none ↦ [] | some l ↦ l ]

drawn_all : drawn ≡ (drawn.0, some chosen_ten)
unfolding join_all enqueue make_chan add_player insert_sorted search_index bracket_key put get
    extract_match find_best collect candidates ◌+ℤ◌ ◌-ℤ◌
drawn_all = refl

extract_some_example :
    IsMatch full_pool chosen_ten
    × IsValid drawn.0
    × (size drawn.0 + players_per_match ≡ size full_pool)
    × ((j : String)
        → get j drawn.0.players ≡ (if has_id j chosen_ten then none else get j full_pool.players))
extract_some_example =
    extract_some whole_floats plain_env full_pool (join_all-IsSafe ten_names).valid drawn.0
      chosen_ten drawn_all

abbrev pair_pool : Pool
pair_pool = (join_all two_names).pool

abbrev idle : Pool × Option (List QueuedPlayer)
idle = extract_match whole_floats plain_env pair_pool

idle-none : idle ≡ (idle.0, none)
unfolding join_all enqueue make_chan add_player insert_sorted search_index bracket_key put get
    extract_match find_best collect candidates ◌+ℤ◌ ◌-ℤ◌
idle-none = refl

abbrev bracket_two : Slice
bracket_two = slice_at full_pool.brackets (pos 2)

bracket_two_there : get (pos 2) full_pool.brackets ≡ some bracket_two
unfolding join_all enqueue make_chan add_player insert_sorted search_index bracket_key put get
bracket_two_there = refl

bracket_two_length : length bracket_two.items ≡ 10
unfolding join_all enqueue make_chan add_player insert_sorted search_index bracket_key put get
bracket_two_length = refl

extract_full_example :
    (p' : Pool) × (sel : List QueuedPlayer) × (extract_match whole_floats plain_env full_pool
      ≡ (p', some sel))
extract_full_example =
    extract_full whole_floats plain_env full_pool (join_all-IsSafe ten_names).valid (pos 2)
      bracket_two bracket_two_there (omega (arith, bracket_two_length))

all_rated : List (String × QueuedPlayer) → Bool
all_rated [] = true
all_rated ((id, q) ∷ rest) = if ltb_ℤ q.mmr (pos 0) then false else all_rated rest

rated_of :
    (m : List (String × QueuedPlayer)) (id : String) (q : QueuedPlayer)
    → all_rated m ≡ true
    → get id m ≡ some q
    → pos 0 ≤ℤ q.mmr
unfolding all_rated get
rated_of [] id q h e = absurd (cc)
rated_of ((j, r) ∷ rest) id q h e = ground (arith, rated_of rest id q)

full_pool_rated : all_rated full_pool.players ≡ true
unfolding all_rated join_all enqueue make_chan add_player insert_sorted search_index bracket_key put
    get
full_pool_rated = refl

extract_spread_example :
    All (λ a. All (λ b. pos_part b.mmr ≤ pos_part a.mmr + 2499) chosen_ten) chosen_ten
extract_spread_example =
    extract_spread whole_floats plain_env full_pool (join_all-IsSafe ten_names).valid
      (λ id q e. rated_of full_pool.players id q full_pool_rated e) drawn.0 chosen_ten drawn_all

chosen_ten-length : length chosen_ten ≡ 10
unfolding join_all enqueue make_chan add_player insert_sorted search_index bracket_key put get
    extract_match find_best collect candidates ◌+ℤ◌ ◌-ℤ◌ select best_start slide score total_wait
    wrap32
chosen_ten-length = refl

first_low :
    ltb_ℤ (score whole_floats plain_env chosen_ten 0) (sentinel whole_floats plain_env) ≡ true
unfolding join_all enqueue make_chan add_player insert_sorted search_index bracket_key put get
    extract_match find_best collect candidates ◌+ℤ◌ ◌-ℤ◌ select best_start slide score total_wait
    wrap32
first_low = refl

best_start_least_example :
    ltb_ℤ
      (score whole_floats plain_env chosen_ten 0)
      (score whole_floats plain_env chosen_ten (best_start whole_floats plain_env chosen_ten))
    ≡ false
best_start_least_example =
    best_start_least whole_floats plain_env chosen_ten 0 0 (omega (arith, chosen_ten-length))
      (omega (arith, chosen_ten-length)) first_low

abbrev rounds : ℕ → Round
rounds i = record { env = plain_env; session_id = "s1"; now = pos 60 }

abbrev engine : Engine
engine = record {
  lobby = join_all ten_names;
  bools = record { next = 0; cells = [] };
  sessions = new_session_store;
  matches_created = 0;
}

engine-Unmade : Unmade engine.bools
unfolding get
engine-Unmade = λ n le. refl

engine_size : size engine.lobby.pool ≡ 10
unfolding join_all enqueue make_chan add_player insert_sorted search_index bracket_key put get
engine_size = refl

tick_total_example :
    (e' : Engine) × (rooms : List Room) × (tick_all whole_floats rounds engine ≡ done e' rooms)
    × Ticked engine e' rooms
    × Exhausted whole_floats rounds (0 + length rooms) e'
tick_total_example = tick_total whole_floats rounds engine (join_all-IsSafe ten_names) engine-Unmade

abbrev turns : List Turn
turns = own (rounds 0) ∷ others (rounds 1) ∷ replicate 12 (own (rounds 2))

force_match_lem_example :
    (e' : Engine) × (mine theirs : List Room) × (force_match whole_floats turns engine
      ≡ answered e' mine theirs (record { matches_created = pos (length mine + length theirs) }))
    × (size e'.lobby.pool + players_per_match * (length mine + length theirs)
        ≡ size engine.lobby.pool)
    × (e'.matches_created ≡ engine.matches_created + (length mine + length theirs))
force_match_lem_example =
    force_match_lem whole_floats turns engine (join_all-IsSafe ten_names) engine-Unmade
      (omega (arith, engine_size)) (omega (arith, engine_size))

engine_ticks :
    (e' : Engine) × (rooms : List Room) × (tick_all whole_floats rounds engine ≡ done e' rooms)
    × Ticked engine e' rooms
    × Exhausted whole_floats rounds (0 + length rooms) e'
engine_ticks = tick_total whole_floats rounds engine (join_all-IsSafe ten_names) engine-Unmade

tick-verdict_example :
    All (IsDecided exact exact_fits (pos 90) [] engine_ticks.0 false) engine_ticks.1
tick-verdict_example =
    tick-verdict exact exact_fits (pos 90) [] whole_floats rounds engine engine_ticks.0
      engine_ticks.1 false (join_all-IsSafe ten_names) engine-Unmade engine_ticks.2
