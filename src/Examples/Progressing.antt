-- ===== src/Examples/Progressing.antt =====
-- Ten players connect, and a round of the worker opens their ready check.
use fp_insis.Prelude.{
  ◌≡◌, refl, true, false, Bool, Option, arith, none, some, List, [], ◌∷◌, String, ℤ, pos, get, put,
  get_elem?, ◌+ℤ◌, ◌-ℤ◌, wrap32,
}
use fp_insis.Chan.{make_chan, try_send}
use fp_insis.Pool.{enqueue, add_player, insert_sorted, search_index, bracket_key}
use fp_insis.Pool.Extract.{
  extract_match, find_best, collect, candidates, select, best_start, slide, score, total_wait,
  remove_all,
}
use fp_insis.Matchmaker.{Round, make_room_chans, notify, open_room}
use fp_insis.Gateway.{enter, check_join}
use fp_insis.Gateway.Entry.{join_message}
use fp_insis.System.{
  Coord, CoordAction, ended, Stepped, idle, crashed, stuck, stepped, System, Action, connects,
  draws, system_step, draw_round, new_system, launched,
}
use fp_insis.System.Reach.{Reached, start, later}
use fp_insis.System.Progress.{run_steps, Reached-ended}
use fp_insis.Examples.Fixtures.{exact, exact_fits, whole_floats, plain_env, ten_names}

abbrev after : Stepped System → System → System
after idle s = s
after crashed s = s
after stuck s = s
after (stepped t) s = t

after-Reached :
    (o : Stepped System) (a : Action) (s : System)
    → system_step exact whole_floats a s ≡ o
    → Reached exact exact_fits whole_floats s
    → Reached exact exact_fits whole_floats (after o s)
after-Reached idle a s e r = r
after-Reached crashed a s e r = r
after-Reached stuck a s e r = r
after-Reached (stepped t) a s e r = later s t a r e

-- The last action of the list first.
unfoldable taken_to : List Action → System
taken_to [] = new_system
taken_to (a ∷ rest) = after (system_step exact whole_floats a (taken_to rest)) (taken_to rest)

taken_to-Reached : (l : List Action) → Reached exact exact_fits whole_floats (taken_to l)
unfolding taken_to
taken_to-Reached [] = start
taken_to-Reached (a ∷ rest) = after-Reached _ a (taken_to rest) refl (taken_to-Reached rest)

abbrev all_join : List (String × ℤ) → List Action
all_join [] = []
all_join ((id, mmr) ∷ rest) =
    connects (pos 0) true
      (some (join_message (record { player_id = id; display_name = id; mmr = mmr })))
    ∷ all_join rest

abbrev round : Round
round = record { env = plain_env; session_id = "s1"; now = pos 60 }

abbrev opened : System
opened = taken_to (draws round ∷ all_join ten_names)

abbrev is_some : Option Coord → Bool
is_some none = false
is_some (some c) = true

abbrev coord_of : Option Coord → Coord
coord_of none =
    launched (record { session_id = ""; players = []; response_chs = []; result_chs = [] })
coord_of (some c) = c

some-coord_of : (o : Option Coord) → is_some o ≡ true → o ≡ some (coord_of o)
some-coord_of none h = absurd (ground arith)
some-coord_of (some c) h = refl

one_coordinator : is_some (get_elem? opened.coords 0) ≡ true
unfolding taken_to system_step draw_round enter check_join enqueue make_chan add_player
    insert_sorted search_index bracket_key put get extract_match find_best collect candidates ◌+ℤ◌
    ◌-ℤ◌ select best_start slide score total_wait wrap32 remove_all open_room make_room_chans notify
    try_send
one_coordinator = refl

Reached-ended_example :
    (actions : List CoordAction) × (s' : System) × (c' : Coord) × (run_steps exact whole_floats 0
        actions opened
      ≡ stepped s')
    × (get_elem? s'.coords 0 ≡ some c')
    × (c'.phase ≡ ended)
Reached-ended_example =
    Reached-ended exact exact_fits whole_floats 0 opened (coord_of (get_elem? opened.coords 0))
      (taken_to-Reached (draws round ∷ all_join ten_names)) (some-coord_of _ one_coordinator)
