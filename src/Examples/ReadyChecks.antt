-- ===== src/Examples/ReadyChecks.antt =====
-- The ready check of two players.
use fp_insis.Prelude.{
  ℕ, ◌≡◌, refl, Bool, true, false, none, some, List, [], ◌∷◌, ◌++◌, String, arith, length,
  if◌then◌else◌, ◌==◌, string_eq, nat_eq, pos, get, All, replicate,
}
use fp_insis.Pool.{QueuedPlayer, new_pool}
use fp_insis.Pool.Invariant.{IsValid, new_pool-IsValid}
use fp_insis.Session.{new_session, new_session_store, get_session}
use fp_insis.Coordinator.{
  Arrival, response, gather, await_responses, requeue, ids_of, Shared, verdict,
}
use fp_insis.Coordinator.Gather.{EachOnce, await_all}
use fp_insis.Coordinator.Verdict.{
  accepting, fresh_chan, told_chan, is_one_of, NumbersDistinct, verdict_confirmed,
  verdict_cancelled, PlayersDistinct, late_accept_dropped,
}
use fp_insis.Matchmaker.{Room, Engine}
use fp_insis.System.{CoordAction, Coord, gathers, expires, tells, puts_back, stepped}
use fp_insis.System.Alone.{answered, run_coord}
use fp_insis.Examples.Fixtures.{exact, exact_fits, empty_lobby}

abbrev ann : QueuedPlayer
ann = record {
  player_id = "ann";
  display_name = "Ann";
  mmr = pos 1010;
  enqueued_at = pos 5;
  match_ch = 0;
}

abbrev bob : QueuedPlayer
bob = record {
  player_id = "bob";
  display_name = "Bob";
  mmr = pos 1020;
  enqueued_at = pos 6;
  match_ch = 1;
}

abbrev both : List QueuedPlayer
both = ann ∷ bob ∷ []

abbrev yes_yes : List Arrival
yes_yes = response 1 true ∷ response 0 true ∷ []

yes_yes_once : EachOnce (length both) yes_yes
yes_yes_once = (omega arith, refl, (omega arith, refl, tt))

yes_yes_all : await_responses both yes_yes ≡ some (true ∷ true ∷ [], true)
unfolding await_responses gather
yes_yes_all = refl

await_all_example : (true ∷ true ∷ []) ≡ replicate (length both) true
await_all_example = await_all both yes_yes (true ∷ true ∷ []) yes_yes_once yes_yes_all

abbrev shared : Shared
shared = record {
  pool = new_pool;
  sessions = new_session_store;
  bools = record { next = 2; cells = (0, fresh_chan) ∷ (1, fresh_chan) ∷ [] };
}

shared_fresh : All (λ c. get c shared.bools.cells ≡ some fresh_chan) (0 ∷ 1 ∷ [])
unfolding get
shared_fresh = (refl, (refl, tt))

zero_one_distinct : NumbersDistinct (0 ∷ 1 ∷ [])
zero_one_distinct = (refl, (refl, tt))

verdict_confirmed_example :
    (s' : Shared) × (verdict exact (pos 9) "s1" both (0 ∷ 1 ∷ []) (true ∷ true ∷ []) true shared
      ≡ some s')
    × (s'.pool ≡ shared.pool)
    × ((j : String)
        → get_session j s'.sessions ≡ (
            if "s1" == j
            then some (new_session (pos 9) "s1" (ids_of both))
            else get_session j shared.sessions))
    × ((d : ℕ)
        → get d s'.bools.cells
          ≡ (if is_one_of d (0 ∷ 1 ∷ []) then some (told_chan true) else get d shared.bools.cells))
verdict_confirmed_example =
    verdict_confirmed exact exact_fits (pos 9) "s1" both (0 ∷ 1 ∷ []) (true ∷ true ∷ []) shared
      zero_one_distinct shared_fresh

verdict_cancelled_example :
    (s' : Shared) × (verdict exact (pos 9) "s1" both (0 ∷ 1 ∷ []) (true ∷ false ∷ []) false shared
      ≡ some s')
    × (s'.sessions ≡ shared.sessions)
    × IsValid s'.pool
    × ((j : String)
        → get j s'.pool.players ≡ elim (get j shared.pool.players) [
          | none ↦ accepting j both (true ∷ false ∷ [])
          | some q ↦ some q
        ])
    × ((d : ℕ)
        → get d s'.bools.cells
          ≡ (if is_one_of d (0 ∷ 1 ∷ []) then some (told_chan false) else get d shared.bools.cells))
verdict_cancelled_example =
    verdict_cancelled exact exact_fits (pos 9) "s1" both (0 ∷ 1 ∷ []) (true ∷ false ∷ []) shared
      zero_one_distinct shared_fresh new_pool-IsValid

both_distinct : PlayersDistinct both
both_distinct = ((refl, tt), (tt, tt))

bob_refuses :
    await_responses both ([] ++ response 1 false ∷ response 0 true ∷ [])
    ≡ some (false ∷ false ∷ [], false)
unfolding await_responses gather
bob_refuses = refl

ann_absent : get "ann" new_pool.players ≡ none
unfolding get
ann_absent = refl

late_accept_dropped_example :
    get ann.player_id (requeue exact both (false ∷ false ∷ []) new_pool).players ≡ none
late_accept_dropped_example =
    late_accept_dropped exact exact_fits both [] (response 0 true ∷ []) 1 0 ann (false ∷ false ∷ [])
      new_pool both_distinct refl refl (λ e. omega (arith, e)) bob_refuses ann_absent

abbrev room : Room
room = record {
  session_id = "s1";
  players = both;
  response_chs = 2 ∷ 3 ∷ [];
  result_chs = 0 ∷ 1 ∷ [];
}

abbrev engine : Engine
engine = record {
  lobby = empty_lobby;
  bools = shared.bools;
  sessions = shared.sessions;
  matches_created = 1;
}

-- Ann has accepted, and the time is over.
abbrev ann_only : List (ℕ × Bool)
ann_only = (0, true) ∷ []

abbrev own_steps : List CoordAction
own_steps =
    gathers (pos 8)
    ∷ expires (pos 9)
    ∷ tells
    ∷ tells
    ∷ tells
    ∷ puts_back
    ∷ puts_back
    ∷ puts_back
    ∷ []

abbrev reached : Engine × Coord
reached = elim (run_coord exact own_steps engine (answered room ann_only true)) [
  | stepped r ↦ r
  | _ ↦ (engine, answered room ann_only true)
]
