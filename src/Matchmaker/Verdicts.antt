-- ===== src/Matchmaker/Verdicts.antt =====
-- The rooms of a tick and the coordinator's verdict on each.
use fp_insis.Prelude.{
  ℕ, ◌≤◌, ◌≡◌, subst, sym, ◌∙◌, Bool, true, false, some, List, All, All-map, if◌then◌else◌, nat_eq,
  string_eq, ℤ, get,
}
use fp_insis.Runtime.{Floats}
use fp_insis.Chan.{Chans}
use fp_insis.Pool.Invariant.{IsValid}
use fp_insis.Pool.Queueing.{IsSafe}
use fp_insis.Coordinator.{Shared, verdict}
use fp_insis.Coordinator.Verdict.{
  fresh_chan, told_chan, is_one_of, verdict_confirmed, verdict_cancelled,
}
use fp_insis.Matchmaker.{Round, Room, Engine, TickResult, done, panicked, out_of_fuel, tick_all}
use fp_insis.Matchmaker.Rooms.{Unmade, MadeFresh}
use fp_insis.Matchmaker.Opening.{IsOpened}
use fp_insis.Matchmaker.Tick.{tick_total}

abbrev pub shared_of : Engine → Shared
shared_of e = record { pool = e.lobby.pool; sessions = e.sessions; bools = e.bools }

module _ (grow : ℕ → ℕ → ℕ) (grow_fits : (c n : ℕ) → n ≤ grow c n) (now : ℤ)
    (accepted : List Bool) where
  -- The verdict on a room is given, and every gateway of the room is told it.
  abbrev pub IsDecided : Engine → Bool → Room → Type 0
  IsDecided e v room =
      (s' : Shared) × (verdict grow now room.session_id room.players room.result_chs accepted v
          (shared_of e)
        ≡ some s')
      × IsValid s'.pool
      × ((d : ℕ)
          → get d s'.bools.cells
            ≡ (if is_one_of d room.result_chs then some (told_chan v) else get d e.bools.cells))

  opened-IsDecided :
      (h : Chans Bool) (e : Engine) (v : Bool) (room : Room)
      → IsSafe e.lobby
      → IsOpened h e.bools room
      → IsDecided e v room
  opened-IsDecided h e v room safe o = go v (
      All-map (MadeFresh h e.bools) (λ c. get c e.bools.cells ≡ some fresh_chan) room.result_chs
        (λ c m. m.2) o.fresh_results)
    where
      go :
          (v : Bool)
          → All (λ c. get c e.bools.cells ≡ some fresh_chan) room.result_chs
          → IsDecided e v room
      go true fresh =
          let (s', eq, same, _, told) =
            verdict_confirmed grow grow_fits now room.session_id room.players room.result_chs
              accepted (shared_of e) o.distinct fresh in
          (s', eq, rw same safe.valid, told)
      go false fresh =
          let (s', eq, _, valid, _, told) =
            verdict_cancelled grow grow_fits now room.session_id room.players room.result_chs
              accepted (shared_of e) o.distinct fresh safe.valid in
          (s', eq, valid, told)

  -- From a lobby in good order, the coordinator of each room that a tick opens can give either verdict
  -- on the state that the tick leaves: no send blocks and no close panics, the room's gateways are all
  -- told it and no other channel is touched, and the pool is valid.
  pub tick-verdict :
      (fl : Floats) (rounds : ℕ → Round) (e e' : Engine) (rooms : List Room) (v : Bool)
      → IsSafe e.lobby
      → Unmade e.bools
      → tick_all fl rounds e ≡ done e' rooms
      → All (IsDecided e' v) rooms
  tick-verdict fl rounds e e' rooms v safe unmade ran =
      let (e1, rooms1, ends, did, _) = tick_total fl rounds e safe unmade in
      subst Decided (sym ends ∙ ran) (
        All-map (IsOpened e.bools e1.bools) (IsDecided e1 v) rooms1
          (λ room o. opened-IsDecided e.bools e1 v room did.safe o) did.opened)
    where
      Decided : TickResult → Type 0
      Decided (done e2 rooms2) = All (IsDecided e2 v) rooms2
      Decided panicked = Unit
      Decided out_of_fuel = Unit
