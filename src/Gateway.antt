-- ===== src/Gateway.antt =====
-- GatewayServer of internal/services/gateway.go: its start, up to the first WAITING message. The
-- goroutines that run after it are in Gateway.Loop.
pub mod Entry
pub mod Loop
pub mod Cleanup
pub mod Steps
pub mod ReadyCheck
pub mod Signals
use fp_insis.Prelude.{
  ℕ, ◌+◌, ◌≡◌, Bool, true, false, ◌||◌, Option, none, some, List, [], ◌∷◌, ◌++◌, String,
  if◌then◌else◌, ◌==◌, string_eq, ℤ, pos, ltb_ℤ,
}
use fp_insis.Runtime.{unix_milli}
use fp_insis.Chan.{Chans}
use fp_insis.Pool.{
  QueuedPlayer, Lobby, MatchEvent, EnqueueResult, enqueued, refused, max_mmr, enqueue, dequeue,
}
use fp_insis.Pb.{
  PlayerInfo, JoinQueueAction, GatewayRequest, GatewayResponse, QueueStatus, waiting,
  get_join_queue,
}
use fp_insis.Status.{Code, Reply, ok, fail, invalid_argument, already_exists, internal}

-- Where the handler stands: its select, the select of a ready check, the wait for the verdict.
pub data Phase : Type 0 where
  searching : Phase
  ready_checking awaiting : MatchEvent → Phase
  returned : Reply (Unit {0}) → Phase

-- One stream: the queued player, what the reader goroutine has put in its channels (each holds one
-- value at most), and the messages that the client was sent.
pub record Stream : Type 0 where
  pub qp : QueuedPlayer
  pub phase : Phase
  pub accept_req : Bool
  pub cancel_req : Bool
  pub client_done : Bool
  pub sent : List GatewayResponse

-- What streams share: the pool, the players' channels and the ready checks' channels.
pub record World : Type 0 where
  pub lobby : Lobby
  pub bools : Chans Bool

pub data Entered : Type 0 where
  rejected : Code → World → Entered
  joined : World → Stream → Entered
  panicked : Entered

-- A response without position and match.
abbrev pub notice : QueueStatus → String → ℤ → GatewayResponse
notice status message now = record {
  status = status;
  message = message;
  queue_position = pos 0;
  server_timestamp_ms = unix_milli now;
  assignment = none;
}

-- The checks of the first message; `none` for a Recv that failed, and for a message refused.
unfoldable pub check_join : Option GatewayRequest → Option PlayerInfo
check_join none = none
check_join (some first_msg) = elim (get_join_queue first_msg) [
  | none ↦ none
  | some join ↦ elim join.player [
    | none ↦ none
    | some player ↦
        if player.player_id == ""
        then none
        else if ltb_ℤ player.mmr (pos 0) || ltb_ℤ (pos max_mmr) player.mmr
        then none
        else some player
  ]
]

-- The handler up to its loop. `sends` is whether the first Send works; where it does not, the
-- deferred Dequeue runs.
unfoldable pub enter : (ℕ → ℕ → ℕ) → ℤ → Bool → Option GatewayRequest → World → Entered
enter grow now sends first w = elim (check_join first) [
  | none ↦ rejected invalid_argument w
  | some player ↦
      let (lobby', r) = enqueue grow now player.player_id player.display_name player.mmr w.lobby in
      elim r [
        | refused e ↦ rejected already_exists (record w { lobby = lobby' })
        | enqueued qp ↦
            if sends
            then joined (record w { lobby = lobby' })
                (record {
                  qp = qp;
                  phase = searching;
                  accept_req = false;
                  cancel_req = false;
                  client_done = false;
                  sent = notice waiting "You are in the queue. Searching for opponents..." now ∷ [];
                })
            else elim (dequeue player.player_id lobby') [
              | none ↦ panicked
              | some (lobby2, _) ↦ rejected internal (record w { lobby = lobby2 })
            ]
      ]
]
