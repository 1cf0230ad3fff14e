-- ===== src/Pb.antt =====
-- The messages of pkg/pb/nexus.pb.go (from proto/nexus.proto) that the services read and write. An
-- int32 is an integer; a message pointer that may be nil is an Option; a MatchResult is an open enum,
-- whose number may be any int32.
use fp_insis.Prelude.{Bool, Option, none, some, List, String, ℤ, pos}

pub data QueueStatus : Type 0 where
  unspecified waiting matched in_game completed cancelled error ready_check : QueueStatus

abbrev pub match_result_unspecified : ℤ
match_result_unspecified = pos 0

pub record PlayerInfo : Type 0 where
  pub player_id : String
  pub display_name : String
  pub mmr : ℤ

pub record JoinQueueAction : Type 0 where
  pub player : Option PlayerInfo

pub record HeartbeatAction : Type 0 where
  pub client_timestamp_ms : ℤ

pub record CancelQueueAction : Type 0 where
  pub player_id : String
  pub reason : String

pub record AcceptMatchAction : Type 0 where
  pub player_id : String

-- The oneof of GatewayRequest.
pub data Action : Type 0 where
  join_queue : JoinQueueAction → Action
  heartbeat : HeartbeatAction → Action
  cancel_queue : CancelQueueAction → Action
  accept_match : AcceptMatchAction → Action

pub record GatewayRequest : Type 0 where
  pub action : Option Action

abbrev pub get_join_queue : GatewayRequest → Option JoinQueueAction
get_join_queue x = elim x.action [
  | none ↦ none
  | some a ↦ elim a [
    | join_queue j ↦ some j
    | heartbeat h ↦ none
    | cancel_queue c ↦ none
    | accept_match m ↦ none
  ]
]

abbrev pub get_heartbeat : GatewayRequest → Option HeartbeatAction
get_heartbeat x = elim x.action [
  | none ↦ none
  | some a ↦ elim a [
    | join_queue j ↦ none
    | heartbeat h ↦ some h
    | cancel_queue c ↦ none
    | accept_match m ↦ none
  ]
]

abbrev pub get_cancel_queue : GatewayRequest → Option CancelQueueAction
get_cancel_queue x = elim x.action [
  | none ↦ none
  | some a ↦ elim a [
    | join_queue j ↦ none
    | heartbeat h ↦ none
    | cancel_queue c ↦ some c
    | accept_match m ↦ none
  ]
]

abbrev pub get_accept_match : GatewayRequest → Option AcceptMatchAction
get_accept_match x = elim x.action [
  | none ↦ none
  | some a ↦ elim a [
    | join_queue j ↦ none
    | heartbeat h ↦ none
    | cancel_queue c ↦ none
    | accept_match m ↦ some m
  ]
]

pub record MatchAssignment : Type 0 where
  pub session_id : String
  pub player_ids : List String
  pub created_at_ms : ℤ

pub record GatewayResponse : Type 0 where
  pub status : QueueStatus
  pub message : String
  pub queue_position : ℤ
  pub server_timestamp_ms : ℤ
  pub assignment : Option MatchAssignment

pub record QueueStatsResponse : Type 0 where
  pub total_waiting : ℤ
  pub total_matched : ℤ
  pub active_sessions : ℤ

pub record ForceMatchResponse : Type 0 where
  pub matches_created : ℤ

pub record SubmitResultRequest : Type 0 where
  pub session_id : String
  pub player_id : String
  pub result : ℤ
  pub score : ℤ
  pub duration_s : ℤ

pub record SubmitResultResponse : Type 0 where
  pub accepted : Bool
  pub message : String
  pub new_mmr : ℤ

pub record GetSessionRequest : Type 0 where
  pub session_id : String

pub record PlayerResult : Type 0 where
  pub player_id : String
  pub result : ℤ
  pub score : ℤ
  pub mmr_delta : ℤ

pub record SessionSummary : Type 0 where
  pub session_id : String
  pub results : List PlayerResult
  pub started_at_ms : ℤ
  pub ended_at_ms : ℤ
  pub finalized : Bool
