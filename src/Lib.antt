-- ===== src/Lib.antt =====
-- Nexus-Match, a matchmaking and session server: a pool of waiting players, a matchmaker that
-- draws matches of ten from it, a ready check, a store of sessions and their results, and the
-- gRPC services around them, with a simulator of its clients. The code is Go.
--
-- The parts and their files:
--   Pool, Pool.Extract: internal/state/pool.go. QueuedPlayer, MatchEvent and Pool are records;
--     new_pool, enqueue, re_enqueue, dequeue, contains and size are its methods of these names,
--     insert_sorted and remove_from_slice the helpers, extract_match ExtractMatch. Pool.Invariant
--     says what a pool always satisfies, Pool.Slices and Pool.Removal treat the sorted slices,
--     Pool.Queueing the calls, Pool.Channels the channels of players who are not queued,
--     Pool.Extract.* the extraction. Pool.Contract is an abstract queue and what each call may do
--     to it, without brackets, slices and channels.
--   Session: internal/state/session.go. create_session, record_result, get_session and
--     active_count.
--   Matchmaker, Coordinator, Worker: internal/services/matchmaker.go. tick with make_room_chans,
--     notify and open_room, a round of it as draw, get_queue_stats and force_match, which other
--     goroutines' rounds may interrupt; the coordinator's gathering loop and its verdict;
--     StartWorker, StopWorker, the worker's loop and the WaitGroup.
--   Gateway: internal/services/gateway.go. enter is EnterMatchmaking up to its loop; Gateway.Loop
--     has the loop and the reader goroutine as steps of a stream.
--   Tracker: internal/services/tracker.go. submit_result and get_session_rpc.
--   Interceptor: internal/interceptor/interceptor.go and the chains of cmd/server/main.go, a
--     stream's in two parts, stream_opens and stream_ends, since other streams come and go
--     between them.
--   System: what cmd/server/main.go wires together, as one state on which streams, rounds of
--     ticks, coordinators and submissions take steps in any order. Its coordinators are the
--     goroutines of readyCheckCoordinator step by step, with their fan-in. System.Shared is what
--     they rely on of each other, System.Running a step from a state where it holds, System.Reach
--     the states that they reach, System.Progress how a ready check ends, System.Alone a
--     coordinator by itself.
--   Client: client/main.go, a simulated player, whose read loop and heartbeat goroutine send on
--     one stream, and the counters of a run.
--   Pb: the messages of pkg/pb/nexus.pb.go. Status: the status codes. Chan: Go channels.
--   Runtime: float64, a parameter, and UnixMilli. Prelude: lists, maps, integers and equality.
--     Examples: each result at a concrete input.
--
-- How they interact: a gateway stream enqueues its player with a channel; a tick extracts ten
-- players, makes a response and a result channel for each and sends each an event; the gateway
-- asks its client and answers on the response channel; the coordinator gathers the answers,
-- creates the session or puts the accepting players back, and tells every gateway on the result
-- channels. The tracker then takes the results. Each call that holds a mutex is one function on
-- the state it guards; goroutines are sequences of steps or of arrivals, in any order.
--
-- Bounds and fuel. Numbers are natural; an int32 is an integer, with the wrap-around written out
-- where the code can leave the range. A map is an association list with different keys; the order
-- in which `range` visits one is a parameter, any permutation. sort.Slice is a parameter: any
-- sorted permutation. append's growth of an array is a parameter. The binary search has one unit
-- of fuel more than the slice's length, and its range halves in each round; a tick has one more
-- than the pool's size, and each round takes ten players out; a ForceMatch ends within two turns
-- of its own more than that size. The match counter and the client's counters are not taken to
-- wrap. Times are nanoseconds since 1970.
--
-- Not modelled: logging but for the levels of the interceptors' records, error texts, the time at
-- which the ticker and the contexts fire, the network, the flags, listener and signals of
-- cmd/server/main.go with the calls of the grpc server, and the generated code but for the
-- messages. In System a round of a tick is one step, though its sends are many, and nothing that
-- reads only is a step. sync.WaitGroup is taken as documented; what it does once an Add from zero
-- meets a Wait is left open.
mod Prelude
pub mod Runtime
pub mod Chan
pub mod Pool
pub mod Session
pub mod Pb
pub mod Status
pub mod Tracker
pub mod Coordinator
pub mod Matchmaker
pub mod Gateway
pub mod Interceptor
pub mod System
pub mod Worker
pub mod Client
mod Examples
