-- ===== src/Coordinator.antt =====
-- readyCheckCoordinator of internal/services/matchmaker.go. What reaches its select is a list of
-- arrivals: the answer that a fan-in goroutine passes on, or the end of the context. The goroutines
-- and the clock choose the order; each goroutine passes on one answer.
pub mod Gather
pub mod Verdict
use fp_insis.Prelude.{
  ℕ, suc, ◌+◌, Bool, true, false, Option, none, some, List, [], ◌∷◌, String, map, ltb, length, set,
  replicate, if◌then◌else◌, ℤ,
}
use fp_insis.Chan.{Chans, try_send, close}
use fp_insis.Pool.{QueuedPlayer, Pool, re_enqueue}
use fp_insis.Session.{SessionStore, create_session}

pub data Arrival : Type 0 where
  response : ℕ → Bool → Arrival
  deadline : Arrival

-- The gathering loop: the flags and the count so far, and the arrivals. `none` is a loop that still
-- waits; else the flags, and whether all accepted.
unfoldable pub gather : ℕ → ℕ → List Bool → List Arrival → Option (List Bool × Bool)
gather n received accepted [] = if ltb received n then none else some (accepted, true)
gather n received accepted (response idx answer ∷ rest) =
    let accepted' = set accepted idx answer in
    let later = gather n (received + 1) accepted' rest in
    if ltb received n
    then (if answer then later else some (accepted', false))
    else some (accepted, true)
gather n received accepted (deadline ∷ rest) =
    if ltb received n then some (accepted, false) else some (accepted, true)

-- The loop from its start: no answer yet, and every flag false.
unfoldable pub await_responses : List QueuedPlayer → List Arrival → Option (List Bool × Bool)
unfolding gather
await_responses players arrivals =
    gather (length players) 0 (replicate (length players) false) arrivals

-- for _, ch := range resultChannels { ch <- v; close(ch) }. `none` is a panic, or a send that would
-- block for good on a full buffer.
unfoldable pub announce : Bool → List ℕ → Chans Bool → Option (Chans Bool)
announce v [] h = some h
announce v (c ∷ cs) h = elim (try_send c v h) [
  | none ↦ none
  | some (h1, sent) ↦
      let next : Option (Chans Bool) = elim (close c h1) [
        | none ↦ none
        | some h2 ↦ announce v cs h2
      ] in
      if sent then next else none
]

-- for i, p := range players { if accepted[i] { ReEnqueue(p) } }
unfoldable pub requeue : (ℕ → ℕ → ℕ) → List QueuedPlayer → List Bool → Pool → Pool
requeue grow [] accepted p = p
requeue grow (q ∷ qs) [] p = p
requeue grow (q ∷ qs) (a ∷ accepted) p =
    requeue grow qs accepted (if a then (re_enqueue grow q p).0 else p)

abbrev pub ids_of : List QueuedPlayer → List String
ids_of = map (λ q. q.player_id)

-- What the coordinator shares with the rest of the server.
pub record Shared : Type 0 where
  pub pool : Pool
  pub sessions : SessionStore
  pub bools : Chans Bool

-- The code from the label verdict on.
unfoldable pub verdict :
    (ℕ → ℕ → ℕ)
    → ℤ
    → String
    → List QueuedPlayer
    → List ℕ
    → List Bool
    → Bool
    → Shared
    → Option Shared
verdict grow now session_id players result_chs accepted all_accepted s =
    let created = create_session now session_id (ids_of players) s.sessions in
    elim (announce all_accepted result_chs s.bools) [
      | none ↦ none
      | some bools' ↦
          if all_accepted
          then some (record s { sessions = created; bools = bools' })
          else some (record s { pool = requeue grow players accepted s.pool; bools = bools' })
    ]
