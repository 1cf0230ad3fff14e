-- ===== src/Gateway/Entry.antt =====
-- What the first message must be, and what the start of a stream leaves in the pool.
use fp_insis.Prelude.{
  ℕ, ◌≤◌, ◌≡◌, refl, ap, subst, ◌∙◌, inl, inr, ◌≢◌, ◌↔◌, Bool, true, false, ◌||◌, Option, none,
  some, String, arith, if◌then◌else◌, ◌==◌, ==_refl, string_eq, ℤ, pos, ltb_ℤ, ◌≤ℤ◌, get,
  Bool-cases, Option-cases,
}
use text.Mathlib.TextEquality.{eq_iff}
use fp_insis.Pool.{max_mmr, contains, Lobby, EnqueueResult, enqueue}
use fp_insis.Pb.{
  PlayerInfo, GatewayRequest, Action, join_queue, heartbeat, cancel_queue, accept_match,
}
use fp_insis.Gateway.Cleanup.{IsSound}
use fp_insis.Status.{invalid_argument, already_exists, internal}
use fp_insis.Pool.Queueing.{IsSafe, enqueue-IsSafe, enqueue_accepted, enqueue_refused, dequeue_lem}
use fp_insis.Gateway.{check_join, World, Stream, searching, Entered, rejected, joined, enter}

abbrev pub join_message : PlayerInfo → GatewayRequest
join_message player = record { action = some (join_queue (record { player = some player })) }

-- A player's id is not empty and the rating is from 0 to MaxMMR.
pub record IsAdmissible (player : PlayerInfo) : Type 0 where
  pub named : player.player_id ≢ ""
  pub rated : pos 0 ≤ℤ player.mmr
  pub bounded : player.mmr ≤ℤ pos max_mmr

admitted :
    (player p : PlayerInfo)
    → (if player.player_id == ""
        then none
        else if ltb_ℤ player.mmr (pos 0) || ltb_ℤ (pos max_mmr) player.mmr
        then none
        else some player)
      ≡ some p
    → (player ≡ p) × IsAdmissible player
admitted player p h = (
  ground arith,
  record {
    named = λ e. ground (arith, eq_iff player.player_id "");
    rated = ground arith;
    bounded = ground arith;
  },
)

admissible_passes :
    (player : PlayerInfo)
    → IsAdmissible player
    → check_join (some (join_message player)) ≡ some player
unfolding check_join
admissible_passes player a = ground (arith, eq_iff player.player_id "", a.named)

passed :
    (first : GatewayRequest) (player : PlayerInfo) (act : Option Action)
    → first.action ≡ act
    → check_join (some first) ≡ some player
    → (some first ≡ some (join_message player)) × IsAdmissible player
unfolding check_join
passed first player none e h = absurd (ground arith)
passed first player (some (heartbeat x)) e h = absurd (ground arith)
passed first player (some (cancel_queue x)) e h = absurd (ground arith)
passed first player (some (accept_match x)) e h = absurd (ground arith)
passed first player (some (join_queue j)) e h = elim (Option-cases j.player) [
  | inl n ↦ absurd (ground arith)
  | inr (pl, f) ↦
      let (same, a) = admitted pl player (ground arith) in
      (
        ap with_action e ∙ ap with_player (f ∙ ap (λ (x : PlayerInfo). some x) same),
        subst IsAdmissible same a,
      )
]
  where
    with_action : Option Action → Option GatewayRequest
    with_action x = some (record { action = x })

    with_player : Option PlayerInfo → Option GatewayRequest
    with_player x = some (record { action = some (join_queue (record { player = x })) })

-- The first message passes exactly when it is a join with an admissible player.
pub check_join_iff :
    (first : Option GatewayRequest) (player : PlayerInfo)
    → (check_join first ≡ some player) ↔ (first ≡ some (join_message player)) × IsAdmissible player
check_join_iff none player = (λ h. absurd (unfold check_join in cc), λ (h, a). absurd (cc))
check_join_iff (some first) player =
    (passed first player first.action refl, λ (h, a). rw h (admissible_passes player a))

-- How a stream starts, and what the pool then holds.
pub data EnterOutcome (w : World) : Option PlayerInfo → Bool → Entered → Type 0 where
  bad_message : {sends : Bool} → EnterOutcome w none sends (rejected invalid_argument w)
  queued_twice :
      {player : PlayerInfo} {sends : Bool}
      → contains player.player_id w.lobby.pool ≡ true
      → EnterOutcome w (some player) sends (rejected already_exists w)
  unheard :
      {player : PlayerInfo} (w' : World)
      → contains player.player_id w.lobby.pool ≡ false
      → IsSafe w'.lobby
      → ((j : String) → get j w'.lobby.pool.players ≡ get j w.lobby.pool.players)
      → w'.bools ≡ w.bools
      → EnterOutcome w (some player) false (rejected internal w')
  waits :
      {player : PlayerInfo} (w' : World) (s : Stream)
      → contains player.player_id w.lobby.pool ≡ false
      → IsSound w' s
      → s.phase ≡ searching
      → s.qp.player_id ≡ player.player_id
      → s.qp.mmr ≡ player.mmr
      → ((j : String)
          → get j w'.lobby.pool.players
            ≡ (if player.player_id == j then some s.qp else get j w.lobby.pool.players))
      → w'.bools ≡ w.bools
      → EnterOutcome w (some player) true (joined w' s)

module _ (grow : ℕ → ℕ → ℕ) (grow_fits : (c n : ℕ) → n ≤ grow c n) where
  accepted_start :
      (now : ℤ) (sends : Bool) (player : PlayerInfo) (first : Option GatewayRequest) (w : World)
      → IsSafe w.lobby
      → check_join first ≡ some player
      → contains player.player_id w.lobby.pool ≡ false
      → EnterOutcome w (some player) sends (enter grow now sends first w)
  unfolding enter
  accepted_start now true player first w safe e new =
      let id = player.player_id in
      let (qp, r, m, t, o, em, sz, g) =
        enqueue_accepted grow grow_fits now id player.display_name player.mmr w.lobby new in
      let safe' =
        enqueue-IsSafe grow grow_fits now id player.display_name player.mmr w.lobby safe in
      rw (e, r, enter)
        (waits _ _ new (record { safe = safe'; waiting = rw em tt; current = tt }) refl
          (safe'.valid.keyed id qp (ground (arith, g id, ==_refl id))) m g refl)
  accepted_start now false player first w safe e new =
      let id = player.player_id in
      let (qp, r, m, t, o, em, sz, g) =
        enqueue_accepted grow grow_fits now id player.display_name player.mmr w.lobby new in
      let safe' =
        enqueue-IsSafe grow grow_fits now id player.display_name player.mmr w.lobby safe in
      let l' = (enqueue grow now id player.display_name player.mmr w.lobby).0 in
      let (l2, d, safe2, g2) = dequeue_lem id l' safe' in
      rw (e, r, d, enter) (unheard _ new safe2 (λ j. ground (arith, g2 j, g j, eq_iff id j)) refl)

  -- From a lobby in good order the start of a stream never panics. A bad first message is refused with
  -- InvalidArgument and a player who is queued with AlreadyExists, and nothing changes. If the first
  -- Send fails, it is Internal, and the players are those before. Else the player is queued and the
  -- handler searches, in a sound state.
  pub enter_lem :
      (now : ℤ) (sends : Bool) (first : Option GatewayRequest) (w : World)
      → IsSafe w.lobby
      → EnterOutcome w (check_join first) sends (enter grow now sends first w)
  unfolding enter
  enter_lem now sends first w safe = elim (Option-cases (check_join first)) [
    | inl n ↦ rw (n, enter) bad_message
    | inr (player, e) ↦ elim (Bool-cases (contains player.player_id w.lobby.pool)) [
      | inl old ↦
          let same =
            enqueue_refused grow grow_fits now player.player_id player.display_name player.mmr
              w.lobby old in
          rw
            (
              e,
              ap (λ (x : Lobby × EnqueueResult). x.1) same,
              ap (λ (x : Lobby × EnqueueResult). x.0) same,
              enter,
            )
            (queued_twice old)
      | inr new ↦ rw e (accepted_start now sends player first w safe e new)
    ]
  ]
