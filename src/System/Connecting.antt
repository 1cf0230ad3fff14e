-- ===== src/System/Connecting.antt =====
-- The start of a stream among the other goroutines.
use fp_insis.Prelude.{
  ℕ, ◌≤◌, ◌≡◌, refl, ap, sym, ◌∙◌, subst, inl, inr, Bool, true, false, Option, none, some, [],
  String, arith, All, nat_eq, string_eq, nat_beq, nat_beq_iff, Bool-cases, Option-cases, ℤ,
}
use fp_insis.Chan.{Chans, Chan, buffer_of, make_chan, make_chan_ne, make_chan_next, make_chan_empty}
use fp_insis.Pool.{Lobby, MatchEvent, EnqueueResult, contains, enqueue}
use fp_insis.Pool.Queueing.{IsSafe, enqueue-IsSafe, enqueue_accepted, enqueue_refused, dequeue_lem}
use fp_insis.Pool.Channels.{enqueue-Free}
use fp_insis.Pb.{GatewayRequest, PlayerInfo}
use fp_insis.Status.{Code}
use fp_insis.Gateway.{searching, Stream, World, Entered, rejected, joined, check_join, enter}
use fp_insis.System.Moves.{Moves, Moves-refl, Moves-trans, dequeued-Moves}

make_chan-All :
    (P : MatchEvent → Type 0) (n d : ℕ) (h : Chans MatchEvent)
    → All P (buffer_of d h)
    → All P (buffer_of d (make_chan n h).0)
make_chan-All P n d h old = elim (Bool-cases (nat_beq d h.next)) [
  | inl new ↦
      let is_new : d ≡ (make_chan n h).1 =
        (nat_beq_iff d h.next).0 new ∙ sym (make_chan_next n h).0 in
      subst (All P)
        (sym (make_chan_empty n h) ∙ ap (λ (k : ℕ). buffer_of k (make_chan n h).0) (sym is_new)) tt
  | inr other ↦
      subst (All P)
        (ap (λ (o : Option (Chan MatchEvent)). elim o [ none ↦ [] | some ch ↦ ch.buffer ])
          (sym (make_chan_ne n d h (λ same. ground (arith, nat_beq_iff d h.next)))))
        old
]

-- What is left of the world where a stream has started or was turned away.
pub data EnteredWell (held : ℕ → Bool) (w : World) : Entered → Type 1 where
  turned_away :
      {code : Code} (w' : World)
      → Moves held w w'
      → IsSafe w'.lobby
      → EnteredWell held w (rejected code w')
  let_in :
      (w' : World) (st : Stream)
      → Moves held w w'
      → IsSafe w'.lobby
      → st.phase ≡ searching
      → EnteredWell held w (joined w' st)

module _ (grow : ℕ → ℕ → ℕ) (grow_fits : (c n : ℕ) → n ≤ grow c n) (held : ℕ → Bool) where
  enqueued-Moves :
      (now : ℤ) (id name : String) (mmr : ℤ) (w : World)
      → IsSafe w.lobby
      → Moves held w (record w { lobby = (enqueue grow now id name mmr w.lobby).0 })
  enqueued-Moves now id name mmr w safe = record {
    free = λ c f. enqueue-Free grow grow_fits now id name mmr w.lobby c safe f;
    events = λ P c h. elim (Bool-cases (contains id w.lobby.pool)) [
      | inl old ↦ unfold enqueue in rw old h
      | inr new ↦ unfold enqueue in rw new (make_chan-All P 1 c w.lobby.chans h)
    ];
    shape = record { next = refl; open_as = λ d. refl; none_as = λ d n. n };
    fresh = λ c h f. f;
  }

  accepted_start :
      (now : ℤ) (sends : Bool) (player : PlayerInfo) (first : Option GatewayRequest) (w : World)
      → IsSafe w.lobby
      → check_join first ≡ some player
      → contains player.player_id w.lobby.pool ≡ false
      → EnteredWell held w (enter grow now sends first w)
  unfolding enter
  accepted_start now true player first w safe e new =
      let id = player.player_id in
      let (qp, r, _, _, _, _, _, _) =
        enqueue_accepted grow grow_fits now id player.display_name player.mmr w.lobby new in
      rw (e, r, enter)
        (let_in _ _ (enqueued-Moves now id player.display_name player.mmr w safe)
          (enqueue-IsSafe grow grow_fits now id player.display_name player.mmr w.lobby safe) refl)
  accepted_start now false player first w safe e new =
      let id = player.player_id in
      let (qp, r, _, _, _, _, _, _) =
        enqueue_accepted grow grow_fits now id player.display_name player.mmr w.lobby new in
      let safe' =
        enqueue-IsSafe grow grow_fits now id player.display_name player.mmr w.lobby safe in
      let w1 = record w {
        lobby = (enqueue grow now id player.display_name player.mmr w.lobby).0;
      } in
      let (l2, d, safe2, g2) = dequeue_lem id w1.lobby safe' in
      rw (e, r, d, enter)
        (turned_away _
          (Moves-trans held w w1 _ (enqueued-Moves now id player.display_name player.mmr w safe)
            (dequeued-Moves held w1 id l2 _ safe' d))
          safe2)

  -- The start of a stream does not panic and moves the world as a stream's step does.
  pub enter-EnteredWell :
      (now : ℤ) (sends : Bool) (first : Option GatewayRequest) (w : World)
      → IsSafe w.lobby
      → EnteredWell held w (enter grow now sends first w)
  unfolding enter
  enter-EnteredWell now sends first w safe = elim (Option-cases (check_join first)) [
    | inl n ↦ rw (n, enter) (turned_away w (Moves-refl held w) safe)
    | inr (player, e) ↦ elim (Bool-cases (contains player.player_id w.lobby.pool)) [
      | inl old ↦
          let same =
            enqueue_refused grow grow_fits now player.player_id player.display_name player.mmr
              w.lobby old in
          rw
            (
              e,
              ap (λ (x : Lobby × EnqueueResult). x.1) same,
              ap (λ (x : Lobby × EnqueueResult). x.0) same,
              enter,
            )
            (turned_away w (Moves-refl held w) safe)
      | inr new ↦ accepted_start now sends player first w safe e new
    ]
  ]
