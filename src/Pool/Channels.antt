-- ===== src/Pool/Channels.antt =====
-- What the calls of internal/state/pool.go do to the channels that no queued player has, such as
-- those of players in a ready check.
use fp_insis.Prelude.{
  ℕ, ◌≤◌, ◌≡◌, sym, ◌∙◌, ◌≢◌, ◌⊎◌, inl, inr, Bool, true, none, some, List, String, arith, get,
  subst, get-put, get-delete, if◌then◌else◌, ◌==◌, string_eq, nat_eq, ℤ, Bool-cases, Option-cases,
}
use text.Mathlib.TextEquality.{eq_iff}
use fp_insis.Chan.{is_open, close_open, make_chan, make_chan_next}
use fp_insis.Pool.{
  QueuedPlayer, Pool, Lobby, has_id, contains, enqueue, re_enqueue, dequeue, add_player,
  remove_player,
}
use fp_insis.Pool.Queueing.{IsSafe, is_open-make_chan, re_enqueue_lem, re_enqueue-IsValid}

-- An open channel that no queued player has.
pub record Free (l : Lobby) (c : ℕ) : Type 0 where
  pub opened : is_open c l.chans ≡ true
  pub unused : (i : String) (q : QueuedPlayer) → get i l.pool.players ≡ some q → q.match_ch ≢ c

-- Dequeue closes only the channel of the player it removes.
pub dequeue-Free :
    (id : String) (l l' : Lobby) (b : Bool) (c : ℕ)
    → IsSafe l
    → dequeue id l ≡ some (l', b)
    → Free l c
    → Free l' c
unfolding dequeue remove_player
dequeue-Free id l l' b c s e f = elim (Option-cases (get id l.pool.players)) [
  | inl n ↦ let same : l ≡ l' = ground arith in subst (λ m. Free m c) same f
  | inr (qp, h) ↦
      let (g, closes, next, rest) = close_open qp.match_ch l.chans (s.open_chs id qp h) in
      let after : Lobby = record { pool = remove_player id qp l.pool; chans = g } in
      let same : after ≡ l' = ground arith in
      subst (λ m. Free m c) same
        (record {
          opened = rw (rest c (λ x. f.unused id qp h (sym x)), is_open) f.opened;
          unused = λ i q e'. f.unused i q (ground (arith, get-delete id i l.pool.players));
        })
]

module _ (grow : ℕ → ℕ → ℕ) (grow_fits : (c n : ℕ) → n ≤ grow c n) where
  -- Enqueue makes a new channel.
  pub enqueue-Free :
      (now : ℤ) (id name : String) (mmr : ℤ) (l : Lobby) (c : ℕ)
      → IsSafe l
      → Free l c
      → Free (enqueue grow now id name mmr l).0 c
  unfolding enqueue add_player
  enqueue-Free now id name mmr l c s f = elim (Bool-cases (contains id l.pool)) [
    | inl old ↦ rw old f
    | inr new ↦
        let (other, still) = is_open-make_chan grow grow_fits 1 c l.chans s.unmade f.opened in
        rw new (record {
          opened = still;
          unused = λ i q e same. ground (
            arith,
            get-put id i
                (record {
                  player_id = id;
                  display_name = name;
                  mmr = mmr;
                  enqueued_at = now;
                  match_ch = (make_chan 1 l.chans).1;
                })
                l.pool.players,
            f.unused i q,
            make_chan_next 1 l.chans,
          );
        })
  ]

  -- After ReEnqueue a queued player is the one put back, or was queued before.
  put_back_cases :
      (qp : QueuedPlayer) (p : Pool) (j : String) (q : QueuedPlayer)
      → get j (re_enqueue grow qp p).0.players ≡ some q
      → ((qp.player_id ≡ j) × (q ≡ qp)) ⊎ (get j p.players ≡ some q)
  put_back_cases qp p j q e = elim (Bool-cases (qp.player_id == j)) [
    | inr other ↦ inr (ground (arith, re_enqueue_lem grow grow_fits qp p j))
    | inl same ↦ elim (Bool-cases (contains qp.player_id p)) [
      | inl old ↦ inr (ground (arith, re_enqueue_lem grow grow_fits qp p j))
      | inr new ↦ inl (
        ground (arith, eq_iff qp.player_id j),
        ground (arith, re_enqueue_lem grow grow_fits qp p j),
      )
    ]
  ]

  -- ReEnqueue of a player whose channel is free keeps the lobby safe.
  pub re_enqueue-IsSafe :
      (qp : QueuedPlayer) (l : Lobby)
      → IsSafe l
      → Free l qp.match_ch
      → IsSafe (record l { pool = (re_enqueue grow qp l.pool).0 })
  re_enqueue-IsSafe qp l s f = record {
    valid = re_enqueue-IsValid grow grow_fits qp l.pool s.valid;
    open_chs = λ j q e. elim (put_back_cases qp l.pool j q e) [
      | inl (i, same) ↦ rw same f.opened
      | inr h ↦ s.open_chs j q h
    ];
    apart = λ i j q r ei ej same. elim (put_back_cases qp l.pool i q ei) [
      | inl (a, x) ↦ elim (put_back_cases qp l.pool j r ej) [
        | inl (b, y) ↦ sym a ∙ b
        | inr h ↦ absurd (f.unused j r h (ground arith))
      ]
      | inr h ↦ elim (put_back_cases qp l.pool j r ej) [
        | inl (b, y) ↦ absurd (f.unused i q h (ground arith))
        | inr k ↦ s.apart i j q r h k same
      ]
    ];
    unmade = s.unmade;
  }

  pub re_enqueue-Free :
      (qp : QueuedPlayer) (l : Lobby) (c : ℕ)
      → Free l c
      → qp.match_ch ≢ c
      → Free (record l { pool = (re_enqueue grow qp l.pool).0 }) c
  re_enqueue-Free qp l c f ne = record {
    opened = f.opened;
    unused = λ i q e same. elim (put_back_cases qp l.pool i q e) [
      | inl (a, x) ↦ ne (ground arith)
      | inr h ↦ f.unused i q h same
    ];
  }

module _ (l : Lobby) (pool' : Pool) (sel : List QueuedPlayer)
    (left : (j : String)
      → get j pool'.players ≡ (if has_id j sel then none else get j l.pool.players)) where
  -- Players drawn from the pool take no channel with them that was free before.
  pub drawn-Free : (c : ℕ) → Free l c → Free (record l { pool = pool' }) c
  drawn-Free c f = record {
    opened = f.opened;
    unused = λ i q e. f.unused i q (ground (arith, left i));
  }

  -- The channel of a player who was drawn is free.
  pub drawn_freed :
      (q : QueuedPlayer)
      → IsSafe l
      → get q.player_id l.pool.players ≡ some q
      → has_id q.player_id sel ≡ true
      → Free (record l { pool = pool' }) q.match_ch
  drawn_freed q s here out = record {
    opened = s.open_chs q.player_id q here;
    unused = λ i r e same.
        let old : get i l.pool.players ≡ some r = ground (arith, left i) in
        let other : i ≡ q.player_id = s.apart i q.player_id r q old here same in
        let gone : get i pool'.players ≡ none = rw other (ground (arith, left q.player_id)) in
        ground arith;
  }
