-- ===== src/Pool/Queueing.antt =====
-- Enqueue, ReEnqueue and Dequeue of internal/state/pool.go, with the players' channels.
use fp_insis.Prelude.{
  ℕ, ◌+◌, ◌≤◌, ◌≡◌, refl, sym, inl, inr, ◌≢◌, true, false, none, some, [], String, arith, get,
  get-put, get-delete, length-put_new, if◌then◌else◌, ◌==◌, string_eq, nat_eq, ℤ, Bool-cases,
  Option-cases,
}
use text.Mathlib.TextEquality.{eq_iff}
use fp_insis.Chan.{
  buffer_of, make_chan_empty, Chans, is_open, make_chan, make_chan_open, make_chan_next,
  make_chan_ne, close_open,
}
use fp_insis.Pool.{
  QueuedPlayer, Pool, MatchEvent, Lobby, already_in_queue, enqueued, refused, contains, size,
  enqueue, re_enqueue, dequeue, add_player, remove_player,
}
use fp_insis.Pool.Invariant.{IsValid, add_player-IsValid, remove_player-IsValid}

-- The pool's invariant, and that each queued player has an open channel of their own.
pub record IsSafe (l : Lobby) : Type 0 where
  pub valid : IsValid l.pool
  pub open_chs :
      (id : String) (q : QueuedPlayer)
      → get id l.pool.players ≡ some q
      → is_open q.match_ch l.chans ≡ true
  pub apart :
      (i j : String) (q r : QueuedPlayer)
      → get i l.pool.players ≡ some q
      → get j l.pool.players ≡ some r
      → q.match_ch ≡ r.match_ch
      → i ≡ j
  pub unmade : (n : ℕ) → l.chans.next ≤ n → get n l.chans.cells ≡ none

module _ (grow : ℕ → ℕ → ℕ) (grow_fits : (c n : ℕ) → n ≤ grow c n) where
  -- A refused join changes nothing.
  pub enqueue_refused :
      (now : ℤ) (id name : String) (mmr : ℤ) (l : Lobby)
      → contains id l.pool ≡ true
      → enqueue grow now id name mmr l ≡ (l, refused (already_in_queue id))
  unfolding enqueue
  enqueue_refused now id name mmr l h = ground arith

  -- A join under an id that is not queued makes one player, with an open channel, and leaves the others as they were.
  pub enqueue_accepted :
      (now : ℤ) (id name : String) (mmr : ℤ) (l : Lobby)
      → contains id l.pool ≡ false
      → let (l', r) = enqueue grow now id name mmr l in
        (qp : QueuedPlayer) × (r ≡ enqueued qp)
        × (qp.mmr ≡ mmr)
        × (qp.enqueued_at ≡ now)
        × (is_open qp.match_ch l'.chans ≡ true)
        × (buffer_of qp.match_ch l'.chans ≡ [])
        × (size l'.pool ≡ size l.pool + 1)
        × ((j : String)
            → get j l'.pool.players ≡ (if id == j then some qp else get j l.pool.players))
  unfolding enqueue add_player
  enqueue_accepted now id name mmr l h = (
    qp,
    ground arith,
    refl,
    refl,
    rw h (make_chan_open 1 l.chans),
    rw h (make_chan_empty 1 l.chans),
    rw h (length-put_new id qp l.pool.players (ground arith)),
    λ j. rw h (get-put id j qp l.pool.players),
  )
    where
      qp : QueuedPlayer
      qp = record {
        player_id = id;
        display_name = name;
        mmr = mmr;
        enqueued_at = now;
        match_ch = (make_chan 1 l.chans).1;
      }

  pub is_open-make_chan :
      (n c : ℕ) (h : Chans MatchEvent)
      → ((k : ℕ) → h.next ≤ k → get k h.cells ≡ none)
      → is_open c h ≡ true
      → (c ≢ h.next) × (is_open c (make_chan n h).0 ≡ true)
  is_open-make_chan n c h u o =
      let made : c ≢ h.next = λ e. ground (arith, u c) in
      (made, ground (arith, make_chan_ne n c h made))

  -- A join, accepted or not, keeps the lobby safe.
  pub enqueue-IsSafe :
      (now : ℤ) (id name : String) (mmr : ℤ) (l : Lobby)
      → IsSafe l
      → IsSafe (enqueue grow now id name mmr l).0
  unfolding enqueue
  enqueue-IsSafe now id name mmr l s = elim (Bool-cases (contains id l.pool)) [
    | inl old ↦ rw old s
    | inr new ↦ rw new (record {
      valid = add_player-IsValid grow grow_fits l.pool qp (ground arith) s.valid;
      open_chs = λ j q e. ground (
        arith,
        added j,
        make_chan_open 1 l.chans,
        s.open_chs j q,
        is_open-make_chan 1 q.match_ch l.chans s.unmade,
      );
      apart = λ i j q r ei ej same. ground (
        arith,
        added i,
        added j,
        s.apart i j q r,
        make_chan_next 1 l.chans,
        eq_iff id i,
        eq_iff id j,
        s.open_chs i q,
        s.open_chs j r,
        is_open-make_chan 1 q.match_ch l.chans s.unmade,
        is_open-make_chan 1 r.match_ch l.chans s.unmade,
      );
      unmade = λ n le. ground (
        arith,
        make_chan_next 1 l.chans,
        make_chan_ne 1 n l.chans (ground (arith, make_chan_next 1 l.chans)),
        s.unmade n,
      );
    })
  ]
    where
      qp : QueuedPlayer
      qp = record {
        player_id = id;
        display_name = name;
        mmr = mmr;
        enqueued_at = now;
        match_ch = (make_chan 1 l.chans).1;
      }

      added :
          (j : String)
          → get j (add_player grow l.pool qp).players
            ≡ (if id == j then some qp else get j l.pool.players)
      added j = unfold add_player in get-put id j qp l.pool.players

  -- A player who is put back, with an open channel that no queued player has, is queued as before
  -- unless the id was taken meanwhile.
  pub re_enqueue_lem :
      (qp : QueuedPlayer) (p : Pool) (j : String)
      → let (p', e) = re_enqueue grow qp p in
        get j p'.players ≡ (
          if qp.player_id == j
          then (if contains qp.player_id p then get j p.players else some qp)
          else get j p.players)
  unfolding re_enqueue add_player
  re_enqueue_lem qp p j = ground (arith, get-put qp.player_id j qp p.players, eq_iff qp.player_id j)

  -- Putting a player back, done or refused, keeps the pool valid.
  pub re_enqueue-IsValid :
      (qp : QueuedPlayer) (p : Pool) → IsValid p → IsValid (re_enqueue grow qp p).0
  unfolding re_enqueue
  re_enqueue-IsValid qp p v = elim (Bool-cases (contains qp.player_id p)) [
    | inl old ↦ rw old v
    | inr new ↦ rw new (add_player-IsValid grow grow_fits p qp (ground arith) v)
  ]

-- In a safe lobby the close in Dequeue never panics. The call says whether the player was queued,
-- takes that player out and no other, and keeps the lobby safe.
pub dequeue_lem :
    (id : String) (l : Lobby)
    → IsSafe l
    → (l' : Lobby) × (dequeue id l ≡ some (l', contains id l.pool))
      × IsSafe l'
      × ((j : String) → get j l'.pool.players ≡ (if id == j then none else get j l.pool.players))
unfolding dequeue
dequeue_lem id l s = elim (Option-cases (get id l.pool.players)) [
  | inl e ↦ (l, ground arith, s, λ j. ground (arith, eq_iff id j))
  | inr (qp, e) ↦
      let (g, closes, next, rest) = close_open qp.match_ch l.chans (s.open_chs id qp e) in
      (
        record { pool = remove_player id qp l.pool; chans = g },
        ground arith,
        record {
          valid = remove_player-IsValid id qp l.pool e s.valid;
          open_chs = λ j q h.
              let (ne, old) = left id qp l.pool j q h in
              rw (rest q.match_ch (λ same. ne (s.apart id j qp q e old (sym same))), is_open)
                (s.open_chs j q old);
          apart = λ i j q r hi hj.
              s.apart i j q r (left id qp l.pool i q hi).1 (left id qp l.pool j r hj).1;
          unmade = λ n le.
              rw (rest n (λ same. ground (arith, s.unmade n, s.open_chs id qp e)))
                (s.unmade n (omega arith));
        },
        λ j. unfold remove_player in get-delete id j l.pool.players,
      )
]
  where
    left :
        (i : String) (qp : QueuedPlayer) (p : Pool) (j : String) (q : QueuedPlayer)
        → get j (remove_player i qp p).players ≡ some q
        → (i ≢ j) × (get j p.players ≡ some q)
    left i qp p j q h = unfold remove_player in ground (arith, get-delete i j p.players, eq_iff i j)
