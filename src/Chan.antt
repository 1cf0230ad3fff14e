-- ===== src/Chan.antt =====
-- Go channels as cells of a store: what internal/state/pool.go and internal/services do with them.
-- A send or a close that would panic in Go is `none`.
use fp_insis.Prelude.{
  nat_eq, nat_beq_iff, nat_beq, ◌&&◌, not, ◌≢◌, refl, ◌⊎◌, Bool-cases, Option-cases, inl, inr, ℕ,
  suc, ◌≡◌, Bool, true, false, Option, none, some, List, [], ◌∷◌, ◌++◌, arith, ltb, length, get,
  put, get-put, if◌then◌else◌,
}

pub record Chan (A : Type 0) : Type 0 where
  pub buffer : List A
  pub capacity : ℕ
  pub closed : Bool

-- The channels that were made; the next one is numbered `next`.
pub record Chans (A : Type 0) : Type 0 where
  pub next : ℕ
  pub cells : List (ℕ × Chan A)

pub data Received (A : Type 0) : Type 0 where
  blocks drained : Received A
  taken : A → Chans A → Received A

module _ {A : Type 0} where
  -- make(chan A, n)
  unfoldable pub make_chan : ℕ → Chans A → Chans A × ℕ
  make_chan n h = (
    record h {
      next = suc h.next;
      cells = put h.next (record { buffer = []; capacity = n; closed = false }) h.cells;
    },
    h.next,
  )

  -- close(ch): closing a closed channel panics, and so does closing a nil one.
  unfoldable pub close : ℕ → Chans A → Option (Chans A)
  close c h = elim (get c h.cells) [
    | none ↦ none
    | some ch ↦
        if ch.closed
        then none
        else some (record h { cells = put c (record ch { closed = true }) h.cells })
  ]

  -- select { case ch <- a: ... default: ... }: whether the value was taken. A send on a closed
  -- channel panics; a nil channel is never ready.
  unfoldable pub try_send : ℕ → A → Chans A → Option (Chans A × Bool)
  try_send c a h = elim (get c h.cells) [
    | none ↦ some (h, false)
    | some ch ↦
        if ch.closed
        then none
        else if ltb (length ch.buffer) ch.capacity
        then some
            (record h { cells = put c (record ch { buffer = ch.buffer ++ a ∷ [] }) h.cells }, true)
        else some (h, false)
  ]

  -- a, ok := <-ch: a nil channel, or an empty open one, blocks; a closed one is drained at the end.
  unfoldable pub recv : ℕ → Chans A → Received A
  recv c h = elim (get c h.cells) [
    | none ↦ blocks
    | some ch ↦ elim ch.buffer [
      | [] ↦ if ch.closed then drained else blocks
      | a ∷ rest ↦ taken a (record h { cells = put c (record ch { buffer = rest }) h.cells })
    ]
  ]

  -- The channel is there and open.
  abbrev pub is_open : ℕ → Chans A → Bool
  is_open c h = elim (get c h.cells) [ none ↦ false | some ch ↦ not ch.closed ]

  -- Closing an open channel does not panic, and leaves every other channel as it was.
  pub close_open :
      (c : ℕ) (h : Chans A)
      → is_open c h ≡ true
      → (g : Chans A) × (close c h ≡ some g)
        × (g.next ≡ h.next)
        × ((d : ℕ) → d ≢ c → get d g.cells ≡ get d h.cells)
  unfolding close
  close_open c h o = elim (Option-cases (get c h.cells)) [
    | inl e ↦ absurd (ground arith)
    | inr (ch, e) ↦ (
      record h { cells = put c (record ch { closed = true }) h.cells },
      ground arith,
      refl,
      λ d ne. ground (arith, get-put c d (record ch { closed = true }) h.cells, nat_beq_iff c d),
    )
  ]

  -- A new channel is open, has a new number, and leaves every other one as it was.
  pub make_chan_open : (n : ℕ) (h : Chans A) → is_open (make_chan n h).1 (make_chan n h).0 ≡ true
  unfolding make_chan
  make_chan_open n h = ground (
    arith,
    nat_beq_iff h.next h.next,
    get-put h.next h.next (record { buffer = []; capacity = n; closed = false }) h.cells,
  )

  pub make_chan_next :
      (n : ℕ) (h : Chans A) → ((make_chan n h).1 ≡ h.next) × ((make_chan n h).0.next ≡ suc h.next)
  unfolding make_chan
  make_chan_next n h = (refl, refl)

  pub make_chan_ne :
      (n d : ℕ) (h : Chans A) → d ≢ h.next → get d (make_chan n h).0.cells ≡ get d h.cells
  unfolding make_chan
  make_chan_ne n d h ne = ground (
    arith,
    get-put h.next d (record { buffer = []; capacity = n; closed = false }) h.cells,
    nat_beq_iff h.next d,
  )

  -- A value sent or received opens and closes nothing.
  pub record SameShape (h g : Chans A) : Type 0 where
    pub next : g.next ≡ h.next
    pub open_as : (d : ℕ) → is_open d g ≡ is_open d h
    pub none_as : (d : ℕ) → get d h.cells ≡ none → get d g.cells ≡ none

  abbrev pub buffer_of : ℕ → Chans A → List A
  buffer_of c h = elim (get c h.cells) [ none ↦ [] | some ch ↦ ch.buffer ]

  -- What a receive can do: nothing, or take the oldest value.
  pub recv_cases :
      (c : ℕ) (h : Chans A)
      → (recv c h ≡ blocks)
        ⊎ (recv c h ≡ drained)
        ⊎ ((a : A) × (g : Chans A) × (recv c h ≡ taken a g)
            × SameShape h g
            × (buffer_of c h ≡ a ∷ buffer_of c g))
  unfolding recv
  recv_cases c h = elim (Option-cases (get c h.cells)) [
    | inl e ↦ inl (ground arith)
    | inr (ch, e) ↦ go ch ch.buffer e refl
  ]
    where
      go :
          (ch : Chan A) (l : List A)
          → get c h.cells ≡ some ch
          → ch.buffer ≡ l
          → (recv c h ≡ blocks)
            ⊎ (recv c h ≡ drained)
            ⊎ ((a : A) × (g : Chans A) × (recv c h ≡ taken a g)
                × SameShape h g
                × (buffer_of c h ≡ a ∷ buffer_of c g))
      go ch [] e b = elim (Bool-cases ch.closed) [
        | inl shut ↦ inr (inl (ground arith))
        | inr opened ↦ inl (ground arith)
      ]
      go ch (a ∷ rest) e b =
          let left : Chan A = record ch { buffer = rest } in
          inr (
            inr (
              a,
              record h { cells = put c left h.cells },
              ground arith,
              record {
                next = refl;
                open_as = λ d. ground (arith, get-put c d left h.cells, nat_beq_iff c d);
                none_as = λ d n. ground (arith, get-put c d left h.cells, nat_beq_iff c d);
              },
              ground (arith, get-put c c left h.cells, nat_beq_iff c c),
            ))

  -- A send on an open channel does not panic.
  pub try_send_open :
      (c : ℕ) (a : A) (h : Chans A)
      → is_open c h ≡ true
      → (g : Chans A) × (b : Bool) × (try_send c a h ≡ some (g, b)) × SameShape h g
  unfolding try_send
  try_send_open c a h o = elim (Option-cases (get c h.cells)) [
    | inl e ↦ absurd (ground arith)
    | inr (ch, e) ↦ elim (Bool-cases (ltb (length ch.buffer) ch.capacity)) [
      | inr full ↦
          (h, false, ground arith, record { next = refl; open_as = λ d. refl; none_as = λ d n. n })
      | inl room ↦
          let sent : Chan A = record ch { buffer = ch.buffer ++ a ∷ [] } in
          (
            record h { cells = put c sent h.cells },
            true,
            ground arith,
            record {
              next = refl;
              open_as = λ d. ground (arith, get-put c d sent h.cells, nat_beq_iff c d);
              none_as = λ d n. ground (arith, get-put c d sent h.cells, nat_beq_iff c d);
            },
          )
    ]
  ]

  pub make_chan_empty : (n : ℕ) (h : Chans A) → buffer_of (make_chan n h).1 (make_chan n h).0 ≡ []
  unfolding make_chan
  make_chan_empty n h = ground (
    arith,
    nat_beq_iff h.next h.next,
    get-put h.next h.next (record { buffer = []; capacity = n; closed = false }) h.cells,
  )

  -- A receive touches no other channel, and takes the oldest value.
  pub recv_rest :
      (c : ℕ) (h g : Chans A) (a : A)
      → recv c h ≡ taken a g
      → ((d : ℕ) → d ≢ c → get d g.cells ≡ get d h.cells) × (buffer_of c h ≡ a ∷ buffer_of c g)
  unfolding recv
  recv_rest c h g a e = elim (Option-cases (get c h.cells)) [
    | inl n ↦ absurd (ground arith)
    | inr (ch, f) ↦ go ch ch.buffer f refl
  ]
    where
      go :
          (ch : Chan A) (l : List A)
          → get c h.cells ≡ some ch
          → ch.buffer ≡ l
          → ((d : ℕ) → d ≢ c → get d g.cells ≡ get d h.cells) × (buffer_of c h ≡ a ∷ buffer_of c g)
      go ch [] f b = absurd (ground arith)
      go ch (x ∷ rest) f b =
          let left : Chan A = record ch { buffer = rest } in
          (
            λ d ne. ground (arith, get-put c d left h.cells, nat_beq_iff c d),
            ground (arith, get-put c c left h.cells, nat_beq_iff c c),
          )

  -- A send touches no other channel.
  pub try_send_rest :
      (c : ℕ) (a : A) (h g : Chans A) (b : Bool) (d : ℕ)
      → try_send c a h ≡ some (g, b)
      → d ≢ c
      → get d g.cells ≡ get d h.cells
  unfolding try_send
  try_send_rest c a h g b d e ne = elim (Option-cases (get c h.cells)) [
    | inl n ↦ ground arith
    | inr (ch, f) ↦
        ground
          (arith, get-put c d (record ch { buffer = ch.buffer ++ a ∷ [] }) h.cells, nat_beq_iff c d)
  ]

  -- It adds its value to the channel, or nothing.
  pub try_send-buffer_of :
      (c : ℕ) (a : A) (h g : Chans A) (b : Bool) (d : ℕ)
      → try_send c a h ≡ some (g, b)
      → (buffer_of d g ≡ buffer_of d h) ⊎ (buffer_of d g ≡ buffer_of d h ++ a ∷ [])
  unfolding try_send
  try_send-buffer_of c a h g b d e = elim (Option-cases (get c h.cells)) [
    | inl n ↦ inl (ground arith)
    | inr (ch, f) ↦ elim (Bool-cases (nat_beq c d && ltb (length ch.buffer) ch.capacity)) [
      | inl here ↦ inr (
          ground (
            arith,
            get-put c d (record ch { buffer = ch.buffer ++ a ∷ [] }) h.cells,
            nat_beq_iff c d,
          ))
      | inr not_here ↦ inl (
          ground (
            arith,
            get-put c d (record ch { buffer = ch.buffer ++ a ∷ [] }) h.cells,
            nat_beq_iff c d,
          ))
    ]
  ]

  -- A close leaves the values in all channels.
  pub close-buffer_of :
      (c d : ℕ) (h g : Chans A) → close c h ≡ some g → buffer_of d g ≡ buffer_of d h
  unfolding close
  close-buffer_of c d h g e = elim (Option-cases (get c h.cells)) [
    | inl n ↦ absurd (ground arith)
    | inr (ch, f) ↦
        ground (arith, get-put c d (record ch { closed = true }) h.cells, nat_beq_iff c d)
  ]
