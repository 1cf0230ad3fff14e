-- ===== src/Pool/Contract/Aside.antt =====
-- Players who are drawn and not put back have open channels of their own, which no queued player has.
use fp_insis.Prelude.{
  ℕ, zero, suc, ◌≡◌, sym, ◌≢◌, true, none, some, List, [], ◌∷◌, ◌++◌, arith, get, get_elem?, All,
  All-map, All-get_elem?, All-append, subst, if◌then◌else◌, ==_refl, string_eq, String,
}
use text.Mathlib.TextEquality.{eq_iff}
use fp_insis.Pool.{QueuedPlayer, Pool, Lobby, has_id}
use fp_insis.Pool.Slices.{find_id, IdsDistinct}
use fp_insis.Pool.Queueing.{IsSafe}
use fp_insis.Pool.Channels.{Free, drawn-Free, drawn_freed}
use fp_insis.Pool.Contract.{remove_elem}

abbrev pub Aside : Lobby → List QueuedPlayer → Type 0
Aside l [] = Unit {0}
Aside l (q ∷ qs) = Free l q.match_ch × All (λ r. q.match_ch ≢ r.match_ch) qs × Aside l qs

pub Aside-map :
    (l m : Lobby) (qs : List QueuedPlayer)
    → ((c : ℕ) → Free l c → Free m c)
    → Aside l qs
    → Aside m qs
Aside-map l m [] f a = tt
Aside-map l m (q ∷ qs) f a = (f q.match_ch a.0, a.1, Aside-map l m qs f a.2)

-- As long as the channels that stay free are other than `d`.
pub Aside-others :
    (l m : Lobby) (d : ℕ) (qs : List QueuedPlayer)
    → ((c : ℕ) → Free l c → d ≢ c → Free m c)
    → All (λ r. d ≢ r.match_ch) qs
    → Aside l qs
    → Aside m qs
Aside-others l m d [] f o a = tt
Aside-others l m d (q ∷ qs) f o a = (f q.match_ch a.0 o.0, a.1, Aside-others l m d qs f o.1 a.2)

All-remove_elem :
    (P : QueuedPlayer → Type 0) (i : ℕ) (qs : List QueuedPlayer)
    → All P qs
    → All P (remove_elem i qs)
All-remove_elem P i [] h = tt
All-remove_elem P zero (q ∷ qs) h = h.1
All-remove_elem P (suc i) (q ∷ qs) h = (h.0, All-remove_elem P i qs h.1)

some_injective : (x y : QueuedPlayer) → some x ≡ some y → x ≡ y
some_injective x y e = cc

-- One of them has a free channel, and the others another.
pub Aside-pick :
    (l : Lobby) (i : ℕ) (q : QueuedPlayer) (qs : List QueuedPlayer)
    → get_elem? qs i ≡ some q
    → Aside l qs
    → Free l q.match_ch
      × All (λ r. q.match_ch ≢ r.match_ch) (remove_elem i qs)
      × Aside l (remove_elem i qs)
Aside-pick l i q [] e a = absurd (cc)
Aside-pick l zero q (x ∷ xs) e a =
    subst (λ y. Free l y.match_ch × All (λ r. y.match_ch ≢ r.match_ch) xs × Aside l xs)
      (some_injective x q e) a
Aside-pick l (suc i) q (x ∷ xs) e a =
    let (f, o, rest) = Aside-pick l i q xs e a.2 in
    let ne = All-get_elem? (λ r. x.match_ch ≢ r.match_ch) xs i q e a.1 in
    (f, (λ s. ne (sym s), o), (a.0, All-remove_elem _ i xs a.1, rest))

-- Drawn players join those aside.
pub Aside-append :
    (l : Lobby) (xs ys : List QueuedPlayer)
    → Aside l xs
    → All (λ x. All (λ y. x.match_ch ≢ y.match_ch) ys) xs
    → Aside l ys
    → Aside l (xs ++ ys)
Aside-append l [] ys a o b = b
Aside-append l (x ∷ xs) ys a o b =
    (a.0, All-append (λ y. x.match_ch ≢ y.match_ch) xs ys a.1 o.0, Aside-append l xs ys a.2 o.1 b)

-- An id that is not among some players, by the two ways of looking for one.
absent_differs :
    (id : String) (q : QueuedPlayer) (qs : List QueuedPlayer)
    → find_id id (q ∷ qs) ≡ none
    → (q.player_id ≢ id) × (find_id id qs ≡ none)
unfolding find_id
absent_differs id q qs h = (λ e. ground (arith, eq_iff q.player_id id), ground arith)

has_id-cons :
    (x : QueuedPlayer) (sel qs : List QueuedPlayer)
    → All (λ q. has_id q.player_id sel ≡ true) qs
    → All (λ q. has_id q.player_id (x ∷ sel) ≡ true) qs
unfolding has_id
has_id-cons x sel qs h =
    All-map (λ q. has_id q.player_id sel ≡ true) (λ q. has_id q.player_id (x ∷ sel) ≡ true) qs
      (λ q e. ground arith) h

pub have_ids : (sel : List QueuedPlayer) → All (λ q. has_id q.player_id sel ≡ true) sel
unfolding has_id
have_ids [] = tt
have_ids (q ∷ qs) = (ground (arith, ==_refl q.player_id), has_id-cons q qs qs (have_ids qs))

module _ (l : Lobby) (s : IsSafe l) where
  abbrev pub Queued : QueuedPlayer → Type 0
  Queued q = get q.player_id l.pool.players ≡ some q

  -- Queued players with different ids have different channels.
  pub channels_differ :
      (q : QueuedPlayer) (qs : List QueuedPlayer)
      → Queued q
      → All Queued qs
      → find_id q.player_id qs ≡ none
      → All (λ r. q.match_ch ≢ r.match_ch) qs
  channels_differ q [] h hs e = tt
  channels_differ q (r ∷ rs) h hs e =
      let (ne, rest) = absent_differs q.player_id r rs e in
      (
        λ same. ne (sym (s.apart q.player_id r.player_id q r h hs.0 same)),
        channels_differ q rs h hs.1 rest,
      )

  module _ (pool' : Pool) (sel : List QueuedPlayer)
      (left : (j : String)
        → get j pool'.players ≡ (if has_id j sel then none else get j l.pool.players)) where
    freed :
        (qs : List QueuedPlayer)
        → IdsDistinct qs
        → All Queued qs
        → All (λ q. has_id q.player_id sel ≡ true) qs
        → Aside (record l { pool = pool' }) qs
    freed [] d h o = tt
    freed (q ∷ qs) d h o = (
      drawn_freed l pool' sel left q s h.0 o.0,
      channels_differ q qs h.0 h.1 d.0,
      freed qs d.1 h.1 o.1,
    )

    apart_from :
        (qs out : List QueuedPlayer)
        → All Queued qs
        → Aside l out
        → All (λ q. All (λ r. q.match_ch ≢ r.match_ch) out) qs
    apart_from [] out h a = tt
    apart_from (q ∷ qs) out h a = (others q out h.0 a, apart_from qs out h.1 a)
      where
        others :
            (q : QueuedPlayer) (out : List QueuedPlayer)
            → Queued q
            → Aside l out
            → All (λ r. q.match_ch ≢ r.match_ch) out
        others q [] h a = tt
        others q (r ∷ rs) h a = (a.0.unused q.player_id q h, others q rs h a.2)

    -- After a draw, the players who are drawn and those drawn before are aside.
    pub drawn-Aside :
        (out : List QueuedPlayer)
        → IdsDistinct sel
        → All Queued sel
        → Aside l out
        → Aside (record l { pool = pool' }) (sel ++ out)
    drawn-Aside out d h a =
        Aside-append _ sel out (freed sel d h (have_ids sel)) (apart_from sel out h a)
          (Aside-map l _ out (drawn-Free l pool' sel left) a)
