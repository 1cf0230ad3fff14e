-- ===== src/Coordinator/Verdict.antt =====
-- What readyCheckCoordinator does once the loop has ended.
use fp_insis.Prelude.{
  ℕ, zero, suc, ◌≤◌, ◌<◌, ◌≡◌, refl, ◌∙◌, ◌≢◌, Bool, true, false, ◌||◌, ◌&&◌, Option, none, some,
  List, [], ◌∷◌, ◌++◌, String, arith, length, get, put, get-put, get_elem?, if◌then◌else◌, nat_beq,
  nat_beq_iff, nat_eq, string_eq, ◌==◌, ℤ, All,
}
use text.Mathlib.TextEquality.{eq_iff}
use fp_insis.Chan.{Chans, Chan, try_send, close}
use fp_insis.Pool.{QueuedPlayer, Pool, re_enqueue}
use fp_insis.Pool.Invariant.{IsValid}
use fp_insis.Pool.Queueing.{re_enqueue-IsValid, re_enqueue_lem}
use fp_insis.Session.{create_session, get_session, new_session}
use fp_insis.Session.History.{create_session_lem}
use fp_insis.Coordinator.{
  Arrival, response, await_responses, announce, requeue, ids_of, Shared, verdict,
}
use fp_insis.Coordinator.Gather.{answers, await_late}

-- The first accepting player with an id.
abbrev pub accepting : String → List QueuedPlayer → List Bool → Option QueuedPlayer
accepting j [] accepted = none
accepting j (q ∷ qs) [] = none
accepting j (q ∷ qs) (a ∷ accepted) =
    if a && (q.player_id == j) then some q else accepting j qs accepted

module _ (grow : ℕ → ℕ → ℕ) (grow_fits : (c n : ℕ) → n ≤ grow c n) where
  -- The re-enqueue loop puts back each accepting player whose id is not taken, as the record it was,
  -- and changes nothing else.
  pub requeue_lem :
      (players : List QueuedPlayer) (accepted : List Bool) (p : Pool) (j : String)
      → get j (requeue grow players accepted p).players
        ≡ elim (get j p.players) [ none ↦ accepting j players accepted | some q ↦ some q ]
  unfolding requeue
  requeue_lem [] accepted p j = ground arith
  requeue_lem (q ∷ qs) [] p j = ground arith
  requeue_lem (q ∷ qs) (a ∷ accepted) p j = ground (
    arith,
    requeue_lem qs accepted (if a then (re_enqueue grow q p).0 else p) j,
    re_enqueue_lem grow grow_fits q p j,
    eq_iff q.player_id j,
  )

  pub requeue-IsValid :
      (players : List QueuedPlayer) (accepted : List Bool) (p : Pool)
      → IsValid p
      → IsValid (requeue grow players accepted p)
  unfolding requeue
  requeue-IsValid [] accepted p v = v
  requeue-IsValid (q ∷ qs) [] p v = v
  requeue-IsValid (q ∷ qs) (true ∷ accepted) p v =
      requeue-IsValid qs accepted (re_enqueue grow q p).0 (re_enqueue-IsValid grow grow_fits q p v)
  requeue-IsValid (q ∷ qs) (false ∷ accepted) p v = requeue-IsValid qs accepted p v

-- A result channel as the worker makes it, and as the coordinator leaves it.
abbrev pub fresh_chan : Chan Bool
fresh_chan = record { buffer = []; capacity = 1; closed = false }

abbrev pub told_chan : Bool → Chan Bool
told_chan v = record { buffer = v ∷ []; capacity = 1; closed = true }

abbrev pub is_one_of : ℕ → List ℕ → Bool
is_one_of c [] = false
is_one_of c (d ∷ ds) = nat_beq d c || is_one_of c ds

abbrev pub NumbersDistinct : List ℕ → Type 0
NumbersDistinct [] = Unit {0}
NumbersDistinct (c ∷ cs) = (is_one_of c cs ≡ false) × NumbersDistinct cs

abbrev IsFresh : Chans Bool → ℕ → Type 0
IsFresh h c = get c h.cells ≡ some fresh_chan

tell_one :
    (v : Bool) (c : ℕ) (cs : List ℕ) (h : Chans Bool)
    → IsFresh h c
    → (h' : Chans Bool) × (announce v (c ∷ cs) h ≡ announce v cs h')
      × ((d : ℕ) → get d h'.cells ≡ (if nat_beq c d then some (told_chan v) else get d h.cells))
unfolding announce try_send close
tell_one v c cs h f = (
  record h { cells = put c (told_chan v) sent },
  ground (arith, get-put c c held h.cells, nat_beq_iff c c),
  λ d. ground (arith, get-put c d held h.cells, get-put c d (told_chan v) sent, nat_beq_iff c d),
)
  where
    held : Chan Bool
    held = record { buffer = v ∷ []; capacity = 1; closed = false }

    sent : List (ℕ × Chan Bool)
    sent = put c held h.cells

-- On fresh channels the loop neither blocks nor panics: each then holds the verdict and is closed,
-- and no other channel changes.
pub announce_lem :
    (v : Bool) (cs : List ℕ) (h : Chans Bool)
    → NumbersDistinct cs
    → All (IsFresh h) cs
    → (h' : Chans Bool) × (announce v cs h ≡ some h')
      × ((d : ℕ) → get d h'.cells ≡ (if is_one_of d cs then some (told_chan v) else get d h.cells))
announce_lem v [] h distinct fresh = (h, unfold announce in refl, λ d. refl)
announce_lem v (c ∷ cs) h distinct fresh =
    let (h1, e1, g1) = tell_one v c cs h fresh.0 in
    let (h2, e2, g2) = announce_lem v cs h1 distinct.1 (still c cs h h1 distinct.0 g1 fresh.1) in
    (h2, e1 ∙ e2, λ d. ground (arith, g1 d, g2 d, nat_beq_iff c d))
  where
    still :
        (c : ℕ) (cs : List ℕ) (h h1 : Chans Bool)
        → is_one_of c cs ≡ false
        → ((d : ℕ) → get d h1.cells ≡ (if nat_beq c d then some (told_chan v) else get d h.cells))
        → All (IsFresh h) cs
        → All (IsFresh h1) cs
    still c [] h h1 new g fresh = tt
    still c (d ∷ ds) h h1 new g fresh = (
      ground (arith, g d, nat_beq_iff c d, nat_beq_iff d c),
      still c ds h h1 (ground arith) g fresh.1,
    )

module _ (grow : ℕ → ℕ → ℕ) (grow_fits : (c n : ℕ) → n ≤ grow c n) (now : ℤ) (session_id : String)
    (players : List QueuedPlayer) (chs : List ℕ) (accepted : List Bool) (s : Shared)
    (distinct : NumbersDistinct chs) (fresh : All (IsFresh s.bools) chs) where
  -- All accepted, with different and fresh result channels: nothing panics or blocks, the session is
  -- there with the players in their order and not finalized, every gateway is told so, and the pool is
  -- as it was.
  pub verdict_confirmed :
      (s' : Shared) × (verdict grow now session_id players chs accepted true s ≡ some s')
      × (s'.pool ≡ s.pool)
      × ((j : String)
          → get_session j s'.sessions ≡ (
              if session_id == j
              then some (new_session now session_id (ids_of players))
              else get_session j s.sessions))
      × ((d : ℕ)
          → get d s'.bools.cells
            ≡ (if is_one_of d chs then some (told_chan true) else get d s.bools.cells))
  unfolding verdict
  verdict_confirmed =
      let (h, e, g) = announce_lem true chs s.bools distinct fresh in
      (
        record s {
          sessions = create_session now session_id (ids_of players) s.sessions;
          bools = h;
        },
        rw (e, verdict) refl,
        refl,
        λ j. create_session_lem now session_id j (ids_of players) s.sessions,
        g,
      )

  -- Not all accepted, with different and fresh result channels and a valid pool: nothing panics or
  -- blocks, no session is made, every gateway is told so, and the accepting players whose ids are free
  -- are back in the pool, which stays valid.
  pub verdict_cancelled :
      IsValid s.pool
      → (s' : Shared) × (verdict grow now session_id players chs accepted false s ≡ some s')
        × (s'.sessions ≡ s.sessions)
        × IsValid s'.pool
        × ((j : String)
            → get j s'.pool.players ≡ elim (get j s.pool.players) [
              | none ↦ accepting j players accepted
              | some q ↦ some q
            ])
        × ((d : ℕ)
            → get d s'.bools.cells
              ≡ (if is_one_of d chs then some (told_chan false) else get d s.bools.cells))
  unfolding verdict
  verdict_cancelled v =
      let (h, e, g) = announce_lem false chs s.bools distinct fresh in
      (
        record s { pool = requeue grow players accepted s.pool; bools = h },
        rw (e, verdict) refl,
        refl,
        requeue-IsValid grow grow_fits players accepted s.pool v,
        λ j. requeue_lem grow grow_fits players accepted s.pool j,
        g,
      )

-- The ids of a room differ, as ExtractMatch leaves them.
abbrev pub PlayersDistinct : List QueuedPlayer → Type 0
PlayersDistinct [] = Unit {0}
PlayersDistinct (q ∷ qs) = All (λ x. (x.player_id == q.player_id) ≡ false) qs × PlayersDistinct qs

accepting-none :
    (j : String) (players : List QueuedPlayer) (accepted : List Bool)
    → All (λ x. (x.player_id == j) ≡ false) players
    → accepting j players accepted ≡ none
accepting-none j [] accepted h = refl
accepting-none j (q ∷ qs) [] h = refl
accepting-none j (q ∷ qs) (a ∷ accepted) h = ground (arith, accepting-none j qs accepted h.1)

others_differ :
    (q : QueuedPlayer) (qs : List QueuedPlayer) (x : QueuedPlayer) (i : ℕ)
    → All (λ y. (y.player_id == q.player_id) ≡ false) qs
    → get_elem? qs i ≡ some x
    → (x.player_id == q.player_id) ≡ false
others_differ q [] x i h e = absurd (cc)
others_differ q (y ∷ ys) x zero h e = ground arith
others_differ q (y ∷ ys) x (suc i) h e = others_differ q ys x i h.1 e

accepting_unset :
    (players : List QueuedPlayer) (accepted : List Bool) (i : ℕ) (q : QueuedPlayer)
    → PlayersDistinct players
    → get_elem? players i ≡ some q
    → get_elem? accepted i ≡ some false
    → accepting q.player_id players accepted ≡ none
accepting_unset [] accepted i q d e f = absurd (cc)
accepting_unset (x ∷ xs) [] i q d e f = refl
accepting_unset (x ∷ xs) (a ∷ accepted) zero q d e f =
    let same : x ≡ q = ground arith in ground (arith, accepting-none x.player_id xs accepted d.0)
accepting_unset (x ∷ xs) (a ∷ accepted) (suc i) q d e f = ground (
  arith,
  others_differ x xs q i d.0 e,
  accepting_unset xs accepted i q d.1 e f,
  eq_iff x.player_id q.player_id,
  eq_iff q.player_id x.player_id,
)

-- When another player refuses first, a player whose acceptance is not yet in is not put back into the
-- pool, whether or not it comes later.
pub late_accept_dropped :
    (grow : ℕ → ℕ → ℕ) (grow_fits : (c n : ℕ) → n ≤ grow c n) (players : List QueuedPlayer)
    (before after : List Arrival) (k i : ℕ) (q : QueuedPlayer) (accepted : List Bool) (p : Pool)
    → PlayersDistinct players
    → get_elem? players i ≡ some q
    → answers i before ≡ false
    → i ≢ k
    → await_responses players (before ++ response k false ∷ after) ≡ some (accepted, false)
    → get q.player_id p.players ≡ none
    → get q.player_id (requeue grow players accepted p).players ≡ none
late_accept_dropped grow grow_fits players before after k i q accepted p d e new ne h out = ground (
  arith,
  requeue_lem grow grow_fits players accepted p q.player_id,
  accepting_unset players accepted i q d e
      (await_late players before after k i (accepted, false) (inside players i e) new ne h),
)
  where
    inside : (l : List QueuedPlayer) (n : ℕ) → get_elem? l n ≡ some q → n < length l
    inside [] n g = absurd (cc)
    inside (x ∷ l) zero g = omega arith
    inside (x ∷ l) (suc n) g = omega (arith, inside l n g)
