-- ===== src/Pool/Contract.antt =====
-- What internal/state/pool.go promises its callers, over an abstract queue: which player, if any, is
-- queued under each id. And the runs of the methods, by callers who put back only players that they
-- drew, each at most once, as the coordinators do.
pub mod Aside
pub mod Crowd
pub mod Refines
use fp_insis.Prelude.{
  ℕ, zero, suc, ◌≤◌, ◌<◌, ◌≡◌, ◌≢◌, Bool, true, false, Option, none, some, List, [], ◌∷◌, ◌++◌,
  String, length, get, get_elem?, All, if◌then◌else◌, ◌==◌, string_eq, ℤ,
}
use fp_insis.Runtime.{Floats}
use fp_insis.Pool.{
  QueuedPlayer, Pool, Lobby, PoolError, already_in_queue, EnqueueResult, enqueued, refused,
  players_per_match, bracket_key, has_id, contains, size, enqueue, re_enqueue, dequeue,
}
use fp_insis.Pool.Slices.{find_id, IdsDistinct, IsSorted}
use fp_insis.Pool.Extract.{Env, extract_match}

abbrev pub Queue : Type 0
Queue = String → Option QueuedPlayer

abbrev pub view : Pool → Queue
view p = λ id. get id p.players

-- A call with its arguments and what it returned.
pub data Event : Type 0 where
  enqueues : (now : ℤ) (id name : String) (mmr : ℤ) → EnqueueResult → Event
  puts_back : QueuedPlayer → Option PoolError → Event
  dequeues asks : String → Bool → Event
  counts : ℕ → Event
  draws : Option (List QueuedPlayer) → Event

abbrev pub is_some : Option QueuedPlayer → Bool
is_some none = false
is_some (some q) = true

-- The queue `r` is `q` but for what stands under `id`.
abbrev pub Sets : String → Option QueuedPlayer → Queue → Queue → Type 0
Sets id o q r = (j : String) → r j ≡ (if id == j then o else q j)

abbrev pub Same : Queue → Queue → Type 0
Same q r = (j : String) → r j ≡ q j

-- What a call may return on the queue `q`, and the queue `r` that it leaves. Enqueue and ReEnqueue
-- add a player exactly when the id is free; a draw gives ten players, in order of rating, and takes
-- them out, and fails only where no ten players are in one bracket.
abbrev pub Allows : Queue → Event → Queue → Type 0
Allows q (enqueues now id name mmr (enqueued qp)) r =
    (q id ≡ none)
    × (qp.player_id ≡ id)
    × (qp.display_name ≡ name)
    × (qp.mmr ≡ mmr)
    × (qp.enqueued_at ≡ now)
    × Sets id (some qp) q r
Allows q (enqueues now id name mmr (refused e)) r =
    (q id ≢ none) × (e ≡ already_in_queue id) × Same q r
Allows q (puts_back qp none) r = (q qp.player_id ≡ none) × Sets qp.player_id (some qp) q r
Allows q (puts_back qp (some e)) r =
    (q qp.player_id ≢ none) × (e ≡ already_in_queue qp.player_id) × Same q r
Allows q (dequeues id b) r = (b ≡ is_some (q id)) × Sets id none q r
Allows q (asks id b) r = (b ≡ is_some (q id)) × Same q r
Allows q (counts n) r =
    (l : List QueuedPlayer) × (length l ≡ n)
    × IdsDistinct l
    × ((j : String) → find_id j l ≡ q j)
    × Same q r
Allows q (draws (some sel)) r =
    (length sel ≡ players_per_match)
    × IdsDistinct sel
    × IsSorted sel
    × All (λ x. q x.player_id ≡ some x) sel
    × ((j : String) → r j ≡ (if has_id j sel then none else q j))
Allows q (draws none) r =
    ((k : ℤ) (l : List QueuedPlayer)
      → IdsDistinct l
      → All (λ x. (q x.player_id ≡ some x) × (bracket_key x.mmr ≡ k)) l
      → length l < players_per_match)
    × Same q r

-- One call after another.
abbrev pub Follows : Queue → List Event → Queue → Type 0
Follows q [] r = Same q r
Follows q (e ∷ es) r = (m : Queue) × Allows q e m × Follows m es r

-- The calls. `put_back_drawn i` puts back the i-th of the players who are drawn and not put back.
pub data Call : Type 0 where
  enqueue_call : (now : ℤ) (id name : String) (mmr : ℤ) → Call
  put_back_drawn : ℕ → Call
  dequeue_call ask_call : String → Call
  count_call : Call
  draw_call : Env → Call

-- The lobby, with the players who are drawn and not put back.
pub record Desk : Type 0 where
  pub lobby : Lobby
  pub drawn : List QueuedPlayer

abbrev pub remove_elem : ℕ → List QueuedPlayer → List QueuedPlayer
remove_elem i [] = []
remove_elem zero (x ∷ xs) = xs
remove_elem (suc i) (x ∷ xs) = x ∷ remove_elem i xs

abbrev pub drawn_of : Option (List QueuedPlayer) → List QueuedPlayer
drawn_of none = []
drawn_of (some sel) = sel

module _ (grow : ℕ → ℕ → ℕ) (fl : Floats) where
  -- One call: `none` where it panics. There is no event where nobody is to be put back.
  unfoldable pub perform : Call → Desk → Option (Desk × List Event)
  perform (enqueue_call now id name mmr) d =
      let (l, r) = enqueue grow now id name mmr d.lobby in
      some (record d { lobby = l }, enqueues now id name mmr r ∷ [])
  perform (put_back_drawn i) d = elim (get_elem? d.drawn i) [
    | none ↦ some (d, [])
    | some qp ↦
        let (p, e) = re_enqueue grow qp d.lobby.pool in
        some (
          record { lobby = record d.lobby { pool = p }; drawn = remove_elem i d.drawn },
          puts_back qp e ∷ [],
        )
  ]
  perform (dequeue_call id) d = elim (dequeue id d.lobby) [
    | none ↦ none
    | some (l, b) ↦ some (record d { lobby = l }, dequeues id b ∷ [])
  ]
  perform (ask_call id) d = some (d, asks id (contains id d.lobby.pool) ∷ [])
  perform count_call d = some (d, counts (size d.lobby.pool) ∷ [])
  perform (draw_call env) d =
      let (p, o) = extract_match fl env d.lobby.pool in
      some (
        record { lobby = record d.lobby { pool = p }; drawn = drawn_of o ++ d.drawn },
        draws o ∷ [],
      )

  unfoldable pub perform_all : List Call → Desk → Option (Desk × List Event)
  perform_all [] d = some (d, [])
  perform_all (c ∷ cs) d = elim (perform c d) [
    | none ↦ none
    | some (d1, es) ↦ elim (perform_all cs d1) [ none ↦ none | some (d2, fs) ↦ some (d2, es ++ fs) ]
  ]
