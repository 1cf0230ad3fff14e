-- ===== src/Pool.antt =====
-- internal/state/pool.go: the types, the bracket slices and the operations but for ExtractMatch,
-- which is Pool/Extract. An int32 rating is an integer, times are nanoseconds, and a *QueuedPlayer is
-- its struct, whose fields never change, with the number of its channel. Slices carry the capacity.
pub mod Slices
pub mod Removal
pub mod Invariant
pub mod Queueing
pub mod Channels
pub mod Extract
pub mod Contract
use fp_insis.Prelude.{
  ℕ, zero, suc, ◌+◌, ◌-◌, ◌/◌, Bool, true, false, ◌&&◌, Option, none, some, List, [], ◌∷◌, ◌++◌,
  String, ltb, leb, length, get_elem?, take, drop, get, put, delete, if◌then◌else◌, ◌==◌, string_eq,
  int_eq, ℤ, pos, negsuc, leb_ℤ, nat_beq,
}
use fp_insis.Chan.{Chans, make_chan, close}

abbrev pub bracket_size : ℕ
bracket_size = 500

abbrev pub max_mmr : ℕ
max_mmr = 10000

abbrev pub players_per_match : ℕ
players_per_match = 10

abbrev pub max_bracket_expansion : ℕ
max_bracket_expansion = 2

pub record QueuedPlayer : Type 0 where
  pub player_id : String
  pub display_name : String
  pub mmr : ℤ
  pub enqueued_at : ℤ
  pub match_ch : ℕ

pub record MatchEvent : Type 0 where
  pub session_id : String
  pub player_ids : List String
  pub created_at : ℤ
  pub response_ch : ℕ
  pub result_ch : ℕ

-- A Go slice: its elements and the capacity of its backing array.
pub record Slice : Type 0 where
  pub items : List QueuedPlayer
  pub cap : ℕ

abbrev pub nil_slice : Slice
nil_slice = record { items = []; cap = 0 }

pub record Pool : Type 0 where
  pub players : List (String × QueuedPlayer)
  pub brackets : List (ℤ × Slice)

abbrev pub new_pool : Pool
new_pool = record { players = []; brackets = [] }

unfoldable pub bracket_key : ℤ → ℤ
bracket_key (negsuc n) = pos 0
bracket_key (pos n) = pos (n / bracket_size)

-- sort.Search: the least index in [i, j) at which a monotone test holds, else j. The fuel is one
-- more than the range, which halves in each round.
unfoldable pub search_index : ℕ → (ℕ → Bool) → ℕ → ℕ → ℕ
search_index zero f i j = i
search_index (suc fuel) f i j =
    let h = (i + j) / 2 in
    let left = search_index fuel f i h in
    let right = search_index fuel f (h + 1) j in
    if ltb i j then (if f h then left else right) else i

-- s[i].MMR >= qp.MMR. The search asks only for i < len(s).
abbrev pub at_least : QueuedPlayer → List QueuedPlayer → ℕ → Bool
at_least qp xs i = elim (get_elem? xs i) [ none ↦ true | some x ↦ leb_ℤ qp.mmr x.mmr ]

-- append(s, nil) within the capacity keeps the array; past it, the runtime's `grow` chooses the
-- new capacity from the old one and the length that is needed.
abbrev pub grown : (ℕ → ℕ → ℕ) → Slice → ℕ
grown grow s = if ltb (length s.items) s.cap then s.cap else grow s.cap (length s.items + 1)

unfoldable pub insert_sorted : (ℕ → ℕ → ℕ) → Slice → QueuedPlayer → Slice
insert_sorted grow s qp =
    let idx = search_index (suc (length s.items)) (at_least qp s.items) 0 (length s.items) in
    record { items = take idx s.items ++ (qp ∷ drop idx s.items); cap = grown grow s }

-- The elements after the first one with this id is taken out.
pub remove_id : String → List QueuedPlayer → List QueuedPlayer
remove_id id [] = []
remove_id id (x ∷ xs) = if x.player_id == id then xs else x ∷ remove_id id xs

unfoldable pub has_id : String → List QueuedPlayer → Bool
has_id id [] = false
has_id id (x ∷ xs) = if x.player_id == id then true else has_id id xs

-- The shrink check: make([]*QueuedPlayer, newLen) has newLen for its capacity.
abbrev pub shrunk : ℕ → ℕ → ℕ
shrunk new_len cap = if ltb 0 new_len && ltb new_len (cap / 4) then new_len else cap

unfoldable pub remove_from_slice : Slice → String → Slice
unfolding remove_id has_id
remove_from_slice s id =
    let rest = remove_id id s.items in
    if has_id id s.items then record { items = rest; cap = shrunk (length rest) s.cap } else s

-- p.brackets[bk]: the nil slice where there is none.
abbrev pub slice_at : List (ℤ × Slice) → ℤ → Slice
slice_at m k = elim (get k m) [ none ↦ nil_slice | some s ↦ s ]

-- Store a slice, or delete its key where it is empty.
abbrev pub keep_slice : ℤ → Slice → List (ℤ × Slice) → List (ℤ × Slice)
keep_slice bk s m =
    let stored = put bk s m in if nat_beq (length s.items) 0 then delete bk stored else stored

-- The lines that Dequeue and ExtractMatch share: out of the bracket, and out of the index.
unfoldable pub remove_player : String → QueuedPlayer → Pool → Pool
remove_player id qp p = record {
  players = delete id p.players;
  brackets =
      let bk = bracket_key qp.mmr in
      keep_slice bk (remove_from_slice (slice_at p.brackets bk) id) p.brackets;
}

unfoldable pub add_player : (ℕ → ℕ → ℕ) → Pool → QueuedPlayer → Pool
add_player grow p qp = record {
  players = put qp.player_id qp p.players;
  brackets =
      let bk = bracket_key qp.mmr in
      put bk (insert_sorted grow (slice_at p.brackets bk) qp) p.brackets;
}

-- The error of Enqueue and ReEnqueue: "player %s already in queue".
pub data PoolError : Type 0 where
  already_in_queue : String → PoolError

-- The pool with the store of the players' channels.
pub record Lobby : Type 0 where
  pub pool : Pool
  pub chans : Chans MatchEvent

abbrev pub contains : String → Pool → Bool
contains id p = elim (get id p.players) [ none ↦ false | some _ ↦ true ]

abbrev pub size : Pool → ℕ
size p = length p.players

pub data EnqueueResult : Type 0 where
  enqueued : QueuedPlayer → EnqueueResult
  refused : PoolError → EnqueueResult

unfoldable pub enqueue : (ℕ → ℕ → ℕ) → ℤ → String → String → ℤ → Lobby → Lobby × EnqueueResult
enqueue grow now id name mmr l =
    let (chans', ch) = make_chan 1 l.chans in
    let qp : QueuedPlayer = record {
      player_id = id;
      display_name = name;
      mmr = mmr;
      enqueued_at = now;
      match_ch = ch;
    } in
    if contains id l.pool
    then (l, refused (already_in_queue id))
    else (record { pool = add_player grow l.pool qp; chans = chans' }, enqueued qp)

unfoldable pub re_enqueue : (ℕ → ℕ → ℕ) → QueuedPlayer → Pool → Pool × Option PoolError
re_enqueue grow qp p =
    if contains qp.player_id p
    then (p, some (already_in_queue qp.player_id))
    else (add_player grow p qp, none)

-- `none` is the panic of closing a closed channel. Go deletes the index entry after the close; the
-- two touch different state.
unfoldable pub dequeue : String → Lobby → Option (Lobby × Bool)
dequeue id l = elim (get id l.pool.players) [
  | none ↦ some (l, false)
  | some qp ↦ elim (close qp.match_ch l.chans) [
    | none ↦ none
    | some chans' ↦ some (record { pool = remove_player id qp l.pool; chans = chans' }, true)
  ]
]
