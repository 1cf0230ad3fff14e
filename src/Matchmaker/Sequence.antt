-- ===== src/Matchmaker/Sequence.antt =====
-- Ticks one after the other.
use fp_insis.Prelude.{
  ℕ, ◌≡◌, refl, ap, ◌∙◌, Bool, none, some, List, [], ◌∷◌, ◌++◌, String, arith, length-append, get,
  All, All-map, All-append, string_eq, nat_eq,
}
use text.Mathlib.TextEquality.{eq_iff}
use fp_insis.Chan.{Chans}
use fp_insis.Pool.{QueuedPlayer}
use fp_insis.Pool.Slices.{find_id}
use fp_insis.Pool.Removal.{has_id-find_id, has_id-append, has_id-nil}
use fp_insis.Pool.Extract.Collected.{IdsDistinct-append, find_id_member}
use fp_insis.Pool.Queueing.{IsSafe}
use fp_insis.Matchmaker.{Room, Engine}
use fp_insis.Matchmaker.Rooms.{Unmade, Extends, Extends-trans, MadeFresh}
use fp_insis.Matchmaker.Opening.{IsOpened, seated, Ticked}

-- The names of the rooms seated later are not among the names of those seated before.
absent_later :
    (pl : List (String × QueuedPlayer)) (x : QueuedPlayer) (ys : List QueuedPlayer)
    → get x.player_id pl ≡ none
    → All (λ y. get y.player_id pl ≡ some y) ys
    → find_id x.player_id ys ≡ none
unfolding find_id
absent_later pl x [] n h = refl
absent_later pl x (y ∷ ys) n h =
    ground (arith, absent_later pl x ys n h.1, eq_iff y.player_id x.player_id)

wider :
    (a b c : Chans Bool) (room : Room)
    → Extends a b
    → Extends b c
    → IsOpened a b room
    → IsOpened a c room
wider a b c room x y o = record {
  full = o.full;
  responses = o.responses;
  results = o.results;
  distinct = o.distinct;
  fresh_responses = All-map (MadeFresh a b) (MadeFresh a c) _ kept o.fresh_responses;
  fresh_results = All-map (MadeFresh a b) (MadeFresh a c) _ kept o.fresh_results;
}
  where
    kept : (d : ℕ) → MadeFresh a b d → MadeFresh a c d
    kept d m = (m.0, omega (arith, m.1, y.later), y.kept d m.1 ∙ m.2)

earlier : (a b c : Chans Bool) (room : Room) → Extends a b → IsOpened b c room → IsOpened a c room
earlier a b c room x o = record {
  full = o.full;
  responses = o.responses;
  results = o.results;
  distinct = o.distinct;
  fresh_responses = All-map (MadeFresh b c) (MadeFresh a c) _ lower o.fresh_responses;
  fresh_results = All-map (MadeFresh b c) (MadeFresh a c) _ lower o.fresh_results;
}
  where
    lower : (d : ℕ) → MadeFresh b c d → MadeFresh a c d
    lower d m = (omega (arith, x.later, m.0), m.1, m.2)

-- A tick that does nothing.
pub Ticked-refl : (e : Engine) → IsSafe e.lobby → Unmade e.bools → Ticked e e []
Ticked-refl e safe unmade = record {
  safe = safe;
  conserved = omega arith;
  counted = omega arith;
  opened = tt;
  queued = tt;
  distinct = tt;
  remaining = λ j. rw (has_id-nil j) refl;
  bools = record { later = omega arith; kept = λ d lt. refl; unmade = unmade };
  sessions = refl;
}

append_assoc : {A : Type 0} (xs ys zs : List A) → (xs ++ ys) ++ zs ≡ xs ++ (ys ++ zs)
append_assoc [] ys zs = refl
append_assoc (x ∷ xs) ys zs = ap (x ∷◌) (append_assoc xs ys zs)

seated-append : (xs ys : List Room) → seated (xs ++ ys) ≡ seated xs ++ seated ys
seated-append [] ys = refl
seated-append (x ∷ xs) ys =
    rw (append_assoc x.players (seated xs) (seated ys)) (ap (x.players ++◌) (seated-append xs ys))

-- What two ticks do, one after the other.
pub Ticked-trans :
    (a b c : Engine) (xs ys : List Room) → Ticked a b xs → Ticked b c ys → Ticked a c (xs ++ ys)
Ticked-trans a b c xs ys x y = record {
  safe = y.safe;
  conserved =
      rw (seated-append xs ys)
        (omega (arith, x.conserved, y.conserved, length-append (seated xs) (seated ys)));
  counted = omega (arith, x.counted, y.counted, length-append xs ys);
  opened =
      All-append (IsOpened a.bools c.bools) xs ys
        (All-map (IsOpened a.bools b.bools) (IsOpened a.bools c.bools) xs
          (λ r o. wider a.bools b.bools c.bools r x.bools y.bools o) x.opened)
        (All-map (IsOpened b.bools c.bools) (IsOpened a.bools c.bools) ys
          (λ r o. earlier a.bools b.bools c.bools r x.bools o) y.opened);
  queued = rw (seated-append xs ys) (
      All-append Queued (seated xs) (seated ys) x.queued (
        All-map (λ q. get q.player_id b.lobby.pool.players ≡ some q) Queued (seated ys)
          (λ q h. still q h) y.queued));
  distinct = rw (seated-append xs ys) (
      IdsDistinct-append (seated xs) (seated ys) x.distinct y.distinct (
        All-map (λ q. find_id q.player_id (seated xs) ≡ some q)
          (λ q. find_id q.player_id (seated ys) ≡ none) (seated xs)
          (λ q h. absent_later b.lobby.pool.players q (seated ys) (gone q h) y.queued)
          (find_id_member (seated xs) x.distinct)));
  remaining = λ j.
      rw (seated-append xs ys)
        (ground (arith, y.remaining j, x.remaining j, has_id-append j (seated xs) (seated ys)));
  bools = Extends-trans a.bools b.bools c.bools x.bools y.bools;
  sessions = y.sessions ∙ x.sessions;
}
  where
    Queued : QueuedPlayer → Type 0
    Queued q = get q.player_id a.lobby.pool.players ≡ some q

    still : (q : QueuedPlayer) → get q.player_id b.lobby.pool.players ≡ some q → Queued q
    still q h = ground (arith, x.remaining q.player_id)

    gone :
        (q : QueuedPlayer)
        → find_id q.player_id (seated xs) ≡ some q
        → get q.player_id b.lobby.pool.players ≡ none
    gone q h = ground (arith, x.remaining q.player_id, has_id-find_id q.player_id (seated xs))
