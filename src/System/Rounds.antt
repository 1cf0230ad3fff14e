-- ===== src/System/Rounds.antt =====
-- A round of a tick among the other goroutines: the new room's channels are its own, and the events
-- that are sent can be answered.
use fp_insis.Prelude.{
  ℕ, ◌≡◌, refl, sym, subst, ◌≢◌, inl, inr, Bool, true, false, some, List, [], ◌∷◌, String, arith,
  get, All, All-map, All-append, All-both, nat_eq, string_eq, nat_beq, nat_beq_iff, Bool-cases,
  Option-cases, ℤ,
}
use fp_insis.Chan.{Chans, buffer_of, make_chan, try_send, try_send-buffer_of}
use fp_insis.Pool.{QueuedPlayer, Pool, Lobby, MatchEvent}
use fp_insis.Pool.Slices.{IdsDistinct}
use fp_insis.Pool.Queueing.{IsSafe}
use fp_insis.Pool.Contract.Aside.{channels_differ}
use fp_insis.Coordinator.{ids_of}
use fp_insis.Coordinator.Verdict.{is_one_of, NumbersDistinct}
use fp_insis.Matchmaker.{Round, Room, Engine, make_room_chans, notify, open_room}
use fp_insis.Matchmaker.Rooms.{Unmade, MadeFresh, make_one, make_room_chans_lem}
use fp_insis.System.Coords.{channels_of}

-- What holds of all members of a list holds of one.
pub All-is_one_of : (P : ℕ → Type 0) (cs : List ℕ) (n : ℕ) → All P cs → is_one_of n cs ≡ true → P n
All-is_one_of P [] n h e = absurd (cc)
All-is_one_of P (c ∷ cs) n h e = elim (Bool-cases (nat_beq c n)) [
  | inl same ↦ subst P ((nat_beq_iff c n).0 same) h.0
  | inr other ↦ All-is_one_of P cs n h.1 (ground arith)
]

pub is_one_of-none :
    (P : ℕ → Type 0) (cs : List ℕ) (n : ℕ) → All P cs → (P n → ⊥) → is_one_of n cs ≡ false
is_one_of-none P cs n h no_p = elim (Bool-cases (is_one_of n cs)) [
  | inl listed ↦ absurd (no_p (All-is_one_of P cs n h listed))
  | inr gone ↦ gone
]

-- A send adds at most its value.
try_send-All :
    (P : MatchEvent → Type 0) (c d : ℕ) (a : MatchEvent) (h g : Chans MatchEvent) (b : Bool)
    → try_send c a h ≡ some (g, b)
    → P a
    → All P (buffer_of d h)
    → All P (buffer_of d g)
try_send-All P c d a h g b e p old = elim (try_send-buffer_of c a h g b d e) [
  | inl same ↦ subst (All P) (sym same) old
  | inr more ↦ subst (All P) (sym more) (All-append P (buffer_of d h) (a ∷ []) old (p, tt))
]

-- The channels hold what they held, and events with the response channels given.
pub notify-All :
    (P : MatchEvent → Type 0) (sid : String) (ids : List String) (now : ℤ) (qs : List QueuedPlayer)
    (rs cs : List ℕ) (h g : Chans MatchEvent) (d : ℕ)
    → notify sid ids now qs rs cs h ≡ some g
    → All (λ r. (evt : MatchEvent) → evt.response_ch ≡ r → P evt) rs
    → All P (buffer_of d h)
    → All P (buffer_of d g)
unfolding notify
notify-All P sid ids now (q ∷ qs) (r ∷ rs) (c ∷ cs) h g d e new old =
    let evt : MatchEvent = record {
      session_id = sid;
      player_ids = ids;
      created_at = now;
      response_ch = r;
      result_ch = c;
    } in
    elim (Option-cases (try_send q.match_ch evt h)) [
      | inl n ↦ absurd (ground arith)
      | inr ((h1, b), s) ↦
          notify-All P sid ids now qs rs cs h1 g d (ground arith) new.1
            (try_send-All P q.match_ch d evt h h1 b s (new.0 evt refl) old)
    ]
notify-All P sid ids now _ _ _ h g d e new old =
    let same : h ≡ g = ground arith in
    subst (λ (x : Chans MatchEvent). All P (buffer_of d x)) same old

-- No response channel of a room is one of its result channels.
pub responses_apart :
    (qs : List QueuedPlayer) (h : Chans Bool)
    → Unmade h
    → let (g, responses, results) = make_room_chans qs h in
      All (λ r. is_one_of r results ≡ false) responses
unfolding make_room_chans
responses_apart [] h u = tt
responses_apart (q ∷ qs) h u =
    let h1 = (make_chan 1 h).0 in
    let h2 = (make_chan 1 h1).0 in
    let (x1, n1, s1, f1) = make_one h u in
    let (x2, n2, s2, f2) = make_one h1 x1.unmade in
    let (x3, lr, lc, dd, fr, fc) = make_room_chans_lem qs h2 x2.unmade in
    let made = make_room_chans qs h2 in
    let later =
      is_one_of-none (MadeFresh h2 made.0) made.2 h.next fc (λ m. omega (arith, m.0, s1, s2)) in
    (
      ground (arith, n1, n2, s1, later, nat_beq_iff (make_chan 1 h1).1 (make_chan 1 h).1),
      All-map (λ r. (is_one_of r made.2 ≡ false) × MadeFresh h2 made.0 r)
          (λ r. is_one_of r ((make_chan 1 h1).1 ∷ made.2) ≡ false) made.1
          (λ r (a, m). ground (arith, a, m.0, n2, s2, nat_beq_iff (make_chan 1 h1).1 r))
          (All-both _ _ made.1 (responses_apart qs h2 x2.unmade) fr),
    )

-- What a round leaves, from the equation of open_room.
pub open_room_parts :
    (r : Round) (sel : List QueuedPlayer) (pool' : Pool) (e e' : Engine) (room : Room)
    → open_room r sel pool' e ≡ some (e', room)
    → (notify r.session_id (ids_of sel) r.now sel room.response_chs room.result_chs e.lobby.chans
        ≡ some e'.lobby.chans)
      × (room.response_chs ≡ (make_room_chans sel e.bools).1)
      × (room.result_chs ≡ (make_room_chans sel e.bools).2)
unfolding open_room
open_room_parts r sel pool' e e' room h =
    let (_, responses, results) = make_room_chans sel e.bools in
    elim (Option-cases
      (notify r.session_id (ids_of sel) r.now sel responses results e.lobby.chans)) [
        | inl n ↦ absurd (ground arith)
        | inr (g, f) ↦ (ground arith, ground arith, ground arith)
      ]

-- The channels of players with different ids are different.
pub channels_of-NumbersDistinct :
    (l : Lobby) (s : IsSafe l) (qs : List QueuedPlayer)
    → IdsDistinct qs
    → All (λ q. get q.player_id l.pool.players ≡ some q) qs
    → NumbersDistinct (channels_of qs)
channels_of-NumbersDistinct l s [] d h = tt
channels_of-NumbersDistinct l s (q ∷ qs) d h = (
  none_same q.match_ch qs (channels_differ l s q qs h.0 h.1 d.0),
  channels_of-NumbersDistinct l s qs d.1 h.1,
)
  where
    none_same :
        (c : ℕ) (qs : List QueuedPlayer)
        → All (λ r. c ≢ r.match_ch) qs
        → is_one_of c (channels_of qs) ≡ false
    none_same c [] h = refl
    none_same c (r ∷ rs) h = ground (arith, none_same c rs h.1, h.0, nat_beq_iff r.match_ch c)
