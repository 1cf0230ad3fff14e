-- ===== src/Matchmaker/Rooms.antt =====
-- The channels of a room, and the events that its players are sent.
use fp_insis.Prelude.{
  ℕ, suc, ◌≤◌, ◌<◌, ◌≡◌, refl, ◌∙◌, Bool, true, false, none, some, List, [], ◌∷◌, String, arith,
  length, get, get-put, All, All-map, nat_eq, nat_beq_iff, ℤ,
}
use fp_insis.Chan.{Chans, is_open, make_chan, SameShape, try_send_open}
use fp_insis.Pool.{QueuedPlayer, MatchEvent}
use fp_insis.Coordinator.Verdict.{fresh_chan, NumbersDistinct, is_one_of}
use fp_insis.Matchmaker.{make_room_chans, notify}

abbrev pub Unmade : Chans Bool → Type 0
Unmade h = (n : ℕ) → h.next ≤ n → get n h.cells ≡ none

-- What a sequence of makes leaves of a store.
pub record Extends (h g : Chans Bool) : Type 0 where
  pub later : h.next ≤ g.next
  pub kept : (d : ℕ) → d < h.next → get d g.cells ≡ get d h.cells
  pub unmade : Unmade g

pub Extends-trans : (a b c : Chans Bool) → Extends a b → Extends b c → Extends a c
Extends-trans a b c x y = record {
  later = omega (arith, x.later, y.later);
  kept = λ d lt. y.kept d (omega (arith, x.later)) ∙ x.kept d lt;
  unmade = y.unmade;
}

pub make_one :
    (h : Chans Bool)
    → Unmade h
    → Extends h (make_chan 1 h).0
      × ((make_chan 1 h).1 ≡ h.next)
      × ((make_chan 1 h).0.next ≡ suc h.next)
      × (get h.next (make_chan 1 h).0.cells ≡ some fresh_chan)
unfolding make_chan
make_one h u = (
  record {
    later = omega arith;
    kept = λ d lt. ground (arith, get-put h.next d fresh_chan h.cells, nat_beq_iff h.next d);
    unmade = λ n le. ground (arith, get-put h.next n fresh_chan h.cells, nat_beq_iff h.next n, u n);
  },
  refl,
  refl,
  ground (arith, get-put h.next h.next fresh_chan h.cells, nat_beq_iff h.next h.next),
)

-- The channel is there, made between the two stores, and untouched.
abbrev pub MadeFresh : Chans Bool → Chans Bool → ℕ → Type 0
MadeFresh h g c = (h.next ≤ c) × (c < g.next) × (get c g.cells ≡ some fresh_chan)

SameShape-trans : (a b c : Chans MatchEvent) → SameShape a b → SameShape b c → SameShape a c
SameShape-trans a b c x y = record {
  next = y.next ∙ x.next;
  open_as = λ d. y.open_as d ∙ x.open_as d;
  none_as = λ d n. y.none_as d (x.none_as d n);
}

SameShape-refl : (h : Chans MatchEvent) → SameShape h h
SameShape-refl h = record { next = refl; open_as = λ d. refl; none_as = λ d n. n }

still_open :
    (h g : Chans MatchEvent) (qs : List QueuedPlayer)
    → SameShape h g
    → All (λ q. is_open q.match_ch h ≡ true) qs
    → All (λ q. is_open q.match_ch g ≡ true) qs
still_open h g qs s =
    All-map (λ q. is_open q.match_ch h ≡ true) (λ q. is_open q.match_ch g ≡ true) qs
      (λ q o. s.open_as q.match_ch ∙ o)

-- With the players' channels open, no send panics.
pub notify_lem :
    (sid : String) (ids : List String) (now : ℤ) (qs : List QueuedPlayer) (rs cs : List ℕ)
    (h : Chans MatchEvent)
    → All (λ q. is_open q.match_ch h ≡ true) qs
    → (g : Chans MatchEvent) × (notify sid ids now qs rs cs h ≡ some g) × SameShape h g
unfolding notify
notify_lem sid ids now (q ∷ qs) (r ∷ rs) (c ∷ cs) h o =
    let evt : MatchEvent = record {
      session_id = sid;
      player_ids = ids;
      created_at = now;
      response_ch = r;
      result_ch = c;
    } in
    let (h1, b, e1, s1) = try_send_open q.match_ch evt h o.0 in
    let (h2, e2, s2) = notify_lem sid ids now qs rs cs h1 (still_open h h1 qs s1 o.1) in
    (h2, rw (e1, notify) e2, SameShape-trans h h1 h2 s1 s2)
notify_lem sid ids now _ _ _ h o = (h, refl, SameShape-refl h)

not_member : (c : ℕ) (cs : List ℕ) → All (λ d. c < d) cs → is_one_of c cs ≡ false
not_member c [] h = refl
not_member c (d ∷ ds) h = ground (arith, not_member c ds h.1)

-- The channels of a room are new, and all different.
pub make_room_chans_lem :
    (qs : List QueuedPlayer) (h : Chans Bool)
    → Unmade h
    → let (g, responses, results) = make_room_chans qs h in
      Extends h g
      × (length responses ≡ length qs)
      × (length results ≡ length qs)
      × NumbersDistinct results
      × All (MadeFresh h g) responses
      × All (MadeFresh h g) results
unfolding make_room_chans
make_room_chans_lem [] h u =
    (record { later = omega arith; kept = λ d lt. refl; unmade = u }, refl, refl, tt, tt, tt)
make_room_chans_lem (q ∷ qs) h u =
    let h1 = (make_chan 1 h).0 in
    let h2 = (make_chan 1 h1).0 in
    let (x1, n1, s1, f1) = make_one h u in
    let (x2, n2, s2, f2) = make_one h1 x1.unmade in
    let (x3, lr, lc, d, fr, fc) = make_room_chans_lem qs h2 x2.unmade in
    let g = (make_room_chans qs h2).0 in
    let x12 = Extends-trans h h1 h2 x1 x2 in
    let x13 = Extends-trans h1 h2 g x2 x3 in
    let wide = λ (c : ℕ) (m : MadeFresh h2 g c). wider h h2 g c x12 m in
    (
      Extends-trans h h2 g x12 x3,
      omega (arith, lr),
      omega (arith, lc),
      (
        rw n2 (
            not_member h1.next _
              (All-map (MadeFresh h2 g) (λ c. h1.next < c) _ (λ c m. omega (arith, s2, m.0)) fc)),
        d,
      ),
      (
        (
          rw n1 (omega arith),
          rw n1 (omega (arith, x13.later, s1)),
          rw n1 (x13.kept h.next (omega (arith, s1)) ∙ f1),
        ),
        All-map (MadeFresh h2 g) (MadeFresh h g) _ wide fr,
      ),
      (
        (
          rw n2 (omega (arith, s1)),
          rw n2 (omega (arith, s2, x3.later)),
          rw n2 (x3.kept h1.next (omega (arith, s2)) ∙ f2),
        ),
        All-map (MadeFresh h2 g) (MadeFresh h g) _ wide fc,
      ),
    )
  where
    wider : (h h2 g : Chans Bool) (c : ℕ) → Extends h h2 → MadeFresh h2 g c → MadeFresh h g c
    wider h h2 g c x m = (omega (arith, x.later), m.1, m.2)
