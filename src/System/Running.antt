-- ===== src/System/Running.antt =====
-- What holds of the whole server between steps, and every step from such a state.
use fp_insis.Prelude.{
  ℕ, ◌≤◌, ◌≡◌, refl, ap, sym, ◌∙◌, subst, inl, inr, Bool, false, Option, some, List, ◌∷◌, map,
  length, length-replicate, set, get_elem?, map-set, get_elem?-map, All, All-set, All-get_elem?,
  nat_eq, string_eq, Option-cases, ℤ,
}
use fp_insis.Runtime.{Floats}
use fp_insis.Pool.{QueuedPlayer, Pool}
use fp_insis.Pool.Extract.{extract_match}
use fp_insis.Matchmaker.{Round, Room, Engine}
use fp_insis.Matchmaker.Opening.{open_room_lem}
use fp_insis.Gateway.{Entered}
use fp_insis.Gateway.Loop.{Event, Next}
use fp_insis.System.{
  Coord, CoordAction, Stepped, idle, crashed, stuck, stepped, System, Action, connects, stream_acts,
  draws, coord_acts, submits, world_of, connected, streamed, coordinated, draw_round, system_step,
}
use fp_insis.System.Apart.{held}
use fp_insis.System.Streams.{Moved, moves, stream_step-Moved}
use fp_insis.System.Coords.{untold, lent, Handled, Seated, Flagged, HandledBy, handles}
use fp_insis.System.Handling.{coord_step_lem}
use fp_insis.System.Shared.{
  IsShared, StreamGood, moved-IsShared, moved-StreamGood, Ready-at, handled-IsShared,
}
use fp_insis.System.Opening.{opened-IsShared}
use fp_insis.System.Connecting.{EnteredWell, turned_away, let_in, enter-EnteredWell}

abbrev pub untold_all : List Coord → List (List ℕ)
untold_all = map (λ c. untold c.room c.phase)

abbrev pub lent_all : List Coord → List (List ℕ)
lent_all = map (λ c. lent c.room c.phase)

-- What the goroutines rely on of each other holds, and each coordinator has a flag for each player.
pub record IsRunning (s : System) : Type 0 where
  pub shared : IsShared (untold_all s.coords) (lent_all s.coords) s.engine s.streams
  pub manned : All (λ c. Seated c × Flagged c.room c.phase) s.coords

-- A step that is not ready, or one to a state in good order; not a panic, and not a send that blocks
-- for good.
pub data StepsWell : Stepped System → Type 0 where
  waits : StepsWell idle
  runs : (s : System) → IsRunning s → StepsWell (stepped s)

module _ (s : System) (ok : IsRunning s) where
  connected-StepsWell :
      (r : Entered)
      → EnteredWell (held (untold_all s.coords)) (world_of s.engine) r
      → StepsWell (connected s r)
  connected-StepsWell (Entered.rejected code w) (turned_away v m safe) = runs _ (record {
    shared =
        moved-IsShared (untold_all s.coords) (lent_all s.coords) s.engine s.streams ok.shared w
          s.streams m safe
          (moved-StreamGood (untold_all s.coords) (lent_all s.coords) s.engine s.streams ok.shared w
            m);
    manned = ok.manned;
  })
  connected-StepsWell (Entered.joined w st) (let_in v x m safe p) = runs _ (record {
    shared =
        moved-IsShared (untold_all s.coords) (lent_all s.coords) s.engine s.streams ok.shared w
          (st ∷ s.streams) m safe
          (
            rw p tt,
            moved-StreamGood (untold_all s.coords) (lent_all s.coords) s.engine s.streams ok.shared
                w m,
          );
    manned = ok.manned;
  })
  connected-StepsWell Entered.panicked r = elim r [ ]

  streamed-StepsWell :
      (i : ℕ) (n : Next)
      → Moved (held (untold_all s.coords)) (world_of s.engine) n
      → StepsWell (streamed i s n)
  streamed-StepsWell i Next.blocked m = waits
  streamed-StepsWell i Next.panicked m = elim m [ ]
  streamed-StepsWell i (Next.next w st) (moves m safe g) = runs _ (record {
    shared =
        moved-IsShared (untold_all s.coords) (lent_all s.coords) s.engine s.streams ok.shared w
          (set s.streams i st) m safe
          (All-set (StreamGood (held (untold_all s.coords)) w.bools) s.streams i st
            (moved-StreamGood (untold_all s.coords) (lent_all s.coords) s.engine s.streams ok.shared
              w m)
            g);
    manned = ok.manned;
  })

  coord_runs :
      (k : ℕ) (c : Coord) (e' : Engine) (c' : Coord)
      → get_elem? s.coords k ≡ some c
      → Handled s.engine c.room c.phase e' c'.phase
      → c'.room ≡ c.room
      → Seated c'
      → IsRunning (record s { engine = e'; coords = set s.coords k c' })
  coord_runs k c e' c' at h same seated =
      let us_at = get_elem?-map (λ (x : Coord). untold x.room x.phase) s.coords k c at in
      let ls_at = get_elem?-map (λ (x : Coord). lent x.room x.phase) s.coords k c at in
      let us : set (untold_all s.coords) k (untold c.room c'.phase)
          ≡ untold_all (set s.coords k c') =
        ap (λ (r : Room). set (untold_all s.coords) k (untold r c'.phase)) (sym same)
        ∙ sym (map-set (λ (x : Coord). untold x.room x.phase) s.coords k c') in
      let ls : set (lent_all s.coords) k (lent c.room c'.phase) ≡ lent_all (set s.coords k c') =
        ap (λ (r : Room). set (lent_all s.coords) k (lent r c'.phase)) (sym same)
        ∙ sym (map-set (λ (x : Coord). lent x.room x.phase) s.coords k c') in
      record {
        shared =
            subst (λ (u : List (List ℕ)). IsShared u (lent_all (set s.coords k c')) e' s.streams) us
              (subst
                (λ (l : List (List ℕ)).
                  IsShared (set (untold_all s.coords) k (untold c.room c'.phase)) l e' s.streams)
                ls
                (handled-IsShared (untold_all s.coords) (lent_all s.coords) s.engine s.streams
                  ok.shared k c.room c.phase us_at ls_at e' c'.phase h));
        manned =
            All-set (λ x. Seated x × Flagged x.room x.phase) s.coords k c' ok.manned
              (seated, subst (λ (r : Room). Flagged r c'.phase) (sym same) h.flagged);
      }

  coordinated-StepsWell :
      (k : ℕ) (c : Coord) (o : Stepped (Engine × Coord))
      → get_elem? s.coords k ≡ some c
      → HandledBy s.engine c.room c.phase o
      → StepsWell (coordinated k s o)
  coordinated-StepsWell k c idle at h = waits
  coordinated-StepsWell k c crashed at h = elim h [ ]
  coordinated-StepsWell k c stuck at h = elim h [ ]
  coordinated-StepsWell k c (stepped (e', c')) at (handles x y h same seated) =
      runs _ (coord_runs k c e' c' at h same seated)

  module _ (grow : ℕ → ℕ → ℕ) (grow_fits : (c n : ℕ) → n ≤ grow c n) (fl : Floats) where
    coord-StepsWell : (k : ℕ) (a : CoordAction) → StepsWell (system_step grow fl (coord_acts k a) s)
    unfolding system_step
    coord-StepsWell k a = elim (Option-cases (get_elem? s.coords k)) [
      | inl n ↦ rw (n, system_step) waits
      | inr (c, at) ↦
          let (seated, flagged) =
            All-get_elem? (λ x. Seated x × Flagged x.room x.phase) s.coords k c at ok.manned in
          let ready =
            Ready-at (untold_all s.coords) (lent_all s.coords) s.engine s.streams ok.shared k c.room
              c.phase (get_elem?-map (λ (x : Coord). untold x.room x.phase) s.coords k c at)
              (get_elem?-map (λ (x : Coord). lent x.room x.phase) s.coords k c at) flagged in
          rw (at, system_step)
            (coordinated-StepsWell k c _ at
              (coord_step_lem grow grow_fits s.engine c a c.phase refl ready seated))
    ]

    stream-StepsWell :
        (i : ℕ) (now : ℤ) (sends : Bool) (ev : Event)
        → StepsWell (system_step grow fl (stream_acts i now sends ev) s)
    unfolding system_step
    stream-StepsWell i now sends ev = elim (Option-cases (get_elem? s.streams i)) [
      | inl n ↦ rw (n, system_step) waits
      | inr (st, at) ↦
          rw (at, system_step)
            (streamed-StepsWell i _ (
              stream_step-Moved (held (untold_all s.coords)) now sends (world_of s.engine)
                ok.shared.safe ev st
                (All-get_elem? (StreamGood (held (untold_all s.coords)) s.engine.bools) s.streams i
                  st at ok.shared.good)
                (ok.shared.events st.qp.match_ch)))
    ]

    opened-StepsWell :
        (r : Round) (pool' : Pool) (sel : List QueuedPlayer)
        → extract_match fl r.env s.engine.lobby.pool ≡ (pool', some sel)
        → StepsWell (draw_round fl r s)
    unfolding draw_round
    opened-StepsWell r pool' sel x =
        let (e', room, o, p, q, t) =
          open_room_lem fl r s.engine ok.shared.safe ok.shared.unmade pool' sel x in
        rw
          (
            ap (λ (y : Pool × Option (List QueuedPlayer)). y.1) x,
            ap (λ (y : Pool × Option (List QueuedPlayer)). y.0) x,
            o,
            draw_round,
          )
          (runs _ (record {
            shared =
                opened-IsShared fl r (untold_all s.coords) (lent_all s.coords) s.engine s.streams
                  ok.shared pool' sel x e' room o p q t;
            manned = (
              (
                record { seats = t.opened.0.responses ∙ sym t.opened.0.full; indices = tt },
                length-replicate (length room.players) false,
              ),
              ok.manned,
            );
          }))

    draws-StepsWell : (r : Round) → StepsWell (draw_round fl r s)
    unfolding draw_round
    draws-StepsWell r =
        let x = extract_match fl r.env s.engine.lobby.pool in
        elim (Option-cases x.1) [
          | inl n ↦ rw (n, draw_round) waits
          | inr (sel, h) ↦
              opened-StepsWell r x.0 sel (ap (λ (o : Option (List QueuedPlayer)). (x.0, o)) h)
        ]

    -- Every step from a state in good order.
    pub system_step-StepsWell : (a : Action) → StepsWell (system_step grow fl a s)
    unfolding system_step
    system_step-StepsWell (connects now sends first) = connected-StepsWell _ (
        enter-EnteredWell grow grow_fits (held (untold_all s.coords)) now sends first
          (world_of s.engine) ok.shared.safe)
    system_step-StepsWell (stream_acts i now sends ev) = stream-StepsWell i now sends ev
    system_step-StepsWell (draws r) = draws-StepsWell r
    system_step-StepsWell (coord_acts k a) = coord-StepsWell k a
    system_step-StepsWell (submits expired now req) =
        let ok' = ok.shared in
        runs _ (record {
          shared = record {
            safe = ok'.safe;
            unmade = ok'.unmade;
            untold_apart = ok'.untold_apart;
            untold_fresh = ok'.untold_fresh;
            lent_apart = ok'.lent_apart;
            lent_free = ok'.lent_free;
            events = ok'.events;
            good = ok'.good;
          };
          manned = ok.manned;
        })
