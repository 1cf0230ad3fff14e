-- ===== src/System/Progress.antt =====
-- How a coordinator of the running server comes to its end.
use fp_insis.Prelude.{
  ℕ, suc, zero, ◌≤◌, ◌≡◌, refl, ap, ◌∙◌, inl, inr, Bool, true, false, some, List, [], ◌∷◌, set,
  get_elem?, arith, Option-cases, pos,
}
use fp_insis.Runtime.{Floats}
use fp_insis.Chan.{try_send, close}
use fp_insis.Pool.{QueuedPlayer}
use fp_insis.Matchmaker.{Engine}
use fp_insis.System.{
  CoordPhase, gathering, telling, putting_back, ended, Coord, CoordAction, time_passes, expires,
  tells, puts_back, Stepped, idle, crashed, stuck, stepped, System, coord_acts, system_step,
  coord_step, tell_one, put_back_one, decide,
}
use fp_insis.System.Reach.{Reached, later, Reached-runs}

abbrev and_then : Stepped System → (System → Stepped System) → Stepped System
and_then idle f = idle
and_then crashed f = crashed
and_then stuck f = stuck
and_then (stepped s) f = f s

get_elem?-set :
    {A : Type 0}
    → (xs : List A) (k : ℕ) (x y : A) → get_elem? xs k ≡ some x
    → get_elem? (set xs k y) k ≡ some y
get_elem?-set [] k x y h = absurd (ground arith)
get_elem?-set (z ∷ zs) zero x y h = refl
get_elem?-set (z ∷ zs) (suc k) x y h = get_elem?-set zs k x y h

module _ (grow : ℕ → ℕ → ℕ) (fl : Floats) (k : ℕ) where
  -- Steps of one coordinator, one after another.
  unfoldable pub run_steps : List CoordAction → System → Stepped System
  run_steps [] s = stepped s
  run_steps (a ∷ as_) s = and_then (system_step grow fl (coord_acts k a) s) (λ t. run_steps as_ t)

  record Finishes (s : System) : Type 0 where
    actions : List CoordAction
    last : System
    coord : Coord
    runs : run_steps actions s ≡ stepped last
    at : get_elem? last.coords k ≡ some coord
    over : coord.phase ≡ ended

module _ (grow : ℕ → ℕ → ℕ) (grow_fits : (c n : ℕ) → n ≤ grow c n) (fl : Floats) (k : ℕ) where
  steps :
      (s : System) (a : CoordAction) (c c1 : Coord) (e1 : Engine)
      → get_elem? s.coords k ≡ some c
      → coord_step grow a s.engine c ≡ stepped (e1, c1)
      → Reached grow grow_fits fl s
      → ((s1 : System)
          → s1.engine ≡ e1
          → get_elem? s1.coords k ≡ some c1
          → Reached grow grow_fits fl s1
          → Finishes grow fl k s1)
      → Finishes grow fl k s
  unfolding run_steps system_step
  steps s a c c1 e1 at q r go =
      let s1 = record s { engine = e1; coords = set s.coords k c1 } in
      let e : system_step grow fl (coord_acts k a) s ≡ stepped s1 = rw (at, q, system_step) refl in
      let f = go s1 refl (get_elem?-set s.coords k c c1 at) (later s s1 (coord_acts k a) r e) in
      record {
        actions = a ∷ f.actions;
        last = f.last;
        coord = f.coord;
        at = f.at;
        over = f.over;
        runs = ap (λ x. and_then x (λ t. run_steps grow fl k f.actions t)) e ∙ f.runs;
      }

  crashes :
      (s : System) (a : CoordAction) (c : Coord)
      → get_elem? s.coords k ≡ some c
      → coord_step grow a s.engine c ≡ crashed
      → Reached grow grow_fits fl s
      → ⊥
  unfolding system_step
  crashes s a c at q r =
      let (safe, free, no_crash, no_stop) = Reached-runs grow grow_fits fl s (coord_acts k a) r in
      no_crash (rw (at, q, system_step) refl)

  sticks :
      (s : System) (a : CoordAction) (c : Coord)
      → get_elem? s.coords k ≡ some c
      → coord_step grow a s.engine c ≡ stuck
      → Reached grow grow_fits fl s
      → ⊥
  unfolding system_step
  sticks s a c at q r =
      let (safe, free, no_crash, no_stop) = Reached-runs grow grow_fits fl s (coord_acts k a) r in
      no_stop (rw (at, q, system_step) refl)

  ends :
      (s : System) (c : Coord)
      → get_elem? s.coords k ≡ some (record c { phase = ended })
      → Finishes grow fl k s
  unfolding run_steps
  ends s c at = record {
    actions = [];
    last = s;
    coord = record c { phase = ended };
    runs = refl;
    at = at;
    over = refl;
  }

  puts_back_ends :
      (players : List QueuedPlayer) (accepted : List Bool) (s : System) (c : Coord)
      → get_elem? s.coords k ≡ some (record c { phase = putting_back players accepted })
      → Reached grow grow_fits fl s
      → Finishes grow fl k s
  unfolding coord_step put_back_one
  puts_back_ends [] accepted s c at r =
      steps s puts_back _ (record c { phase = ended }) s.engine at refl r
        (λ s1 e1 at1 r1. ends s1 c at1)
  puts_back_ends (q ∷ qs) [] s c at r = absurd (crashes s puts_back _ at refl r)
  puts_back_ends (q ∷ qs) (a ∷ accepted) s c at r =
      steps s puts_back _ (record c { phase = putting_back qs accepted }) _ at refl r
        (λ s1 e1 at1 r1. puts_back_ends qs accepted s1 c at1 r1)

  tells_end :
      (v : Bool) (left : List ℕ) (accepted : List Bool) (s : System) (c : Coord)
      → get_elem? s.coords k ≡ some (record c { phase = telling v left accepted })
      → Reached grow grow_fits fl s
      → Finishes grow fl k s
  unfolding coord_step tell_one
  tells_end true [] accepted s c at r =
      steps s tells _ (record c { phase = ended }) s.engine at refl r
        (λ s1 e1 at1 r1. ends s1 c at1)
  tells_end false [] accepted s c at r =
      steps s tells _ (record c { phase = putting_back c.room.players accepted }) s.engine at refl r
        (λ s1 e1 at1 r1. puts_back_ends c.room.players accepted s1 c at1 r1)
  tells_end v (ch ∷ chs) accepted s c at r = elim (Option-cases (try_send ch v s.engine.bools)) [
    | inl n ↦ absurd (crashes s tells _ at (rw (n, tell_one) refl) r)
    | inr ((h1, false), t) ↦ absurd (sticks s tells _ at (rw (t, tell_one) refl) r)
    | inr ((h1, true), t) ↦ elim (Option-cases (close ch h1)) [
      | inl n ↦ absurd (crashes s tells _ at (rw (t, n, tell_one) refl) r)
      | inr (h2, x) ↦
          steps s tells _ (record c { phase = telling v chs accepted })
            (record s.engine { bools = h2 }) at (rw (t, x, tell_one) refl) r
            (λ s1 e1 at1 r1. tells_end v chs accepted s1 c at1 r1)
    ]
  ]

  phase_ends :
      (p : CoordPhase) (s : System) (c : Coord)
      → get_elem? s.coords k ≡ some (record c { phase = p })
      → Reached grow grow_fits fl s
      → Finishes grow fl k s
  unfolding coord_step decide
  phase_ends (gathering received accepted) s c at r =
      steps s time_passes _ (record c { phase = gathering received accepted; timed_out = true })
        s.engine at refl r
        (λ s1 e1 at1 r1.
          steps s1 (expires (pos 0)) _
            (record c { phase = telling false c.room.result_chs accepted; timed_out = true })
            s1.engine at1 refl r1
            (λ s2 e2 at2 r2.
              tells_end false c.room.result_chs accepted s2 (record c { timed_out = true }) at2 r2))
  phase_ends (telling v left accepted) s c at r = tells_end v left accepted s c at r
  phase_ends (putting_back players accepted) s c at r = puts_back_ends players accepted s c at r
  phase_ends ended s c at r = ends s c at

  -- No ready check stays open for good: in every state that the server reaches, each of its
  -- coordinators has a run of steps of its own, and of its timeout if it still gathers answers, that
  -- brings it to its end whatever the other goroutines have left, and none of the steps waits, panics
  -- or blocks.
  pub Reached-ended :
      (s : System) (c : Coord)
      → Reached grow grow_fits fl s
      → get_elem? s.coords k ≡ some c
      → (actions : List CoordAction) × (s' : System) × (c' : Coord) × (run_steps grow fl k actions s
          ≡ stepped s')
        × (get_elem? s'.coords k ≡ some c')
        × (c'.phase ≡ ended)
  Reached-ended s c r at =
      let f = phase_ends c.phase s c at r in (f.actions, f.last, f.coord, f.runs, f.at, f.over)
