-- ===== src/System/Alone/Deadline.antt =====
-- The steps of a coordinator that are its own, and its timeout.
use fp_insis.Prelude.{
  ℕ, ◌+◌, ◌≡◌, refl, inl, inr, Bool, true, false, List, [], ◌∷◌, arith, length, Bool-cases,
  Option-cases, ℤ, ltb, All,
}
use fp_insis.Chan.{try_send, close}
use fp_insis.Pool.{QueuedPlayer}
use fp_insis.Matchmaker.{Engine}
use fp_insis.System.{
  CoordPhase, gathering, telling, putting_back, ended, Coord, CoordAction, hears, gives_up,
  time_passes, gathers, expires, tells, puts_back, Stepped, idle, crashed, stuck, stepped, decide,
  gather_one, tell_one, put_back_one, coord_step,
}
use fp_insis.System.Alone.{run_coord, continue}

-- A step that is not a fan-in goroutine's.
abbrev pub is_own : CoordAction → Bool
is_own (hears i) = false
is_own (gives_up i) = false
is_own time_passes = true
is_own (gathers now) = true
is_own (expires now) = true
is_own tells = true
is_own puts_back = true

abbrev pub Own : List CoordAction → Type 0
Own = All (λ a. is_own a ≡ true)

-- A step leaves the flag set.
abbrev LeavesLate : Stepped (Engine × Coord) → Type 0
LeavesLate idle = Unit {0}
LeavesLate crashed = Unit {0}
LeavesLate stuck = Unit {0}
LeavesLate (stepped (e, c)) = c.timed_out ≡ true

decide_late :
    (now : ℤ) (v : Bool) (flags : List Bool) (e : Engine) (c : Coord)
    → (decide now v flags e c).1.timed_out ≡ c.timed_out
unfolding decide
decide_late now true flags e c = refl
decide_late now false flags e c = refl

gather_late :
    (now : ℤ) (received : ℕ) (accepted : List Bool) (answers : List (ℕ × Bool)) (e : Engine)
    (c : Coord)
    → c.timed_out ≡ true
    → LeavesLate (gather_one now received accepted e (record c { fan_in = answers }))
unfolding gather_one decide
gather_late now received accepted [] e c t = tt
gather_late now received accepted ((i, false) ∷ rest) e c t =
    elim (Bool-cases (ltb i (length accepted))) [
      | inl y ↦ rw (y, gather_one) t
      | inr n ↦ rw (n, gather_one) tt
    ]
gather_late now received accepted ((i, true) ∷ rest) e c t =
    elim (Bool-cases (ltb i (length accepted))) [
      | inl y ↦ elim (Bool-cases (ltb (received + 1) (length c.room.players))) [
        | inl more ↦ rw (y, more, gather_one) t
        | inr done ↦ rw (y, done, gather_one) t
      ]
      | inr n ↦ rw (n, gather_one) tt
    ]

tell_late :
    (v : Bool) (left : List ℕ) (accepted : List Bool) (e : Engine) (c : Coord)
    → c.timed_out ≡ true
    → LeavesLate (tell_one v left accepted e c)
unfolding tell_one
tell_late true [] accepted e c t = t
tell_late false [] accepted e c t = t
tell_late v (ch ∷ chs) accepted e c t = elim (Option-cases (try_send ch v e.bools)) [
  | inl n ↦ rw (n, tell_one) tt
  | inr ((h1, false), s) ↦ rw (s, tell_one) tt
  | inr ((h1, true), s) ↦ elim (Option-cases (close ch h1)) [
    | inl n ↦ rw (s, n, tell_one) tt
    | inr (h2, k) ↦ rw (s, k, tell_one) t
  ]
]

put_back_late :
    (grow : ℕ → ℕ → ℕ) (players : List QueuedPlayer) (accepted : List Bool) (e : Engine) (c : Coord)
    → c.timed_out ≡ true
    → LeavesLate (put_back_one grow players accepted e c)
unfolding put_back_one
put_back_late grow [] accepted e c t = t
put_back_late grow (q ∷ qs) [] e c t = tt
put_back_late grow (q ∷ qs) (a ∷ accepted) e c t = t

module _ (grow : ℕ → ℕ → ℕ) where
  step_late :
      (a : CoordAction) (p : CoordPhase) (e : Engine) (c : Coord)
      → is_own a ≡ true
      → c.timed_out ≡ true
      → LeavesLate (coord_step grow a e (record c { phase = p }))
  unfolding coord_step decide
  step_late (hears i) p e c own t = absurd (ground (arith, own))
  step_late (gives_up i) p e c own t = absurd (ground (arith, own))
  step_late time_passes p e c own t = refl
  step_late (gathers now) (gathering received accepted) e c own t =
      gather_late now received accepted c.fan_in e
        (record c { phase = gathering received accepted }) t
  step_late (gathers now) (telling v left accepted) e c own t = tt
  step_late (gathers now) (putting_back players accepted) e c own t = tt
  step_late (gathers now) ended e c own t = tt
  step_late (expires now) (gathering received accepted) e c own t = rw (t, coord_step) refl
  step_late (expires now) (telling v left accepted) e c own t = tt
  step_late (expires now) (putting_back players accepted) e c own t = tt
  step_late (expires now) ended e c own t = tt
  step_late tells (gathering received accepted) e c own t = tt
  step_late tells (telling v left accepted) e c own t =
      tell_late v left accepted e (record c { phase = telling v left accepted }) t
  step_late tells (putting_back players accepted) e c own t = tt
  step_late tells ended e c own t = tt
  step_late puts_back (gathering received accepted) e c own t = tt
  step_late puts_back (telling v left accepted) e c own t = tt
  step_late puts_back (putting_back players accepted) e c own t =
      put_back_late grow players accepted e (record c { phase = putting_back players accepted }) t
  step_late puts_back ended e c own t = tt

  late_through :
      (r : Stepped (Engine × Coord)) (f : Engine → Coord → Stepped (Engine × Coord)) (e' : Engine)
      (c' : Coord)
      → LeavesLate r
      → continue r f ≡ stepped (e', c')
      → ((e : Engine) (c : Coord)
          → c.timed_out ≡ true
          → f e c ≡ stepped (e', c')
          → c'.timed_out ≡ true)
      → c'.timed_out ≡ true
  late_through idle f e' c' l h k = absurd (ground arith)
  late_through crashed f e' c' l h k = absurd (ground arith)
  late_through stuck f e' c' l h k = absurd (ground arith)
  late_through (stepped (e, c)) f e' c' l h k = k e c l h

  pub stays_late :
      (as_ : List CoordAction) (e e' : Engine) (c c' : Coord)
      → Own as_
      → c.timed_out ≡ true
      → run_coord grow as_ e c ≡ stepped (e', c')
      → c'.timed_out ≡ true
  unfolding run_coord
  stays_late [] e e' c c' own t h = ground arith
  stays_late (a ∷ as_) e e' c c' own t h =
      late_through (coord_step grow a e c) _ e' c' (step_late a c.phase e c own.0 t) h
        (λ e1 c1 t1 h1. stays_late as_ e1 e' c1 c' own.1 t1 h1)
