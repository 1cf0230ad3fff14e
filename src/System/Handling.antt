-- ===== src/System/Handling.antt =====
-- Each kind of step of a coordinator.
mod Hearing
mod Selecting
mod Telling
use fp_insis.Prelude.{
  ℕ, ◌+◌, ◌≤◌, ◌<◌, ◌≡◌, refl, sym, ◌∙◌, subst, ◌≢◌, inl, inr, Bool, true, false, not, ◌&&◌, ◌||◌,
  some, List, [], ◌∷◌, arith, ltb, length, length-set, set, get, put, get-put, get_elem?,
  get_elem?-in_range, All, All-append, nat_eq, nat_beq, nat_beq_iff, if◌then◌else◌, Option-cases, ℤ,
}
use fp_insis.Chan.{Chans, Chan, recv, recv_cases, recv_rest, taken, try_send, close, SameShape}
use fp_insis.Pool.{QueuedPlayer}
use fp_insis.Pool.Channels.{re_enqueue-IsSafe, re_enqueue-Free}
use fp_insis.Coordinator.Verdict.{fresh_chan, told_chan, NumbersDistinct}
use fp_insis.Matchmaker.{Room, Engine}
use fp_insis.System.{
  CoordPhase, gathering, telling, putting_back, ended, Coord, Stepped, stepped, is_listed,
  CoordAction, hears, gives_up, time_passes, gathers, expires, tells, puts_back, is_gathering,
  pass_on, listen, decide, gather_one, tell_one, put_back_one, coord_step,
}
use fp_insis.System.Apart.{Within}
use fp_insis.System.Coords.{
  untold, lent, channels_of, Flagged, Ready, Handled, Seated, HandledBy, idles, handles, moved_on,
  pick,
}
use fp_insis.System.Handling.Hearing.{passes_on, listen_lem}
use fp_insis.System.Handling.Selecting.{decide_lem, gather_lem}
use fp_insis.System.Handling.Telling.{tell_lem, put_back_lem}

module _ (grow : ℕ → ℕ → ℕ) (grow_fits : (c n : ℕ) → n ≤ grow c n) (e : Engine) (c : Coord) where
  kept : (p : CoordPhase) → Ready e c.room p → Handled e c.room p e p
  kept p r = moved_on e e c.room p p r refl refl r.flagged refl r.lent_distinct (λ n h. h)

  gives_up_lem :
      (p : CoordPhase) (i : ℕ)
      → c.phase ≡ p
      → Ready e c.room p
      → Seated c
      → HandledBy e c.room p (coord_step grow (gives_up i) e c)
  unfolding coord_step
  gives_up_lem p i same r s =
      pick
        (not (is_listed i c.heard)
          && ltb i (length c.room.response_chs)
          && (c.timed_out || not (is_gathering c.phase)))
        e c.room p _ _ (λ go. passes_on e c p i false r same s (ground arith)) (λ no_go. idles)

  -- A step of a coordinator, in whatever phase.
  pub coord_step_lem :
      (a : CoordAction) (p : CoordPhase)
      → c.phase ≡ p
      → Ready e c.room p
      → Seated c
      → HandledBy e c.room p (coord_step grow a e c)
  unfolding coord_step
  coord_step_lem (hears i) p same r s = listen_lem e c p i r same s
  coord_step_lem (gives_up i) p same r s = gives_up_lem p i same r s
  coord_step_lem time_passes p same r s =
      handles e _ (rw same (kept p r)) refl (record { seats = s.seats; indices = s.indices })
  coord_step_lem (gathers now) (gathering received accepted) same r s =
      rw (same, coord_step) (gather_lem now received accepted e c r s)
  coord_step_lem (expires now) (gathering received accepted) same r s =
      rw (same, coord_step)
        (pick c.timed_out e c.room _ _ _
          (λ late. decide_lem now false accepted e c _ r s refl refl r.flagged) (λ early. idles))
  coord_step_lem tells (telling v left accepted) same r s =
      rw (same, coord_step) (tell_lem v left accepted e c r s)
  coord_step_lem puts_back (putting_back players accepted) same r s =
      rw (same, coord_step) (put_back_lem grow grow_fits players accepted e c r s)
  coord_step_lem (gathers now) (telling v left accepted) same r s = rw (same, coord_step) idles
  coord_step_lem (gathers now) (putting_back qs accepted) same r s = rw (same, coord_step) idles
  coord_step_lem (gathers now) ended same r s = rw (same, coord_step) idles
  coord_step_lem (expires now) (telling v left accepted) same r s = rw (same, coord_step) idles
  coord_step_lem (expires now) (putting_back qs accepted) same r s = rw (same, coord_step) idles
  coord_step_lem (expires now) ended same r s = rw (same, coord_step) idles
  coord_step_lem tells (gathering received accepted) same r s = rw (same, coord_step) idles
  coord_step_lem tells (putting_back qs accepted) same r s = rw (same, coord_step) idles
  coord_step_lem tells ended same r s = rw (same, coord_step) idles
  coord_step_lem puts_back (gathering received accepted) same r s = rw (same, coord_step) idles
  coord_step_lem puts_back (telling v left accepted) same r s = rw (same, coord_step) idles
  coord_step_lem puts_back ended same r s = rw (same, coord_step) idles
