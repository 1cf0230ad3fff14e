-- ===== src/System/Handling/Selecting.antt =====
-- The select of a coordinator.
use fp_insis.Prelude.{
  ℕ, ◌+◌, ◌<◌, ◌≡◌, refl, sym, ◌∙◌, subst, Bool, true, false, List, [], ◌∷◌, arith, ltb, length,
  length-set, set, All, nat_eq, ℤ,
}
use fp_insis.Matchmaker.{Engine}
use fp_insis.System.{CoordPhase, gathering, Coord, stepped, decide, gather_one}
use fp_insis.System.Coords.{
  untold, lent, channels_of, Ready, Seated, HandledBy, idles, handles, moved_on, pick,
}

pub decide_lem :
    (now : ℤ) (v : Bool) (accepted : List Bool) (e : Engine) (c : Coord) (p : CoordPhase)
    → Ready e c.room p
    → Seated c
    → untold c.room p ≡ c.room.result_chs
    → lent c.room p ≡ channels_of c.room.players
    → length accepted ≡ length c.room.players
    → HandledBy e c.room p (stepped (decide now v accepted e c))
unfolding decide
decide_lem now true accepted e c p r s u l f =
    handles _ _
      (moved_on e _ c.room p _ r refl refl f (sym u) (rw (sym l) r.lent_distinct) (rw l (λ n h. h)))
      refl (record { seats = s.seats; indices = s.indices })
decide_lem now false accepted e c p r s u l f =
    handles _ _
      (moved_on e e c.room p _ r refl refl f (sym u) (rw (sym l) r.lent_distinct) (rw l (λ n h. h)))
      refl (record { seats = s.seats; indices = s.indices })

pub gather_lem :
    (now : ℤ) (received : ℕ) (accepted : List Bool) (e : Engine) (c : Coord)
    → Ready e c.room (gathering received accepted)
    → Seated c
    → HandledBy e c.room (gathering received accepted) (gather_one now received accepted e c)
unfolding gather_one
gather_lem now received accepted e c r s = go c.fan_in refl
  where
    go :
        (l : List (ℕ × Bool))
        → c.fan_in ≡ l
        → HandledBy e c.room (gathering received accepted) (gather_one now received accepted e c)
    go [] q = rw (q, gather_one) idles
    go ((i, answer) ∷ rest) q =
        let p = gathering received accepted in
        let seated : Seated (record c { fan_in = rest }) = record {
          seats = s.seats;
          indices = (subst (All (λ (a : ℕ × Bool). a.0 < length c.room.players)) q s.indices).1;
        } in
        let lt : i < length c.room.players =
          (subst (All (λ (a : ℕ × Bool). a.0 < length c.room.players)) q s.indices).0 in
        let sized : length (set accepted i answer) ≡ length c.room.players =
          length-set accepted i answer ∙ r.flagged in
        let c1 = record c { fan_in = rest } in
        rw (q, gather_one)
          (pick (ltb i (length accepted)) e c.room p _ _
            (λ inside.
              pick answer e c.room p _ _
                (λ yes_said.
                  pick (ltb (received + 1) (length c.room.players)) e c.room p _ _
                    (λ more.
                      handles e _
                        (moved_on e e c.room p _ r refl refl sized refl r.lent_distinct (λ n h. h))
                        refl (record { seats = seated.seats; indices = seated.indices }))
                    (λ all. decide_lem now true _ e c1 p r seated refl refl sized))
                (λ no_said. decide_lem now false _ e c1 p r seated refl refl sized))
            (λ outside. absurd (ground (arith, r.flagged))))
