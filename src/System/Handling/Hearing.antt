-- ===== src/System/Handling/Hearing.antt =====
-- The fan-in goroutines of a coordinator.
use fp_insis.Prelude.{
  ℕ, ◌<◌, ◌≡◌, refl, sym, ◌∙◌, ◌≢◌, inl, inr, Bool, false, some, [], ◌∷◌, arith, length, get,
  get_elem?, get_elem?-in_range, All-append, nat_eq, Option-cases,
}
use fp_insis.Chan.{Chans, recv, recv_cases, recv_rest, taken, SameShape}
use fp_insis.Coordinator.Verdict.{fresh_chan}
use fp_insis.Matchmaker.{Engine}
use fp_insis.System.{CoordPhase, Coord, stepped, is_listed, pass_on, listen}
use fp_insis.System.Coords.{Ready, Seated, HandledBy, idles, handles, moved_on, pick}

fresh_blocks :
    (c : ℕ) (h g : Chans Bool) (a : Bool) → recv c h ≡ taken a g → get c h.cells ≢ some fresh_chan
unfolding recv
fresh_blocks c h g a e f = ground arith

-- Nothing but the queue of answers changes.
pub passes_on :
    (e : Engine) (c : Coord) (p : CoordPhase) (i : ℕ) (answer : Bool)
    → Ready e c.room p
    → c.phase ≡ p
    → Seated c
    → i < length c.room.response_chs
    → HandledBy e c.room p (stepped (e, pass_on i answer c))
passes_on e c p i answer r same s lt =
    handles e _
      (rw same (moved_on e e c.room p p r refl refl r.flagged refl r.lent_distinct (λ n h. h))) refl
      (record {
        seats = s.seats;
        indices =
            All-append (λ (a : ℕ × Bool). a.0 < length c.room.players) c.fan_in ((i, answer) ∷ [])
              s.indices (omega (arith, s.seats), tt);
      })

-- An answer taken from a response channel leaves the fresh channels and the open ones.
heard_lem :
    (e : Engine) (c : Coord) (p : CoordPhase) (i ch : ℕ) (answer : Bool) (g : Chans Bool)
    → Ready e c.room p
    → c.phase ≡ p
    → Seated c
    → i < length c.room.response_chs
    → recv ch e.bools ≡ taken answer g
    → SameShape e.bools g
    → HandledBy e c.room p (stepped (record e { bools = g }, pass_on i answer c))
heard_lem e c p i ch answer g r same s lt took x =
    handles _ _
      (rw same (record {
        safe = r.safe;
        unmade = λ n le. x.none_as n (r.unmade n (omega (arith, x.next)));
        flagged = r.flagged;
        untold_distinct = r.untold_distinct;
        lent_distinct = r.lent_distinct;
        untold_within = λ n h. h;
        lent_within = λ n h. h;
        chans = refl;
        fresh = λ n k f.
            (recv_rest ch e.bools g answer took).0 n
              (λ at_ch. fresh_blocks ch e.bools g answer took (rw (sym at_ch) f))
            ∙ f;
        free = λ n k f. f;
        opened = λ n k o. x.open_as n ∙ o;
      }))
      refl
      (record {
        seats = s.seats;
        indices =
            All-append (λ (a : ℕ × Bool). a.0 < length c.room.players) c.fan_in ((i, answer) ∷ [])
              s.indices (omega (arith, s.seats), tt);
      })

pub listen_lem :
    (e : Engine) (c : Coord) (p : CoordPhase) (i : ℕ)
    → Ready e c.room p
    → c.phase ≡ p
    → Seated c
    → HandledBy e c.room p (listen i e c)
unfolding listen
listen_lem e c p i r same s = elim (Option-cases (get_elem? c.room.response_chs i)) [
  | inl n ↦ rw (n, listen) idles
  | inr (ch, at) ↦
      let lt = get_elem?-in_range c.room.response_chs i ch at in
      elim (recv_cases ch e.bools) [
        | inl n ↦
            rw (at, n, listen) (pick (is_listed i c.heard) e c.room p _ _ (λ b. idles) (λ b. idles))
        | inr (inl n) ↦
            rw (at, n, listen)
              (pick (is_listed i c.heard) e c.room p _ _ (λ b. idles)
                (λ b. passes_on e c p i false r same s lt))
        | inr (inr (answer, g, took, x, b)) ↦
            rw (at, took, listen)
              (pick (is_listed i c.heard) e c.room p _ _ (λ b. idles)
                (λ b. heard_lem e c p i ch answer g r same s lt took x))
      ]
]
