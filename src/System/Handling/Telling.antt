-- ===== src/System/Handling/Telling.antt =====
-- The loop over the result channels, and the loop that puts players back.
use fp_insis.Prelude.{
  ℕ, ◌≤◌, ◌≡◌, refl, Bool, true, false, some, List, [], ◌∷◌, arith, get, put, get-put, nat_eq,
  nat_beq, nat_beq_iff, if◌then◌else◌,
}
use fp_insis.Chan.{Chans, Chan, try_send, close}
use fp_insis.Pool.{QueuedPlayer}
use fp_insis.Pool.Channels.{re_enqueue-IsSafe, re_enqueue-Free}
use fp_insis.Coordinator.Verdict.{fresh_chan, told_chan}
use fp_insis.Matchmaker.{Engine}
use fp_insis.System.{telling, putting_back, Coord, tell_one, put_back_one}
use fp_insis.System.Coords.{Ready, Seated, HandledBy, handles, moved_on}

-- A verdict in a fresh result channel: the send does not block and the close does not panic.
tell_fresh :
    (v : Bool) (c : ℕ) (h : Chans Bool)
    → get c h.cells ≡ some fresh_chan
    → (h1 h2 : Chans Bool) × (try_send c v h ≡ some (h1, true))
      × (close c h1 ≡ some h2)
      × (h2.next ≡ h.next)
      × ((d : ℕ) → get d h2.cells ≡ (if nat_beq c d then some (told_chan v) else get d h.cells))
unfolding try_send close
tell_fresh v c h f =
    let held : Chan Bool = record { buffer = v ∷ []; capacity = 1; closed = false } in
    let h1 : Chans Bool = record h { cells = put c held h.cells } in
    (
      h1,
      record h1 { cells = put c (told_chan v) h1.cells },
      ground (arith, get-put c c held h.cells, nat_beq_iff c c),
      ground (arith, get-put c c held h.cells, nat_beq_iff c c),
      refl,
      λ d.
          ground
            (arith, get-put c d held h.cells, get-put c d (told_chan v) h1.cells, nat_beq_iff c d),
    )

pub tell_lem :
    (v : Bool) (left : List ℕ) (accepted : List Bool) (e : Engine) (c : Coord)
    → Ready e c.room (telling v left accepted)
    → Seated c
    → HandledBy e c.room (telling v left accepted) (tell_one v left accepted e c)
unfolding tell_one
tell_lem true [] accepted e c r s =
    handles e _ (moved_on e e c.room _ _ r refl refl tt refl tt (λ n h. absurd (cc))) refl
      (record { seats = s.seats; indices = s.indices })
tell_lem false [] accepted e c r s =
    handles e _ (moved_on e e c.room _ _ r refl refl r.flagged refl r.lent_distinct (λ n h. h)) refl
      (record { seats = s.seats; indices = s.indices })
tell_lem v (ch ∷ chs) accepted e c r s =
    let (h1, h2, sends, closes, next, cells) =
      tell_fresh v ch e.bools (r.fresh ch (ground (arith, nat_beq_iff ch ch))) in
    rw (sends, closes, tell_one)
      (handles _ _
        (record {
          safe = r.safe;
          unmade = λ n le.
              ground
                (arith, cells n, r.unmade n, next, nat_beq_iff ch n, r.fresh ch, nat_beq_iff ch ch);
          flagged = r.flagged;
          untold_distinct = r.untold_distinct.1;
          lent_distinct = r.lent_distinct;
          untold_within = λ n h. ground (arith, nat_beq_iff ch n);
          lent_within = λ n h. h;
          chans = refl;
          fresh = λ n k f. ground (arith, cells n, nat_beq_iff ch n, r.untold_distinct.0, k);
          free = λ n k f. f;
          opened = λ n k o. ground (arith, cells n, nat_beq_iff ch n);
        })
        refl (record { seats = s.seats; indices = s.indices }))

pub put_back_lem :
    (grow : ℕ → ℕ → ℕ) (grow_fits : (c n : ℕ) → n ≤ grow c n) (players : List QueuedPlayer)
    (accepted : List Bool) (e : Engine) (c : Coord)
    → Ready e c.room (putting_back players accepted)
    → Seated c
    → HandledBy e c.room (putting_back players accepted) (put_back_one grow players accepted e c)
unfolding put_back_one
put_back_lem grow grow_fits [] accepted e c r s =
    handles e _ (moved_on e e c.room _ _ r refl refl tt refl tt (λ n h. absurd (cc))) refl
      (record { seats = s.seats; indices = s.indices })
put_back_lem grow grow_fits (q ∷ qs) [] e c r s = absurd (let f = r.flagged in omega arith)
put_back_lem grow grow_fits (q ∷ qs) (false ∷ accepted) e c r s =
    handles _ _
      (moved_on e _ c.room _ _ r refl refl (let f = r.flagged in omega arith) refl r.lent_distinct.1
        (λ n h. ground (arith, nat_beq_iff q.match_ch n)))
      refl (record { seats = s.seats; indices = s.indices })
put_back_lem grow grow_fits (q ∷ qs) (true ∷ accepted) e c r s =
    handles _ _
      (record {
        safe =
            re_enqueue-IsSafe grow grow_fits q e.lobby r.safe
              (r.free q.match_ch (ground (arith, nat_beq_iff q.match_ch q.match_ch)));
        unmade = r.unmade;
        flagged = let f = r.flagged in omega arith;
        untold_distinct = tt;
        lent_distinct = r.lent_distinct.1;
        untold_within = λ n h. h;
        lent_within = λ n h. ground (arith, nat_beq_iff q.match_ch n);
        chans = refl;
        fresh = λ n k f. f;
        free = λ n k f.
            re_enqueue-Free grow grow_fits q e.lobby n f
              (λ same. ground (arith, k, nat_beq_iff q.match_ch n, r.lent_distinct.0));
        opened = λ n k o. o;
      })
      refl (record { seats = s.seats; indices = s.indices })
