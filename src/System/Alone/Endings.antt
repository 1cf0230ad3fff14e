-- ===== src/System/Alone/Endings.antt =====
-- A coordinator alone that comes to its end, from each place where it can stand after its select.
use fp_insis.Prelude.{
  ℕ, ◌≡◌, refl, ap, sym, ◌∙◌, inl, inr, Bool, true, false, some, List, [], ◌∷◌, arith, Option-cases,
  ℤ,
}
use fp_insis.Chan.{Chans, try_send, close}
use fp_insis.Session.{create_session}
use fp_insis.Pool.{QueuedPlayer}
use fp_insis.Coordinator.{announce, requeue, ids_of, Shared, verdict}
use fp_insis.Matchmaker.{Room, Engine}
use fp_insis.System.{
  telling, putting_back, ended, Coord, CoordAction, hears, gives_up, time_passes, gathers, expires,
  tells, puts_back, stepped, decide, tell_one, put_back_one, coord_step,
}
use fp_insis.System.Alone.{shared_of, run_coord, with_shared, continue}
use fp_insis.System.Alone.Deadline.{Own}

module _ (grow : ℕ → ℕ → ℕ) (e' : Engine) (c' : Coord) where
  ended_stays :
      (as_ : List CoordAction) (e : Engine) (c : Coord)
      → Own as_
      → run_coord grow as_ e (record c { phase = ended }) ≡ stepped (e', c')
      → e' ≡ e
  unfolding run_coord coord_step
  ended_stays [] e c own h = ground arith
  ended_stays (hears i ∷ as_) e c own h = absurd (ground (arith, own.0))
  ended_stays (gives_up i ∷ as_) e c own h = absurd (ground (arith, own.0))
  ended_stays (time_passes ∷ as_) e c own h =
      ended_stays as_ e (record c { timed_out = true }) own.1 h
  ended_stays (gathers now ∷ as_) e c own h = absurd (ground arith)
  ended_stays (expires now ∷ as_) e c own h = absurd (ground arith)
  ended_stays (tells ∷ as_) e c own h = absurd (ground arith)
  ended_stays (puts_back ∷ as_) e c own h = absurd (ground arith)

  puts_end :
      (as_ : List CoordAction) (players : List QueuedPlayer) (accepted : List Bool) (e : Engine)
      (c : Coord)
      → c'.phase ≡ ended
      → Own as_
      → run_coord grow as_ e (record c { phase = putting_back players accepted }) ≡ stepped (e', c')
      → e'
        ≡ record e { lobby = record e.lobby { pool = requeue grow players accepted e.lobby.pool } }
  unfolding run_coord coord_step put_back_one requeue
  puts_end [] players accepted e c fin own h = absurd (ground arith)
  puts_end (hears i ∷ as_) players accepted e c fin own h = absurd (ground (arith, own.0))
  puts_end (gives_up i ∷ as_) players accepted e c fin own h = absurd (ground (arith, own.0))
  puts_end (time_passes ∷ as_) players accepted e c fin own h =
      puts_end as_ players accepted e (record c { timed_out = true }) fin own.1 h
  puts_end (gathers now ∷ as_) players accepted e c fin own h = absurd (ground arith)
  puts_end (expires now ∷ as_) players accepted e c fin own h = absurd (ground arith)
  puts_end (tells ∷ as_) players accepted e c fin own h = absurd (ground arith)
  puts_end (puts_back ∷ as_) [] accepted e c fin own h = ended_stays as_ e c own.1 h
  puts_end (puts_back ∷ as_) (q ∷ qs) [] e c fin own h = absurd (ground arith)
  puts_end (puts_back ∷ as_) (q ∷ qs) (a ∷ accepted) e c fin own h =
      puts_end as_ qs accepted _ c fin own.1 h

  -- What is left to do with the players once each result channel is told.
  abbrev after_telling : Bool → List Bool → Room → Chans Bool → Engine → Engine
  after_telling true accepted room g e = record e { bools = g }
  after_telling false accepted room g e = record e {
    bools = g;
    lobby = record e.lobby { pool = requeue grow room.players accepted e.lobby.pool };
  }

  told_end :
      (v : Bool) (as_ : List CoordAction) (accepted : List Bool) (e : Engine) (c : Coord)
      → c'.phase ≡ ended
      → Own as_
      → continue (tell_one v [] accepted e c) (λ e1 c1. run_coord grow as_ e1 c1) ≡ stepped (e', c')
      → e' ≡ after_telling v accepted c.room e.bools e
  unfolding tell_one
  told_end true as_ accepted e c fin own h = ended_stays as_ e c own h
  told_end false as_ accepted e c fin own h = puts_end as_ c.room.players accepted e c fin own h

  after_told :
      (v : Bool) (accepted : List Bool) (room : Room) (g h : Chans Bool) (e : Engine)
      → after_telling v accepted room g (record e { bools = h }) ≡ after_telling v accepted room g e
  after_told true accepted room g h e = refl
  after_told false accepted room g h e = refl

  told_one :
      (v : Bool) (ch : ℕ) (chs : List ℕ) (accepted : List Bool) (e : Engine) (c : Coord)
      (h1 h2 : Chans Bool)
      → try_send ch v e.bools ≡ some (h1, true)
      → close ch h1 ≡ some h2
      → tell_one v (ch ∷ chs) accepted e c
        ≡ stepped (record e { bools = h2 }, record c { phase = telling v chs accepted })
  unfolding tell_one
  told_one v ch chs accepted e c h1 h2 s k = rw (s, k, tell_one) refl

  tells_end :
      (v : Bool) (as_ : List CoordAction) (left : List ℕ) (accepted : List Bool) (e : Engine)
      (c : Coord)
      → c'.phase ≡ ended
      → Own as_
      → run_coord grow as_ e (record c { phase = telling v left accepted }) ≡ stepped (e', c')
      → (g : Chans Bool) × (announce v left e.bools ≡ some g)
        × (e' ≡ after_telling v accepted c.room g e)
  unfolding run_coord coord_step announce tell_one
  tells_end v [] left accepted e c fin own h = absurd (ground arith)
  tells_end v (hears i ∷ as_) left accepted e c fin own h = absurd (ground (arith, own.0))
  tells_end v (gives_up i ∷ as_) left accepted e c fin own h = absurd (ground (arith, own.0))
  tells_end v (time_passes ∷ as_) left accepted e c fin own h =
      tells_end v as_ left accepted e (record c { timed_out = true }) fin own.1 h
  tells_end v (gathers now ∷ as_) left accepted e c fin own h = absurd (ground arith)
  tells_end v (expires now ∷ as_) left accepted e c fin own h = absurd (ground arith)
  tells_end v (puts_back ∷ as_) left accepted e c fin own h = absurd (ground arith)
  tells_end v (tells ∷ as_) [] accepted e c fin own h = (
    e.bools,
    refl,
    told_end v as_ accepted e (record c { phase = telling v [] accepted }) fin own.1 h,
  )
  tells_end v (tells ∷ as_) (ch ∷ chs) accepted e c fin own h =
      elim (Option-cases (try_send ch v e.bools)) [
        | inl n ↦ absurd (ground arith)
        | inr ((h1, false), s) ↦ absurd (ground arith)
        | inr ((h1, true), s) ↦ elim (Option-cases (close ch h1)) [
          | inl n ↦ absurd (ground arith)
          | inr (h2, k) ↦
              let goes_on =
                told_one v ch chs accepted e (record c { phase = telling v (ch ∷ chs) accepted }) h1
                  h2 s k in
              let (g, told, left) =
                tells_end v as_ chs accepted (record e { bools = h2 }) c fin own.1
                  (sym (ap (λ x. continue x (λ e1 c1. run_coord grow as_ e1 c1)) goes_on) ∙ h) in
              (g, rw (s, k, announce) told, left ∙ after_told v accepted c.room g h2 e)
        ]
      ]

  pub decided_end :
      (now : ℤ) (v : Bool) (as_ : List CoordAction) (flags : List Bool) (e : Engine) (c : Coord)
      → c'.phase ≡ ended
      → Own as_
      → run_coord grow as_ (decide now v flags e c).0 (decide now v flags e c).1 ≡ stepped (e', c')
      → (s' : Shared) × (verdict grow now c.room.session_id c.room.players c.room.result_chs flags v
            (shared_of e)
          ≡ some s')
        × (e' ≡ with_shared s' e)
  unfolding decide verdict
  decided_end now true as_ flags e c fin own h =
      let created = create_session now c.room.session_id (ids_of c.room.players) e.sessions in
      let (g, told, left) =
        tells_end true as_ c.room.result_chs flags (record e { sessions = created }) c fin own h in
      (record { pool = e.lobby.pool; sessions = created; bools = g }, rw (told, verdict) refl, left)
  decided_end now false as_ flags e c fin own h =
      let (g, told, left) = tells_end false as_ c.room.result_chs flags e c fin own h in
      (
        record {
          pool = requeue grow c.room.players flags e.lobby.pool;
          sessions = e.sessions;
          bools = g;
        },
        rw (told, verdict) refl,
        left,
      )
