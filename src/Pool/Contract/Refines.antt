-- ===== src/Pool/Contract/Refines.antt =====
-- The methods of internal/state/pool.go keep the promises, in every run of them.
use fp_insis.Prelude.{
  ℕ, ◌≤◌, ◌≡◌, refl, subst, inl, inr, Option, none, some, List, [], ◌∷◌, ◌++◌, String, arith, get,
  get_elem?, get-put, if◌then◌else◌, string_eq, ℤ, Bool-cases, Option-cases,
}
use fp_insis.Chan.{make_chan}
use fp_insis.Runtime.{Floats}
use fp_insis.Pool.{QueuedPlayer, Pool, Lobby, contains, enqueue, re_enqueue, add_player, has_id}
use fp_insis.Pool.Invariant.{IsValid}
use fp_insis.Pool.Queueing.{IsSafe, enqueue-IsSafe, dequeue_lem}
use fp_insis.Pool.Channels.{enqueue-Free, dequeue-Free, re_enqueue-IsSafe, re_enqueue-Free}
use fp_insis.Pool.Extract.{Env, extract_match}
use fp_insis.Pool.Extract.Match.{extract_some, extract_none}
use fp_insis.Pool.Contract.{
  Queue, view, Event, enqueues, puts_back, dequeues, asks, counts, draws, is_some, Allows, Follows,
  Call, enqueue_call, put_back_drawn, dequeue_call, ask_call, count_call, draw_call, Desk,
  remove_elem, drawn_of, perform, perform_all,
}
use fp_insis.Pool.Contract.Aside.{Aside, Aside-map, Aside-others, Aside-pick, drawn-Aside}
use fp_insis.Pool.Contract.Crowd.{
  length-listed, draw_none, listed, find_id-listed, listed-IdsDistinct,
}

-- The lobby is in good order, and the drawn players have free channels of their own.
pub record IsTended (d : Desk) : Type 0 where
  pub safe : IsSafe d.lobby
  pub aside : Aside d.lobby d.drawn

-- What a call on `d` may do: not panic, keep the desk tended, and follow the promises.
abbrev pub Kept : Desk → Option (Desk × List Event) → Type 0
Kept d none = ⊥
Kept d (some (d', es)) = IsTended d' × Follows (view d.lobby.pool) es (view d'.lobby.pool)

-- One event that is allowed is a run.
one :
    (d d' : Desk) (e : Event)
    → IsTended d'
    → Allows (view d.lobby.pool) e (view d'.lobby.pool)
    → Kept d (some (d', e ∷ []))
one d d' e t a = (t, (view d'.lobby.pool, a, λ j. refl))

result :
    (d : Desk) (o : Option (Desk × List Event))
    → Kept d o
    → (d' : Desk) × (es : List Event) × (o ≡ some (d', es))
      × IsTended d'
      × Follows (view d.lobby.pool) es (view d'.lobby.pool)
result d none k = elim k [ ]
result d (some (d', es)) (t, f) = (d', es, refl, t, f)

-- Taking players out keeps the lobby in good order.
left-IsSafe :
    (l : Lobby) (p : Pool) (sel : List QueuedPlayer)
    → IsSafe l
    → IsValid p
    → ((j : String) → get j p.players ≡ (if has_id j sel then none else get j l.pool.players))
    → IsSafe (record l { pool = p })
left-IsSafe l p sel s v left = record {
  valid = v;
  open_chs = λ j q h. s.open_chs j q (ground (arith, left j));
  apart = λ i j q r h k. s.apart i j q r (ground (arith, left i)) (ground (arith, left j));
  unmade = s.unmade;
}

module _ (grow : ℕ → ℕ → ℕ) (grow_fits : (c n : ℕ) → n ≤ grow c n) (fl : Floats) where
  enqueue_allowed :
      (now : ℤ) (id name : String) (mmr : ℤ) (l : Lobby)
      → let (l', r) = enqueue grow now id name mmr l in
        Allows (view l.pool) (enqueues now id name mmr r) (view l'.pool)
  unfolding enqueue add_player
  enqueue_allowed now id name mmr l = elim (Bool-cases (contains id l.pool)) [
    | inl old ↦ rw old (λ n. ground arith, refl, λ j. refl)
    | inr new ↦ rw new (
      ground arith,
      refl,
      refl,
      refl,
      refl,
      λ j.
          get-put id j
            (record {
              player_id = id;
              display_name = name;
              mmr = mmr;
              enqueued_at = now;
              match_ch = (make_chan 1 l.chans).1;
            })
            l.pool.players,
    )
  ]

  put_back_allowed :
      (qp : QueuedPlayer) (p : Pool)
      → let (p', e) = re_enqueue grow qp p in Allows (view p) (puts_back qp e) (view p')
  unfolding re_enqueue add_player
  put_back_allowed qp p = elim (Bool-cases (contains qp.player_id p)) [
    | inl old ↦ rw old (λ n. ground arith, refl, λ j. refl)
    | inr new ↦ rw new (ground arith, λ j. get-put qp.player_id j qp p.players)
  ]

  found_is_some : (id : String) (p : Pool) → contains id p ≡ is_some (view p id)
  found_is_some id p = ground arith

  enqueue-Kept :
      (now : ℤ) (id name : String) (mmr : ℤ) (d : Desk)
      → IsTended d
      → Kept d (perform grow fl (enqueue_call now id name mmr) d)
  unfolding perform
  enqueue-Kept now id name mmr d t =
      one d _ (enqueues now id name mmr _)
        (record {
          safe = enqueue-IsSafe grow grow_fits now id name mmr d.lobby t.safe;
          aside =
              Aside-map d.lobby _ d.drawn
                (λ c f. enqueue-Free grow grow_fits now id name mmr d.lobby c t.safe f) t.aside;
        })
        (enqueue_allowed now id name mmr d.lobby)

  put_back-Kept : (i : ℕ) (d : Desk) → IsTended d → Kept d (perform grow fl (put_back_drawn i) d)
  unfolding perform
  put_back-Kept i d t = elim (Option-cases (get_elem? d.drawn i)) [
    | inl n ↦ rw (n, perform) (t, λ j. refl)
    | inr (qp, e) ↦
        let (f, others, rest) = Aside-pick d.lobby i qp d.drawn e t.aside in
        rw (e, perform)
          (one d _ (puts_back qp (re_enqueue grow qp d.lobby.pool).1)
            (record {
              safe = re_enqueue-IsSafe grow grow_fits qp d.lobby t.safe f;
              aside =
                  Aside-others d.lobby _ qp.match_ch (remove_elem i d.drawn)
                    (λ c g ne. re_enqueue-Free grow grow_fits qp d.lobby c g ne) others rest;
            })
            (put_back_allowed qp d.lobby.pool))
  ]

  dequeue-Kept :
      (id : String) (d : Desk) → IsTended d → Kept d (perform grow fl (dequeue_call id) d)
  unfolding perform
  dequeue-Kept id d t =
      let (l', e, safe, g) = dequeue_lem id d.lobby t.safe in
      rw (e, perform)
        (one d _ (dequeues id (contains id d.lobby.pool))
          (record {
            safe = safe;
            aside =
                Aside-map d.lobby l' d.drawn (λ c f. dequeue-Free id d.lobby l' _ c t.safe e f)
                  t.aside;
          })
          (found_is_some id d.lobby.pool, g))

  count-Kept : (d : Desk) → IsTended d → Kept d (perform grow fl count_call d)
  unfolding perform
  count-Kept d t =
      let v = t.safe.valid in
      let players = d.lobby.pool.players in
      one d _ (counts _) t (
        listed players,
        length-listed players,
        listed-IdsDistinct players v.players_distinct v.keyed,
        find_id-listed players v.players_distinct v.keyed,
        λ j. refl,
      )

  drawn-Kept :
      (env : Env) (d : Desk) (p : Pool) (o : Option (List QueuedPlayer))
      → IsTended d
      → extract_match fl env d.lobby.pool ≡ (p, o)
      → Kept d (
          some (
            record { lobby = record d.lobby { pool = p }; drawn = drawn_of o ++ d.drawn },
            draws o ∷ [],
          ))
  drawn-Kept env d p none t e =
      let same = extract_none fl env d.lobby.pool t.safe.valid p e in
      rw same (
        one d d (draws none) t
          (λ k l x y. draw_none fl env d.lobby.pool p k l t.safe.valid e x y, λ j. refl))
  drawn-Kept env d p (some sel) t e =
      let (m, valid, sized, left) = extract_some fl env d.lobby.pool t.safe.valid p sel e in
      one d _ (draws (some sel))
        (record {
          safe = left-IsSafe d.lobby p sel t.safe valid left;
          aside = drawn-Aside d.lobby t.safe p sel left d.drawn m.distinct m.queued t.aside;
        })
        (m.full, m.distinct, m.sorted, m.queued, left)

  draw-Kept : (env : Env) (d : Desk) → IsTended d → Kept d (perform grow fl (draw_call env) d)
  unfolding perform
  draw-Kept env d t = drawn-Kept env d _ _ t refl

  perform-Kept : (c : Call) (d : Desk) → IsTended d → Kept d (perform grow fl c d)
  perform-Kept (enqueue_call now id name mmr) d t = enqueue-Kept now id name mmr d t
  perform-Kept (put_back_drawn i) d t = put_back-Kept i d t
  perform-Kept (dequeue_call id) d t = dequeue-Kept id d t
  perform-Kept (ask_call id) d t =
      unfold perform in
      one d _ (asks id (contains id d.lobby.pool)) t (found_is_some id d.lobby.pool, λ j. refl)
  perform-Kept count_call d t = count-Kept d t
  perform-Kept (draw_call env) d t = draw-Kept env d t

  Follows-append :
      (q m r : Queue) (es fs : List Event)
      → Follows q es m
      → Follows m fs r
      → Follows q (es ++ fs) r
  Follows-append q m r [] fs a b = subst (λ x. Follows x fs r) (λ i j. a j i) b
  Follows-append q m r (e ∷ es) fs (n, x, y) b = (n, x, Follows-append n m r es fs y b)

  steps :
      (c : Call) (cs : List Call) (d d1 d2 : Desk) (es fs : List Event)
      → perform grow fl c d ≡ some (d1, es)
      → perform_all grow fl cs d1 ≡ some (d2, fs)
      → perform_all grow fl (c ∷ cs) d ≡ some (d2, es ++ fs)
  unfolding perform_all
  steps c cs d d1 d2 es fs e e2 = rw (e, e2, perform_all) refl

  -- From a desk in good order, whatever calls are made, no call panics, the desk is in good order at
  -- the end, and what the calls returned is a run of the abstract queue, from the players queued at
  -- the start to those queued at the end.
  pub perform_all-Follows :
      (calls : List Call) (d : Desk)
      → IsTended d
      → (d' : Desk) × (es : List Event) × (perform_all grow fl calls d ≡ some (d', es))
        × IsTended d'
        × Follows (view d.lobby.pool) es (view d'.lobby.pool)
  unfolding perform_all
  perform_all-Follows [] d t = (d, [], refl, t, λ j. refl)
  perform_all-Follows (c ∷ cs) d t =
      let (d1, es, e, t1, f) = result d (perform grow fl c d) (perform-Kept c d t) in
      let (d2, fs, e2, t2, f2) = perform_all-Follows cs d1 t1 in
      (d2, es ++ fs, steps c cs d d1 d2 es fs e e2, t2, Follows-append _ _ _ es fs f f2)
