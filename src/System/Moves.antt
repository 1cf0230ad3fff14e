-- ===== src/System/Moves.antt =====
-- What a step of a stream leaves as it was for the others: free channels, the events in the players'
-- channels, the open ready-check channels, and those that hold no verdict yet.
use fp_insis.Prelude.{
  ℕ, ◌≡◌, refl, ap, sym, ◌∙◌, subst, ◌≢◌, inl, inr, Bool, true, false, Option, none, some, [],
  arith, get, All, String, nat_eq, string_eq, nat_beq, nat_beq_iff, Bool-cases, Option-cases,
}
use fp_insis.Chan.{
  Chans, Chan, is_open, buffer_of, SameShape, recv, taken, recv_rest, try_send, try_send_rest,
  close, close-buffer_of,
}
use fp_insis.Pool.{Lobby, MatchEvent, dequeue}
use fp_insis.Pool.Queueing.{IsSafe}
use fp_insis.Pool.Channels.{Free, dequeue-Free}
use fp_insis.Coordinator.Verdict.{fresh_chan}
use fp_insis.Gateway.{World}

-- An event whose response channel is open, and is none of the result channels in `held`.
pub record Good (held : ℕ → Bool) (h : Chans Bool) (evt : MatchEvent) : Type 0 where
  pub opened : is_open evt.response_ch h ≡ true
  pub other : held evt.response_ch ≡ false

pub record Moves (held : ℕ → Bool) (w w' : World) : Type 1 where
  pub free : (c : ℕ) → Free w.lobby c → Free w'.lobby c
  pub events :
      (P : MatchEvent → Type 0) (c : ℕ)
      → All P (buffer_of c w.lobby.chans)
      → All P (buffer_of c w'.lobby.chans)
  pub shape : SameShape w.bools w'.bools
  pub fresh :
      (c : ℕ)
      → held c ≡ true
      → get c w.bools.cells ≡ some fresh_chan
      → get c w'.bools.cells ≡ some fresh_chan

module _ (held : ℕ → Bool) where
  pub Moves-refl : (w : World) → Moves held w w
  Moves-refl w = record {
    free = λ c f. f;
    events = λ P c h. h;
    shape = record { next = refl; open_as = λ d. refl; none_as = λ d n. n };
    fresh = λ c h f. f;
  }

  pub Moves-trans : (a b c : World) → Moves held a b → Moves held b c → Moves held a c
  Moves-trans a b c x y = record {
    free = λ d f. y.free d (x.free d f);
    events = λ P d h. y.events P d (x.events P d h);
    shape = record {
      next = y.shape.next ∙ x.shape.next;
      open_as = λ d. y.shape.open_as d ∙ x.shape.open_as d;
      none_as = λ d n. y.shape.none_as d (x.shape.none_as d n);
    };
    fresh = λ d h f. y.fresh d h (x.fresh d h f);
  }

  pub Moves-Good :
      (w w' : World) (evt : MatchEvent)
      → Moves held w w'
      → Good held w.bools evt
      → Good held w'.bools evt
  Moves-Good w w' evt m g = record {
    opened = m.shape.open_as evt.response_ch ∙ g.opened;
    other = g.other;
  }

  -- A change of the ready-check channels only, at one that is not held.
  touches :
      (w : World) (g : Chans Bool) (c : ℕ)
      → SameShape w.bools g
      → ((d : ℕ) → d ≢ c → get d g.cells ≡ get d w.bools.cells)
      → (held c ≡ true → get c w.bools.cells ≢ some fresh_chan)
      → Moves held w (record w { bools = g })
  touches w g c x rest used = record {
    free = λ d f. f;
    events = λ P d h. h;
    shape = x;
    fresh = λ d h f. rest d (λ same. used (ap held (sym same) ∙ h) (rw (sym same) f)) ∙ f;
  }

  pub sent-Moves :
      (w : World) (c : ℕ) (a b : Bool) (g : Chans Bool)
      → SameShape w.bools g
      → try_send c a w.bools ≡ some (g, b)
      → held c ≡ false
      → Moves held w (record w { bools = g })
  sent-Moves w c a b g x e no_held =
      touches w g c x (λ d ne. try_send_rest c a w.bools g b d e ne) (λ h. absurd (cc))

  recv_fresh :
      (c : ℕ) (h g : Chans Bool) (a : Bool) → recv c h ≡ taken a g → get c h.cells ≢ some fresh_chan
  unfolding recv
  recv_fresh c h g a e f = ground arith

  pub received-Moves :
      (w : World) (c : ℕ) (a : Bool) (g : Chans Bool)
      → SameShape w.bools g
      → recv c w.bools ≡ taken a g
      → Moves held w (record w { bools = g })
  received-Moves w c a g x e =
      touches w g c x (recv_rest c w.bools g a e).0 (λ h. recv_fresh c w.bools g a e)

  -- A player's channel gives its oldest event.
  pub matched-Moves :
      (w : World) (c : ℕ) (evt : MatchEvent) (g : Chans MatchEvent)
      → SameShape w.lobby.chans g
      → recv c w.lobby.chans ≡ taken evt g
      → Moves held w (record w { lobby = record w.lobby { chans = g } })
  matched-Moves w c evt g x e =
      let (rest, oldest) = recv_rest c w.lobby.chans g evt e in
      record {
        free = λ d f. record { opened = x.open_as d ∙ f.opened; unused = f.unused };
        events = λ P d h. elim (Bool-cases (nat_beq d c)) [
          | inl same ↦
              let at_c : d ≡ c = (nat_beq_iff d c).0 same in
              rw at_c
                (subst (All P) oldest (subst (λ k. All P (buffer_of k w.lobby.chans)) at_c h)).1
          | inr other ↦
              subst (All P)
                (ap (λ (o : Option (Chan MatchEvent)). elim o [ none ↦ [] | some ch ↦ ch.buffer ])
                  (sym (rest d (λ same. ground (arith, nat_beq_iff d c)))))
                h
        ];
        shape = record { next = refl; open_as = λ d. refl; none_as = λ d n. n };
        fresh = λ d h f. f;
      }

  dequeue-buffer_of :
      (id : String) (l l' : Lobby) (b : Bool) (c : ℕ)
      → dequeue id l ≡ some (l', b)
      → buffer_of c l'.chans ≡ buffer_of c l.chans
  unfolding dequeue
  dequeue-buffer_of id l l' b c e = elim (Option-cases (get id l.pool.players)) [
    | inl n ↦ ground arith
    | inr (q, f) ↦ elim (Option-cases (close q.match_ch l.chans)) [
      | inl n ↦ absurd (ground arith)
      | inr (g, k) ↦
          let same : g ≡ l'.chans = ground arith in
          ap (λ (x : Chans MatchEvent). buffer_of c x) (sym same)
          ∙ close-buffer_of q.match_ch c l.chans g k
    ]
  ]

  pub dequeued-Moves :
      (w : World) (id : String) (l' : Lobby) (b : Bool)
      → IsSafe w.lobby
      → dequeue id w.lobby ≡ some (l', b)
      → Moves held w (record w { lobby = l' })
  unfolding dequeue
  dequeued-Moves w id l' b s e = record {
    free = λ c f. dequeue-Free id w.lobby l' b c s e f;
    events = λ P c h. subst (All P) (sym (dequeue-buffer_of id w.lobby l' b c e)) h;
    shape = record { next = refl; open_as = λ d. refl; none_as = λ d n. n };
    fresh = λ c h f. f;
  }
