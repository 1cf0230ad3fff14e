-- ===== src/Interceptor/Slots.antt =====
-- The limit of MaxConcurrentStreams.
use fp_insis.Prelude.{
  ℕ, suc, ◌+◌, ◌≤◌, ◌<◌, ◌≡◌, refl, ap, inl, inr, false, some, List, [], ◌∷◌, ◌++◌, arith, ltb,
  length, length-append, length-take, length-drop, take, drop, get, put, get-put, nat_eq,
  nat_beq_iff, if◌then◌else◌, Bool-cases,
}
use fp_insis.Chan.{Chan, make_chan, try_send, recv}
use fp_insis.Status.{ok, fail, resource_exhausted}
use fp_insis.Interceptor.{Guard, new_guard, acquire, release, StreamEvent, comes, goes, run_guard}

-- One token in the semaphore for each running stream, and no more of them than the limit.
pub record IsHeld (limit : ℕ) (g : Guard) : Type 0 where
  pub tokens : List (Unit {0})
  pub stored :
      get g.sem g.chans.cells ≡ some (record { buffer = tokens; capacity = limit; closed = false })
  pub matched : length tokens ≡ length g.running
  pub bounded : length g.running ≤ limit

pub new_guard-IsHeld : (limit : ℕ) → IsHeld limit (new_guard limit)
unfolding new_guard make_chan
new_guard-IsHeld limit = record {
  tokens = [];
  stored = unfold put get in refl;
  matched = refl;
  bounded = omega arith;
}

module _ (limit id : ℕ) (g : Guard) (k : IsHeld limit g) where
  pub acquire_lem :
      (g' : Guard) × (acquire id g
        ≡ some (g', if ltb (length g.running) limit then ok tt else fail resource_exhausted))
      × IsHeld limit g'
      × (g'.running ≡ (if ltb (length g.running) limit then id ∷ g.running else g.running))
  unfolding acquire try_send
  acquire_lem = elim (Bool-cases (ltb (length g.running) limit)) [
    | inl room ↦
        let full : Chan (Unit {0}) = record {
          buffer = k.tokens ++ tt ∷ [];
          capacity = limit;
          closed = false;
        } in
        (
          record g {
            chans = record g.chans { cells = put g.sem full g.chans.cells };
            running = id ∷ g.running;
          },
          ground (arith, k.stored, k.matched),
          record {
            tokens = k.tokens ++ tt ∷ [];
            stored =
                ground (arith, get-put g.sem g.sem full g.chans.cells, nat_beq_iff g.sem g.sem);
            matched = omega (arith, length-append k.tokens (tt ∷ []), k.matched);
            bounded = ground arith;
          },
          ground arith,
        )
    | inr full ↦ (g, ground (arith, k.stored, k.matched), k, ground arith)
  ]

  -- A stream that runs can go: its token is there.
  pub release_lem :
      (i : ℕ)
      → i < length g.running
      → (g' : Guard) × (release i g ≡ some g')
        × IsHeld limit g'
        × (g'.running ≡ take i g.running ++ drop (suc i) g.running)
  unfolding release recv
  release_lem i lt = go k.tokens refl
    where
      go :
          (l : List (Unit {0}))
          → k.tokens ≡ l
          → (g' : Guard) × (release i g ≡ some g')
            × IsHeld limit g'
            × (g'.running ≡ take i g.running ++ drop (suc i) g.running)
      go [] e = absurd (omega (arith, k.matched, ap (λ (x : List (Unit {0})). length x) e))
      go (t ∷ rest) e =
          let left : Chan (Unit {0}) = record { buffer = rest; capacity = limit; closed = false } in
          let fewer : length (take i g.running ++ drop (suc i) g.running) + 1 ≡ length g.running =
            omega (
              arith,
              length-append (take i g.running) (drop (suc i) g.running),
              length-take i g.running,
              length-drop (suc i) g.running,
            ) in
          (
            record g {
              chans = record g.chans { cells = put g.sem left g.chans.cells };
              running = take i g.running ++ drop (suc i) g.running;
            },
            ground (arith, k.stored, e),
            record {
              tokens = rest;
              stored =
                  ground (arith, get-put g.sem g.sem left g.chans.cells, nat_beq_iff g.sem g.sem);
              matched = omega (arith, fewer, k.matched, ap (λ (x : List (Unit {0})). length x) e);
              bounded = omega (arith, fewer, k.bounded);
            },
            refl,
          )

pub run_guard_lem :
    (limit : ℕ) (es : List StreamEvent) (g : Guard)
    → IsHeld limit g
    → (g' : Guard) × (run_guard es g ≡ some g') × IsHeld limit g'
unfolding run_guard
run_guard_lem limit [] g k = (g, refl, k)
run_guard_lem limit (comes id ∷ es) g k =
    let (g1, e, k1, _) = acquire_lem limit id g k in
    let (g2, f, k2) = run_guard_lem limit es g1 k1 in (g2, rw (e, run_guard) f, k2)
run_guard_lem limit (goes i ∷ es) g k = elim (Bool-cases (ltb i (length g.running))) [
  | inl lt ↦
      let (g1, e, k1, _) = release_lem limit 0 g k i (ground arith) in
      let (g2, f, k2) = run_guard_lem limit es g1 k1 in (g2, rw (lt, e, run_guard) f, k2)
  | inr out ↦ let (g2, f, k2) = run_guard_lem limit es g k in (g2, rw (out, run_guard) f, k2)
]

-- However streams come and go, no release waits, at most `limit` handlers run, and the next stream
-- is let through exactly when fewer run: else it gets ResourceExhausted.
pub guard_bounded :
    (limit : ℕ) (es : List StreamEvent) (id : ℕ)
    → (g : Guard) × (run_guard es (new_guard limit) ≡ some g)
      × (length g.running ≤ limit)
      × (g' : Guard) × (acquire id g
          ≡ some (g', if ltb (length g.running) limit then ok tt else fail resource_exhausted))
guard_bounded limit es id =
    let (g, e, k) = run_guard_lem limit es (new_guard limit) (new_guard-IsHeld limit) in
    let (g', a, _, _) = acquire_lem limit id g k in (g, e, k.bounded, g', a)
