-- ===== src/Interceptor/Logging.antt =====
-- What the chains make of a handler's run.
use fp_insis.Prelude.{
  ℕ, suc, ◌<◌, ◌≡◌, refl, ap, sym, ◌∙◌, subst, ◌||◌, Option, none, some, List, [], ◌∷◌, ◌++◌,
  if◌then◌else◌, length, ltb, take, drop, Bool, true, false,
}
use fp_insis.Status.{Reply, ok, fail, internal, resource_exhausted}
use fp_insis.Interceptor.{
  Run, finishes, panics, level_info, level_warn, Log, recovered, started, exhausted, ended,
  code_of_reply, is_ok, is_canceled, unary_panic_recovery, stream_panic_recovery, unary_logger,
  stream_logger, unary_chain, stream_opens, stream_ends, Guard, new_guard, acquire, StreamEvent,
  run_guard,
}
use fp_insis.Interceptor.Slots.{IsHeld, new_guard-IsHeld, run_guard_lem, acquire_lem, release_lem}

-- The reply that a client gets for a run.
abbrev pub reply_of : {A : Type 0} → Run A → Reply A
reply_of (finishes r) = r
reply_of panics = fail internal

abbrev pub recovered_logs : {A : Type 0} → Run A → List Log
recovered_logs (finishes r) = []
recovered_logs panics = recovered ∷ []

abbrev pub unary_logs : {A : Type 0} → Run A → List Log
unary_logs r =
    let code = code_of_reply (reply_of r) in
    recovered_logs r ++ ended (if is_ok code then level_info else level_warn) code ∷ []

abbrev pub stream_logs : {A : Type 0} → Run A → List Log
stream_logs r =
    let code = code_of_reply (reply_of r) in
    started
    ∷ (recovered_logs r
        ++ ended (if is_ok code || is_canceled code then level_info else level_warn) code ∷ [])

abbrev pub rejected_logs : List Log
rejected_logs = started ∷ exhausted ∷ ended level_warn resource_exhausted ∷ []

some_same : (g h : Guard) → ◌≡◌ {A = Option Guard} (some g) (some h) → g ≡ h
some_same g h e = cc

unary_chain_lem : {A : Type 0} (r : Run A) → unary_chain r ≡ (finishes (reply_of r), unary_logs r)
unfolding unary_panic_recovery unary_logger
unary_chain_lem (finishes r) = refl
unary_chain_lem panics = refl

stream_run :
    {A : Type 0} (r : Run A)
    → stream_logger (stream_panic_recovery (r, [])) ≡ (finishes (reply_of r), stream_logs r)
unfolding stream_panic_recovery stream_logger
stream_run (finishes r) = refl
stream_run panics = refl

opened :
    {A : Type 0} (id : ℕ) (g g1 : Guard) (room : Bool)
    → acquire id g ≡ some (g1, if room then ok tt else fail resource_exhausted)
    → stream_opens {A = A} id g
      ≡ some (g1, if room then none else some (finishes (fail resource_exhausted), rejected_logs))
unfolding stream_opens stream_panic_recovery stream_logger
opened id g g1 true h = rw (h, stream_opens) refl
opened id g g1 false h = rw (h, stream_opens) refl

-- However streams came and went, no panic leaves the chains. A stream that comes in is let through when
-- fewer than the limit run, and then counts as running; else it gets ResourceExhausted, with its
-- rejection and its end logged as warnings, and no slot. When the handler of a running stream ends, its
-- slot is free again, and the reply, as for a unary call, is the handler's, or Internal for a panic,
-- which is logged; the end is logged with the reply's code, as a warning unless it is OK or, for a
-- stream, Canceled.
pub chains_lem :
    {A : Type 0} (limit : ℕ) (es : List StreamEvent) (g : Guard) (id k : ℕ) (r : Run A)
    → run_guard es (new_guard limit) ≡ some g
    → k < length g.running
    → (unary_chain r ≡ (finishes (reply_of r), unary_logs r))
      × ((g1 : Guard) × (stream_opens {A = A} id g
            ≡ some (
              g1,
              if ltb (length g.running) limit
                  then none
                  else some (finishes (fail resource_exhausted), rejected_logs),
            ))
          × (g1.running ≡ (if ltb (length g.running) limit then id ∷ g.running else g.running)))
      × ((g2 : Guard) × (stream_ends k r g ≡ some (g2, (finishes (reply_of r), stream_logs r)))
          × (g2.running ≡ take k g.running ++ drop (suc k) g.running))
unfolding stream_opens stream_ends stream_panic_recovery stream_logger
chains_lem {A} limit es g id k r e lt =
    let (g', e', held) = run_guard_lem limit es (new_guard limit) (new_guard-IsHeld limit) in
    let same : g' ≡ g = some_same g' g (sym e' ∙ e) in
    let h : IsHeld limit g = subst (IsHeld limit) same held in
    let (g1, opens, _, run1) = acquire_lem limit id g h in
    let (g2, frees, _, run2) = release_lem limit 0 g h k lt in
    (
      unary_chain_lem r,
      (g1, opened id g g1 (ltb (length g.running) limit) opens, run1),
      (
        g2,
        rw (frees, stream_ends) (ap (λ (x : Run A × List Log). some (g2, x)) (stream_run r)),
        run2,
      ),
    )
