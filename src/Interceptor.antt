-- ===== src/Interceptor.antt =====
-- internal/interceptor/interceptor.go, and the chains in which cmd/server/main.go installs it. A run of
-- a handler ends with a reply or with a panic; what is logged is the list of records, in order.
pub mod Logging
pub mod Slots
use fp_insis.Prelude.{
  ℕ, zero, suc, ◌+◌, ◌≡◌, Bool, true, false, ◌||◌, Option, none, some, List, [], ◌∷◌, ◌++◌,
  if◌then◌else◌, take, drop, ltb, length,
}
use fp_insis.Chan.{Chans, Received, blocks, drained, taken, make_chan, try_send, recv}
use fp_insis.Status.{Code, Reply, ok, fail, ok_code, canceled, internal, resource_exhausted}

pub data Run (A : Type 0) : Type 0 where
  finishes : Reply A → Run A
  panics : Run A

pub data Level : Type 0 where
  level_info level_warn level_error : Level

-- The records of slog: a panic that was recovered, the start of a stream, a stream rejected at the
-- limit, the end of a call or a stream with its level and code.
pub data Log : Type 0 where
  recovered started exhausted : Log
  ended : Level → Code → Log

-- status.Code
abbrev pub code_of_reply : {A : Type 0} → Reply A → Code
code_of_reply (ok a) = ok_code
code_of_reply (fail c) = c

abbrev pub is_ok : Code → Bool
is_ok ok_code = true
is_ok _ = false

abbrev pub is_canceled : Code → Bool
is_canceled canceled = true
is_canceled _ = false

module _ {A : Type 0} where
  unfoldable pub unary_panic_recovery : Run A × List Log → Run A × List Log
  unary_panic_recovery (finishes r, logs) = (finishes r, logs)
  unary_panic_recovery (panics, logs) = (finishes (fail internal), logs ++ recovered ∷ [])

  unfoldable pub stream_panic_recovery : Run A × List Log → Run A × List Log
  stream_panic_recovery (finishes r, logs) = (finishes r, logs)
  stream_panic_recovery (panics, logs) = (finishes (fail internal), logs ++ recovered ∷ [])

  unfoldable pub unary_logger : Run A × List Log → Run A × List Log
  unary_logger (finishes r, logs) =
      let code = code_of_reply r in
      let level = if is_ok code then level_info else level_warn in
      (finishes r, logs ++ ended level code ∷ [])
  unary_logger (panics, logs) = (panics, logs)

  unfoldable pub stream_logger : Run A × List Log → Run A × List Log
  stream_logger (finishes r, logs) =
      let code = code_of_reply r in
      let level = if is_ok code || is_canceled code then level_info else level_warn in
      (finishes r, started ∷ logs ++ ended level code ∷ [])
  stream_logger (panics, logs) = (panics, started ∷ logs)

  -- The unary interceptors of main.go around a handler's run.
  abbrev pub unary_chain : Run A → Run A × List Log
  unary_chain r = unary_logger (unary_panic_recovery (r, []))

-- The semaphore of MaxConcurrentStreams and the streams whose handlers run under it.
pub record Guard : Type 0 where
  pub sem : ℕ
  pub chans : Chans (Unit {0})
  pub running : List ℕ

unfoldable pub new_guard : ℕ → Guard
new_guard limit =
    let (h, c) = make_chan limit (record { next = 0; cells = [] }) in
    record { sem = c; chans = h; running = [] }

-- A stream comes in: whether it is let through. The stream that is not gets ResourceExhausted.
unfoldable pub acquire : ℕ → Guard → Option (Guard × Reply (Unit {0}))
acquire id g = elim (try_send g.sem tt g.chans) [
  | none ↦ none
  | some (h, took) ↦
      if took
      then some (record g { chans = h; running = id ∷ g.running }, ok tt)
      else some (g, fail resource_exhausted)
]

-- The deferred receive, when the handler of the k-th running stream returns or panics. `none` would
-- be a receive that waits for ever.
unfoldable pub release : ℕ → Guard → Option Guard
release k g = elim (recv g.sem g.chans) [
  | blocks ↦ none
  | drained ↦ none
  | taken _ h ↦ some (record g { chans = h; running = take k g.running ++ drop (suc k) g.running })
]

module _ {A : Type 0} where
  -- The stream interceptors of main.go when a stream comes in: the limit lets it through, and its handler
  -- runs, or the stream ends at once.
  unfoldable pub stream_opens : ℕ → Guard → Option (Guard × Option (Run A × List Log))
  stream_opens id g = elim (acquire id g) [
    | none ↦ none
    | some (g', ok _) ↦ some (g', none)
    | some (g', fail code) ↦
        some
          (g', some (stream_logger (stream_panic_recovery (finishes (fail code), exhausted ∷ []))))
  ]

  -- The same when the handler of the k-th running stream ends: its slot is given back first.
  unfoldable pub stream_ends : ℕ → Run A → Guard → Option (Guard × (Run A × List Log))
  stream_ends k r g = elim (release k g) [
    | none ↦ none
    | some g' ↦ some (g', stream_logger (stream_panic_recovery (r, [])))
  ]

pub data StreamEvent : Type 0 where
  comes : ℕ → StreamEvent
  goes : ℕ → StreamEvent

-- The streams come and go; only one that runs can go.
unfoldable pub run_guard : List StreamEvent → Guard → Option Guard
run_guard [] g = some g
run_guard (comes id ∷ es) g = elim (acquire id g) [ none ↦ none | some (g', _) ↦ run_guard es g' ]
run_guard (goes k ∷ es) g =
    let stays = run_guard es g in
    let left : Option Guard = elim (release k g) [ none ↦ none | some g' ↦ run_guard es g' ] in
    if ltb k (length g.running) then left else stays
