-- ===== src/System/Reach.antt =====
-- The states that the server reaches.
use fp_insis.Prelude.{ℕ, ◌≤◌, ◌≡◌, refl, subst, ◌≢◌, true, get, nat_eq, string_eq}
use fp_insis.Runtime.{Floats}
use fp_insis.Pool.Invariant.{new_pool-IsValid}
use fp_insis.Pool.Queueing.{IsSafe}
use fp_insis.System.{crashed, stuck, stepped, System, Action, system_step, new_system}
use fp_insis.System.Apart.{held}
use fp_insis.Pool.Channels.{Free}
use fp_insis.System.Running.{lent_all, IsRunning, StepsWell, runs, system_step-StepsWell}

new_system-IsRunning : IsRunning new_system
unfolding get
new_system-IsRunning = record {
  shared = record {
    safe = record {
      valid = new_pool-IsValid;
      open_chs = λ id q e. absurd (cc);
      apart = λ i j q r ei ej same. absurd (cc);
      unmade = λ n le. refl;
    };
    unmade = λ n le. refl;
    untold_apart = tt;
    untold_fresh = λ n h. absurd (cc);
    lent_apart = tt;
    lent_free = λ n h. absurd (cc);
    events = λ c. tt;
    good = tt;
  };
  manned = tt;
}

ran_well : (s : System) → StepsWell (stepped s) → IsRunning s
ran_well s (runs t ok) = ok

no_crash : StepsWell crashed → ⊥
no_crash w = elim w [ ]

no_stop : StepsWell stuck → ⊥
no_stop w = elim w [ ]

module _ (grow : ℕ → ℕ → ℕ) (grow_fits : (c n : ℕ) → n ≤ grow c n) (fl : Floats) where
  -- The states that the server reaches from its start, by any goroutines' steps in any order.
  pub data Reached : System → Type 0 where
    start : Reached new_system
    later :
        (s s' : System) (a : Action) → Reached s → system_step grow fl a s ≡ stepped s' → Reached s'

  pub Reached-IsRunning : (s : System) → Reached s → IsRunning s
  Reached-IsRunning s start = new_system-IsRunning
  Reached-IsRunning s (later t u a r e) =
      ran_well u
        (subst StepsWell e (system_step-StepsWell t (Reached-IsRunning t r) grow grow_fits fl a))

  -- In every state that the server reaches, by steps of its goroutines in any order, the pool is valid
  -- and each queued player has an open channel of their own; the channel of each player whom a
  -- coordinator may yet put back is open, and no queued player's; and whatever goroutine takes the next
  -- step, that step is no panic, and no send that blocks for good.
  pub Reached-runs :
      (s : System) (a : Action)
      → Reached s
      → IsSafe s.engine.lobby
        × ((ch : ℕ) → held (lent_all s.coords) ch ≡ true → Free s.engine.lobby ch)
        × (system_step grow fl a s ≢ crashed)
        × (system_step grow fl a s ≢ stuck)
  Reached-runs s a r =
      let ok = Reached-IsRunning s r in
      let well = system_step-StepsWell s ok grow grow_fits fl a in
      (
        ok.shared.safe,
        ok.shared.lent_free,
        λ e. no_crash (subst StepsWell e well),
        λ e. no_stop (subst StepsWell e well),
      )
