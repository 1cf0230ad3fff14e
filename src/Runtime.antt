-- ===== src/Runtime.antt =====
-- What the program takes from Go's float64: a parameter, with the documented behaviour that the proofs
-- rely on. And the milliseconds of a time.
use Prim.Native.Nat.{◌/◌}
use fp_insis.Prelude.{◌≡◌, Bool, true, false, ℤ, pos, negsuc}

-- time.Time.UnixMilli of a number of nanoseconds since 1970: the milliseconds, rounded down.
abbrev pub unix_milli : ℤ → ℤ
unix_milli (pos n) = pos (n / 1000000)
unix_milli (negsuc n) = negsuc (n / 1000000)

-- float64. The order of IEEE 754 is irreflexive and transitive, also where a value is NaN.
pub record Floats : Type 1 where
  pub Float64 : Type 0
  pub of_int : ℤ → Float64
  pub add : Float64 → Float64 → Float64
  pub sub : Float64 → Float64 → Float64
  pub mul : Float64 → Float64 → Float64
  pub div : Float64 → Float64 → Float64
  pub lt : Float64 → Float64 → Bool
  -- Duration.Seconds, of a number of nanoseconds
  pub seconds : ℤ → Float64
  pub lt_irrefl : (a : Float64) → lt a a ≡ false
  pub lt_trans : (a b c : Float64) → lt a b ≡ true → lt b c ≡ true → lt a c ≡ true
