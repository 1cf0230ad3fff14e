-- ===== src/Pool/Extract/Window.antt =====
-- The sliding window of ExtractMatch: it stays in range and finds a window of least score.
use fp_insis.Prelude.{
  ℕ, zero, suc, ◌+◌, ◌-◌, ◌≤◌, ◌<◌, ◌≡◌, refl, ◌⊎◌, inl, inr, true, false, none, List, [], ◌∷◌,
  arith, length, length-take, length-drop, All, All-take, All-drop, String, nat_beq, nat_beq_iff,
  Bool-cases, take, drop,
}
use fp_insis.Runtime.{Floats}
use fp_insis.Pool.{QueuedPlayer, players_per_match}
use fp_insis.Pool.Slices.{IdsDistinct, find_id}
use fp_insis.Pool.Extract.{Env, window, score, slide, sentinel, best_start}

pub length-window :
    (c : List QueuedPlayer) (i : ℕ)
    → i + players_per_match ≤ length c
    → length (window c i) ≡ players_per_match
length-window c i h = omega (arith, length-take players_per_match (drop i c), length-drop i c)

absent_take :
    (id : String) (n : ℕ) (c : List QueuedPlayer)
    → find_id id c ≡ none
    → find_id id (take n c) ≡ none
unfolding find_id
absent_take id zero c h = refl
absent_take id (suc n) [] h = refl
absent_take id (suc n) (x ∷ c) h = ground (arith, absent_take id n c)

take-IdsDistinct : (n : ℕ) (c : List QueuedPlayer) → IdsDistinct c → IdsDistinct (take n c)
take-IdsDistinct zero c d = tt
take-IdsDistinct (suc n) [] d = tt
take-IdsDistinct (suc n) (x ∷ c) d = (absent_take x.player_id n c d.0, take-IdsDistinct n c d.1)

drop-IdsDistinct : (n : ℕ) (c : List QueuedPlayer) → IdsDistinct c → IdsDistinct (drop n c)
drop-IdsDistinct zero c d = d
drop-IdsDistinct (suc n) [] d = d
drop-IdsDistinct (suc n) (x ∷ c) d = drop-IdsDistinct n c d.1

pub window-IdsDistinct : (c : List QueuedPlayer) (i : ℕ) → IdsDistinct c → IdsDistinct (window c i)
window-IdsDistinct c i d = take-IdsDistinct players_per_match (drop i c) (drop-IdsDistinct i c d)

pub window-All {κ} :
    (P : QueuedPlayer → Type κ) (c : List QueuedPlayer) (i : ℕ) → All P c → All P (window c i)
window-All P c i h = All-take P players_per_match (drop i c) (All-drop P i c h)

module _ (fl : Floats) (env : Env) (c : List QueuedPlayer) where
  open fl use {Float64, lt, lt_irrefl, lt_trans}

  -- The loop stays with the start and the score it began with, or it ends with a better window.
  abbrev pub Origin : ℕ → ℕ → ℕ → Float64 → ℕ → Float64 → Type 0
  Origin i rounds start best s b =
      ((s ≡ start) × (b ≡ best))
      ⊎ ((i ≤ s) × (s < i + rounds) × (b ≡ score fl env c s) × (lt b best ≡ true))

  abbrev pub Least : ℕ → ℕ → Float64 → Type 0
  Least i rounds b = (k : ℕ) → i ≤ k → k < i + rounds → lt (score fl env c k) b ≡ false

  never_less : (a b : Float64) → ¬ (lt a b ≡ true) → lt a b ≡ false
  never_less a b h = elim (Bool-cases (lt a b)) [ inl t ↦ absurd (h t) | inr f ↦ f ]

  less_false : (a b : Float64) → lt a b ≡ true → lt b a ≡ false
  less_false a b h = never_less b a (λ t. cc (lt_trans a b a h t, lt_irrefl a))

  -- One round that takes the window at i, and one that does not.
  took :
      (i n start : ℕ) (best : Float64) (s : ℕ) (b : Float64)
      → lt (score fl env c i) best ≡ true
      → Origin (suc i) n i (score fl env c i) s b × Least (suc i) n b
      → Origin i (suc n) start best s b × Least i (suc n) b
  took i n start best s b e (inl (es, eb), h) = (
    inr (omega arith, omega arith, rw (es, eb), rw eb e),
    λ k p q. elim (Bool-cases (nat_beq k i)) [
      | inl same ↦ rw ((nat_beq_iff k i).0 same, eb) (lt_irrefl _)
      | inr other ↦ h k (ground arith) (ground arith)
    ],
  )
  took i n start best s b e (inr (lo, hi, eb, less), h) = (
    inr (omega arith, omega arith, eb, lt_trans b (score fl env c i) best less e),
    λ k p q. elim (Bool-cases (nat_beq k i)) [
      | inl same ↦ rw ((nat_beq_iff k i).0 same) (less_false b (score fl env c i) less)
      | inr other ↦ h k (ground arith) (ground arith)
    ],
  )

  passed :
      (i n start : ℕ) (best : Float64) (s : ℕ) (b : Float64)
      → lt (score fl env c i) best ≡ false
      → Origin (suc i) n start best s b × Least (suc i) n b
      → Origin i (suc n) start best s b × Least i (suc n) b
  passed i n start best s b e (inl (es, eb), h) = (
    inl (es, eb),
    λ k p q. elim (Bool-cases (nat_beq k i)) [
      | inl same ↦ rw ((nat_beq_iff k i).0 same, eb) e
      | inr other ↦ h k (ground arith) (ground arith)
    ],
  )
  passed i n start best s b e (inr (lo, hi, eb, less), h) = (
    inr (omega arith, omega arith, eb, less),
    λ k p q. elim (Bool-cases (nat_beq k i)) [
      | inl same ↦
          rw ((nat_beq_iff k i).0 same)
            (never_less _ b (λ t. cc (lt_trans (score fl env c i) b best t less)))
      | inr other ↦ h k (ground arith) (ground arith)
    ],
  )

  slide-Least :
      (rounds i start : ℕ) (best : Float64)
      → let (s, b) = slide fl env c rounds i start best in
        Origin i rounds start best s b × Least i rounds b
  unfolding slide
  slide-Least zero i start best = (inl (refl, refl), λ k p q. absurd (omega arith))
  slide-Least (suc n) i start best = elim (Bool-cases (lt (score fl env c i) best)) [
    | inl e ↦ rw (e, slide) (took i n start best _ _ e (slide-Least n (suc i) i (score fl env c i)))
    | inr e ↦ rw (e, slide) (passed i n start best _ _ e (slide-Least n (suc i) start best))
  ]

  rounds : ℕ
  rounds = length c + 1 - players_per_match

  abbrev found_at : ℕ × Float64
  found_at = slide fl env c rounds 0 0 (sentinel fl env)

  found : Origin 0 rounds 0 (sentinel fl env) found_at.0 found_at.1 × Least 0 rounds found_at.1
  found = slide-Least rounds 0 0 (sentinel fl env)

  -- The chosen window is one of the candidates'.
  pub best_start_in_range :
      players_per_match ≤ length c → best_start fl env c + players_per_match ≤ length c
  unfolding best_start rounds
  best_start_in_range enough = elim found.0 [
    | inl (es, eb) ↦ rw es (omega arith)
    | inr (lo, hi, eb, less) ↦ omega arith
  ]

  -- If some window's score is below the sentinel that the search starts from, no window's score is
  -- below that of the chosen one.
  pub best_start_least :
      (j k : ℕ)
      → j + players_per_match ≤ length c
      → k + players_per_match ≤ length c
      → lt (score fl env c j) (sentinel fl env) ≡ true
      → lt (score fl env c k) (score fl env c (best_start fl env c)) ≡ false
  unfolding best_start rounds
  best_start_least j k jfits kfits low = elim found.0 [
    | inl (es, eb) ↦ absurd (cc (found.1 j (omega arith) (omega arith), low, eb))
    | inr (lo, hi, eb, less) ↦ rw (← eb) (found.1 k (omega arith) (omega arith))
  ]
