-- ===== src/System/Apart.antt =====
-- Lists of channel numbers that share none: the channels that each coordinator still has to use.
use fp_insis.Prelude.{
  ℕ, zero, suc, ◌≡◌, refl, inl, inr, Bool, true, false, ◌||◌, some, List, [], ◌∷◌, arith, set,
  get_elem?, Bool-cases,
}
use fp_insis.Coordinator.Verdict.{is_one_of, NumbersDistinct}

-- Some list has the number.
abbrev pub held : List (List ℕ) → ℕ → Bool
held [] n = false
held (u ∷ us) n = is_one_of n u || held us n

-- Each list has different numbers, and no two share one.
abbrev pub Separate : List (List ℕ) → Type 0
Separate [] = Unit {0}
Separate (u ∷ us) =
    NumbersDistinct u × ((n : ℕ) → is_one_of n u ≡ true → held us n ≡ false) × Separate us

abbrev pub Within : List ℕ → List ℕ → Type 0
Within v u = (n : ℕ) → is_one_of n v ≡ true → is_one_of n u ≡ true

pub held_at :
    (us : List (List ℕ)) (k : ℕ) (u : List ℕ) (n : ℕ)
    → get_elem? us k ≡ some u
    → is_one_of n u ≡ true
    → held us n ≡ true
held_at [] k u n e h = absurd (cc)
held_at (v ∷ us) zero u n e h = ground arith
held_at (v ∷ us) (suc k) u n e h = ground (arith, held_at us k u n e h)

-- A list in place of one that has all its numbers.
pub held-set :
    (us : List (List ℕ)) (k : ℕ) (u v : List ℕ) (n : ℕ)
    → get_elem? us k ≡ some u
    → Within v u
    → held (set us k v) n ≡ true
    → held us n ≡ true
held-set [] k u v n e w h = absurd (cc)
held-set (x ∷ us) zero u v n e w h = ground (arith, w n)
held-set (x ∷ us) (suc k) u v n e w h = ground (arith, held-set us k u v n e w)

pub not_held :
    (us : List (List ℕ)) (k : ℕ) (u v : List ℕ) (n : ℕ)
    → get_elem? us k ≡ some u
    → Within v u
    → held us n ≡ false
    → held (set us k v) n ≡ false
not_held us k u v n e w h = elim (Bool-cases (held (set us k v) n)) [
  | inl yes_held ↦ absurd (let was = held-set us k u v n e w yes_held in ground arith)
  | inr no_held ↦ no_held
]

-- A number that is taken out of its list is in none.
pub held-set_gone :
    (us : List (List ℕ)) (k : ℕ) (u v : List ℕ) (n : ℕ)
    → Separate us
    → get_elem? us k ≡ some u
    → is_one_of n u ≡ true
    → is_one_of n v ≡ false
    → held (set us k v) n ≡ false
held-set_gone [] k u v n s e h g = refl
held-set_gone (x ∷ us) zero u v n s e h g = ground (arith, s.1 n)
held-set_gone (x ∷ us) (suc k) u v n s e h g =
    ground (arith, s.1 n, held_at us k u n e h, held-set_gone us k u v n s.2 e h g)

pub Separate-set :
    (us : List (List ℕ)) (k : ℕ) (u v : List ℕ)
    → get_elem? us k ≡ some u
    → Within v u
    → NumbersDistinct v
    → Separate us
    → Separate (set us k v)
Separate-set [] k u v e w d s = tt
Separate-set (x ∷ us) zero u v e w d s = (d, λ n h. s.1 n (ground (arith, w n)), s.2)
Separate-set (x ∷ us) (suc k) u v e w d s =
    (s.0, λ n h. not_held us k u v n e w (s.1 n h), Separate-set us k u v e w d s.2)

pub Separate-at :
    (us : List (List ℕ)) (k : ℕ) (u : List ℕ)
    → get_elem? us k ≡ some u
    → Separate us
    → NumbersDistinct u
Separate-at [] k u e s = absurd (cc)
Separate-at (x ∷ us) zero u e s = ground arith
Separate-at (x ∷ us) (suc k) u e s = Separate-at us k u e s.2

-- A number that is still in some list is still in the one that had it.
pub stays_listed :
    (us : List (List ℕ)) (k : ℕ) (u v : List ℕ) (n : ℕ)
    → Separate us
    → get_elem? us k ≡ some u
    → held (set us k v) n ≡ true
    → is_one_of n u ≡ true
    → is_one_of n v ≡ true
stays_listed us k u v n s e h l = elim (Bool-cases (is_one_of n v)) [
  | inl listed ↦ listed
  | inr gone ↦ absurd (let none_has = held-set_gone us k u v n s e l gone in ground arith)
]

pub not_listed :
    (us : List (List ℕ)) (k : ℕ) (u : List ℕ) (n : ℕ)
    → get_elem? us k ≡ some u
    → held us n ≡ false
    → is_one_of n u ≡ false
not_listed us k u n e h = elim (Bool-cases (is_one_of n u)) [
  | inl listed ↦ absurd (let has = held_at us k u n e listed in ground arith)
  | inr gone ↦ gone
]
