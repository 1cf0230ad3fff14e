-- ===== src/Examples/Fixtures.antt =====
-- Concrete inputs for the examples: whole numbers in place of float64, an insertion sort, and a lobby
-- that ten players have joined. None of it models code.
use mathlib.Core.List.Permᴰ
use fp_insis.Prelude.{
  ℕ, ◌≤◌, ◌≡◌, refl, Bool, true, false, List, [], ◌∷◌, String, arith, if◌then◌else◌, ℤ, pos, ◌+ℤ◌,
  ◌-ℤ◌, ltb_ℤ, ◌≤ℤ◌, Permᴰ, All, Bool-cases, inl, inr, get, string_eq, nat_eq,
}
use fp_insis.Runtime.{Floats}
use fp_insis.Pool.{QueuedPlayer, Lobby, new_pool, enqueue}
use fp_insis.Pool.Slices.{IsSorted}
use fp_insis.Pool.Invariant.{new_pool-IsValid}
use fp_insis.Pool.Queueing.{IsSafe, enqueue-IsSafe}
use fp_insis.Pool.Extract.{Env, rated_below}

pub ltb_ℤ-irrefl : (a : ℤ) → ltb_ℤ a a ≡ false
ltb_ℤ-irrefl a = ground arith

pub ltb_ℤ-trans : (a b c : ℤ) → ltb_ℤ a b ≡ true → ltb_ℤ b c ≡ true → ltb_ℤ a c ≡ true
ltb_ℤ-trans a b c x y = ground arith

abbrev pub whole_floats : Floats
whole_floats = record {
  Float64 = ℤ;
  of_int = λ a. a;
  add = ◌+ℤ◌;
  sub = ◌-ℤ◌;
  mul = λ a b. a;
  div = λ a b. a;
  lt = ltb_ℤ;
  seconds = λ a. a;
  lt_irrefl = ltb_ℤ-irrefl;
  lt_trans = ltb_ℤ-trans;
}

abbrev pub sort_into :
    (QueuedPlayer → QueuedPlayer → Bool) → QueuedPlayer → List QueuedPlayer → List QueuedPlayer
sort_into less x [] = x ∷ []
sort_into less x (y ∷ ys) = if less y x then y ∷ sort_into less x ys else x ∷ y ∷ ys

abbrev pub sort_by : (QueuedPlayer → QueuedPlayer → Bool) → List QueuedPlayer → List QueuedPlayer
sort_by less [] = []
sort_by less (x ∷ xs) = sort_into less x (sort_by less xs)

sort_into-perm :
    (less : QueuedPlayer → QueuedPlayer → Bool) (x : QueuedPlayer) (ys : List QueuedPlayer)
    → Permᴰ (x ∷ ys) (sort_into less x ys)
sort_into-perm less x [] = Permᴰ.refl (x ∷ [])
sort_into-perm less x (y ∷ ys) = elim (Bool-cases (less y x)) [
  | inl e ↦ rw e (Permᴰ.trans (Permᴰ.swap refl refl) (Permᴰ.cons refl (sort_into-perm less x ys)))
  | inr e ↦ rw e (Permᴰ.refl (x ∷ y ∷ ys))
]

pub sort_by-perm :
    (less : QueuedPlayer → QueuedPlayer → Bool) (l : List QueuedPlayer) → Permᴰ l (sort_by less l)
sort_by-perm less [] = Permᴰ.nil
sort_by-perm less (x ∷ xs) =
    Permᴰ.trans (Permᴰ.cons refl (sort_by-perm less xs)) (sort_into-perm less x (sort_by less xs))

All-sort_into :
    (P : QueuedPlayer → Type 0) (x : QueuedPlayer) (ys : List QueuedPlayer)
    → P x
    → All P ys
    → All P (sort_into rated_below x ys)
All-sort_into P x [] p h = (p, tt)
All-sort_into P x (y ∷ ys) p h = elim (Bool-cases (rated_below y x)) [
  | inl e ↦ rw e (h.0, All-sort_into P x ys p h.1)
  | inr e ↦ rw e (p, h)
]

above :
    (x y : QueuedPlayer) (ys : List QueuedPlayer)
    → x.mmr ≤ℤ y.mmr
    → All (λ z. y.mmr ≤ℤ z.mmr) ys
    → All (λ z. x.mmr ≤ℤ z.mmr) ys
above x y [] le h = tt
above x y (z ∷ zs) le h = (omega (arith, h.0), above x y zs le h.1)

sort_into-IsSorted :
    (x : QueuedPlayer) (ys : List QueuedPlayer)
    → IsSorted ys
    → IsSorted (sort_into rated_below x ys)
sort_into-IsSorted x [] s = (tt, tt)
sort_into-IsSorted x (y ∷ ys) s = elim (Bool-cases (rated_below y x)) [
  | inl e ↦
      rw e
        (All-sort_into (λ z. y.mmr ≤ℤ z.mmr) x ys (ground arith) s.0, sort_into-IsSorted x ys s.1)
  | inr e ↦ rw e ((ground arith, above x y ys (ground arith) s.0), s)
]

pub sort_by-IsSorted : (l : List QueuedPlayer) → IsSorted (sort_by rated_below l)
sort_by-IsSorted [] = tt
sort_by-IsSorted (x ∷ xs) = sort_into-IsSorted x (sort_by rated_below xs) (sort_by-IsSorted xs)

abbrev pub plain_env : Env
plain_env = record {
  now = pos 60;
  range_order = λ m. m;
  range_order-perm = λ m. Permᴰ.refl m;
  sort_slice = sort_by;
  sort_slice-perm = sort_by-perm;
  sort_slice-IsSorted = sort_by-IsSorted;
}

abbrev pub exact : ℕ → ℕ → ℕ
exact c n = n

pub exact_fits : (c n : ℕ) → n ≤ exact c n
exact_fits c n = omega arith

abbrev pub empty_lobby : Lobby
empty_lobby = record { pool = new_pool; chans = record { next = 0; cells = [] } }

pub empty_lobby-IsSafe : IsSafe empty_lobby
unfolding get
empty_lobby-IsSafe = record {
  valid = new_pool-IsValid;
  open_chs = λ id q e. absurd (cc);
  apart = λ i j q r ei ej same. absurd (cc);
  unmade = λ n le. refl;
}

-- These players join, the last of the list first.
unfoldable pub join_all : List (String × ℤ) → Lobby
join_all [] = empty_lobby
join_all ((id, mmr) ∷ rest) = (enqueue exact (pos 0) id id mmr (join_all rest)).0

pub join_all-IsSafe : (l : List (String × ℤ)) → IsSafe (join_all l)
unfolding join_all
join_all-IsSafe [] = empty_lobby-IsSafe
join_all-IsSafe ((id, mmr) ∷ rest) =
    enqueue-IsSafe exact exact_fits (pos 0) id id mmr (join_all rest) (join_all-IsSafe rest)

abbrev pub ten_names : List (String × ℤ)
ten_names =
    ("ann", pos 1010)
    ∷ ("bob", pos 1020)
    ∷ ("cid", pos 1100)
    ∷ ("dee", pos 1005)
    ∷ ("eve", pos 1250)
    ∷ ("fay", pos 1300)
    ∷ ("gus", pos 1490)
    ∷ ("hal", pos 1111)
    ∷ ("ida", pos 1222)
    ∷ ("jon", pos 1333)
    ∷ []

abbrev pub two_names : List (String × ℤ)
two_names = ("ann", pos 1010) ∷ ("bob", pos 1020) ∷ []
