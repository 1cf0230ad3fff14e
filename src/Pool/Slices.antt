-- ===== src/Pool/Slices.antt =====
-- insertSorted and removeFromSlice of internal/state/pool.go against their specifications.
use fp_insis.Prelude.{
  ℕ, zero, suc, ◌+◌, ◌/◌, ◌≤◌, ◌<◌, ◌≡◌, refl, ap, inl, inr, Bool, true, false, Option, none, some,
  List, [], ◌∷◌, ◌++◌, String, arith, ltb, length, take, drop, All, All-map, if◌then◌else◌, ◌==◌,
  string_eq, ℤ, leb_ℤ, ◌≤ℤ◌, Bool-cases,
}
use text.Mathlib.TextEquality.{eq_iff}
use fp_insis.Pool.{QueuedPlayer, Slice, search_index, at_least, insert_sorted}

-- Sorted by rating, ascending.
abbrev pub IsSorted : List QueuedPlayer → Type 0
IsSorted [] = Unit {0}
IsSorted (x ∷ xs) = All (λ y. x.mmr ≤ℤ y.mmr) xs × IsSorted xs

-- The first player with an id, as a client of the slices sees them.
unfoldable pub find_id : String → List QueuedPlayer → Option QueuedPlayer
find_id id [] = none
find_id id (x ∷ xs) = if x.player_id == id then some x else find_id id xs

abbrev pub IdsDistinct : List QueuedPlayer → Type 0
IdsDistinct [] = Unit {0}
IdsDistinct (x ∷ xs) = (find_id x.player_id xs ≡ none) × IdsDistinct xs

-- What insertSorted is to do: put the player before the first one who is rated as high.
pub insert : QueuedPlayer → List QueuedPlayer → List QueuedPlayer
insert qp [] = qp ∷ []
insert qp (x ∷ xs) = if leb_ℤ qp.mmr x.mmr then qp ∷ x ∷ xs else x ∷ insert qp xs

-- A bound found by the search splits the range at the test.
abbrev pub Splits : (ℕ → Bool) → ℕ → ℕ → ℕ → Type 0
Splits f i j r =
    (i ≤ r)
    × (r ≤ j)
    × ((k : ℕ) → i ≤ k → k < r → f k ≡ false)
    × ((k : ℕ) → r ≤ k → k < j → f k ≡ true)

search_index-Splits :
    (fuel : ℕ) (f : ℕ → Bool) (i j : ℕ)
    → ((a b : ℕ) → a ≤ b → f a ≡ true → f b ≡ true)
    → i ≤ j
    → j < i + fuel
    → Splits f i j (search_index fuel f i j)
unfolding search_index
search_index-Splits zero f i j mono le h = absurd (omega arith)
search_index-Splits (suc n) f i j mono le h = elim (Bool-cases (ltb i j)) [
  | inr e ↦
      rw (e, search_index)
        (ground arith, le, λ k a b. absurd (ground arith), λ k a b. absurd (ground arith))
  | inl e ↦ elim (Bool-cases (f ((i + j) / 2))) [
    | inl t ↦
        let (a, b, lo, hi) =
          search_index-Splits n f i ((i + j) / 2) mono (ground arith) (ground arith) in
        rw (e, t, search_index)
          (
            a,
            ground arith,
            lo,
            λ k p q. elim (Bool-cases (ltb k ((i + j) / 2))) [
              | inl lt ↦ hi k p (ground arith)
              | inr ge ↦ mono ((i + j) / 2) k (ground arith) t
            ],
          )
    | inr t ↦
        let (a, b, lo, hi) =
          search_index-Splits n f ((i + j) / 2 + 1) j mono (ground arith) (ground arith) in
        rw (e, t, search_index)
          (
            ground arith,
            b,
            λ k p q. elim (Bool-cases (ltb ((i + j) / 2) k)) [
              | inl lt ↦ lo k (ground arith) q
              | inr ge ↦ elim (Bool-cases (f k)) [
                | inr fails ↦ fails
                | inl holds ↦ absurd (ground (arith, mono k ((i + j) / 2) (ground arith) holds))
              ]
            ],
            hi,
          )
  ]
]

All-at :
    (qp : QueuedPlayer) (low : ℤ) (xs : List QueuedPlayer) (b : ℕ)
    → All (λ y. low ≤ℤ y.mmr) xs
    → leb_ℤ qp.mmr low ≡ true
    → at_least qp xs b ≡ true
All-at qp low [] b h e = refl
All-at qp low (x ∷ xs) zero h e = ground arith
All-at qp low (x ∷ xs) (suc b) h e = All-at qp low xs b h.1 e

at_least_mono :
    (qp : QueuedPlayer) (xs : List QueuedPlayer)
    → IsSorted xs
    → (a b : ℕ) → a ≤ b
    → at_least qp xs a ≡ true
    → at_least qp xs b ≡ true
at_least_mono qp [] s a b le h = refl
at_least_mono qp (x ∷ xs) s zero zero le h = h
at_least_mono qp (x ∷ xs) s zero (suc b) le h = All-at qp x.mmr xs b s.0 h
at_least_mono qp (x ∷ xs) s (suc a) zero le h = absurd (omega arith)
at_least_mono qp (x ∷ xs) s (suc a) (suc b) le h = at_least_mono qp xs s.1 a b (omega arith) h

insert_at :
    (qp : QueuedPlayer) (xs : List QueuedPlayer) (r : ℕ)
    → Splits (at_least qp xs) 0 (length xs) r
    → take r xs ++ (qp ∷ drop r xs) ≡ insert qp xs
unfolding insert
insert_at qp [] zero h = refl
insert_at qp [] (suc r) h = refl
insert_at qp (x ∷ xs) zero h = ground (arith, h.3 0 (omega arith) (omega arith))
insert_at qp (x ∷ xs) (suc r) h =
    let below : leb_ℤ qp.mmr x.mmr ≡ false = h.2 0 (omega arith) (omega arith) in
    rw below (
      ap (◌∷◌ x) (
        insert_at qp xs r (
          omega arith,
          omega (arith, h.1),
          λ k a b. h.2 (suc k) (omega arith) (omega arith),
          λ k a b. h.3 (suc k) (omega arith) (omega arith),
        )))

-- On a sorted slice the binary search and the shift insert as the linear scan does.
pub insert_sorted-eq-insert :
    (grow : ℕ → ℕ → ℕ) (s : Slice) (qp : QueuedPlayer)
    → IsSorted s.items
    → (insert_sorted grow s qp).items ≡ insert qp s.items
unfolding insert_sorted
insert_sorted-eq-insert grow s qp h = insert_at qp s.items _ (
    search_index-Splits (suc (length s.items)) (at_least qp s.items) 0 (length s.items)
      (at_least_mono qp s.items h) (omega arith) (omega arith))

All-insert {κ} :
    (P : QueuedPlayer → Type κ) (qp : QueuedPlayer) (xs : List QueuedPlayer)
    → P qp
    → All P xs
    → All P (insert qp xs)
unfolding insert
All-insert P qp [] p h = (p, tt)
All-insert P qp (x ∷ xs) p h = elim (Bool-cases (leb_ℤ qp.mmr x.mmr)) [
  | inl e ↦ rw e (p, h)
  | inr e ↦ rw e (h.0, All-insert P qp xs p h.1)
]

pub insert-IsSorted :
    (qp : QueuedPlayer) (xs : List QueuedPlayer) → IsSorted xs → IsSorted (insert qp xs)
unfolding insert
insert-IsSorted qp [] h = (tt, tt)
insert-IsSorted qp (x ∷ xs) h = elim (Bool-cases (leb_ℤ qp.mmr x.mmr)) [
  | inl e ↦ rw e (
    (
      ground arith,
      All-map (λ y. x.mmr ≤ℤ y.mmr) (λ y. qp.mmr ≤ℤ y.mmr) xs (λ y p. ground arith) h.0,
    ),
    h,
  )
  | inr e ↦
      rw e (All-insert (λ y. x.mmr ≤ℤ y.mmr) qp xs (ground arith) h.0, insert-IsSorted qp xs h.1)
]

pub find_id-insert :
    (id : String) (qp : QueuedPlayer) (xs : List QueuedPlayer)
    → find_id qp.player_id xs ≡ none
    → find_id id (insert qp xs) ≡ (if qp.player_id == id then some qp else find_id id xs)
unfolding insert find_id
find_id-insert id qp [] h = refl
find_id-insert id qp (x ∷ xs) h = ground (
  arith,
  eq_iff qp.player_id id,
  eq_iff x.player_id id,
  eq_iff x.player_id qp.player_id,
  find_id-insert id qp xs,
)

pub insert-IdsDistinct :
    (qp : QueuedPlayer) (xs : List QueuedPlayer)
    → find_id qp.player_id xs ≡ none
    → IdsDistinct xs
    → IdsDistinct (insert qp xs)
unfolding insert find_id
insert-IdsDistinct qp [] h d = (refl, tt)
insert-IdsDistinct qp (x ∷ xs) h d = ground (
  arith,
  eq_iff qp.player_id x.player_id,
  eq_iff x.player_id qp.player_id,
  find_id-insert x.player_id qp xs,
  insert-IdsDistinct qp xs,
)

pub length-insert :
    (qp : QueuedPlayer) (xs : List QueuedPlayer) → length (insert qp xs) ≡ length xs + 1
unfolding insert
length-insert qp [] = omega arith
length-insert qp (x ∷ xs) = ground (arith, length-insert qp xs)
