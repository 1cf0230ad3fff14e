-- ===== src/Pool/Removal.antt =====
-- removeFromSlice of internal/state/pool.go.
use fp_insis.Prelude.{
  ◌+◌, ◌/◌, ◌≤◌, ◌≡◌, refl, ◌⊎◌, inl, inr, true, false, none, some, List, [], ◌∷◌, ◌++◌, String,
  arith, length, All, if◌then◌else◌, ◌==◌, string_eq, ◌≤ℤ◌, Bool-cases,
}
use text.Mathlib.TextEquality.{eq_iff}
use fp_insis.Pool.{QueuedPlayer, Slice, remove_id, has_id, remove_from_slice}
use fp_insis.Pool.Slices.{IsSorted, find_id, IdsDistinct}

-- Removal. All that a client sees of the items is that the id is gone.
All-remove_id {κ} :
    (P : QueuedPlayer → Type κ) (id : String) (xs : List QueuedPlayer)
    → All P xs
    → All P (remove_id id xs)
unfolding remove_id
All-remove_id P id [] h = tt
All-remove_id P id (x ∷ xs) h = elim (Bool-cases (x.player_id == id)) [
  | inl e ↦ rw e h.1
  | inr e ↦ rw e (h.0, All-remove_id P id xs h.1)
]

pub remove_id-IsSorted :
    (id : String) (xs : List QueuedPlayer) → IsSorted xs → IsSorted (remove_id id xs)
unfolding remove_id
remove_id-IsSorted id [] h = tt
remove_id-IsSorted id (x ∷ xs) h = elim (Bool-cases (x.player_id == id)) [
  | inl e ↦ rw e h.1
  | inr e ↦ rw e (All-remove_id (λ y. x.mmr ≤ℤ y.mmr) id xs h.0, remove_id-IsSorted id xs h.1)
]

pub find_id-remove_id :
    (j id : String) (xs : List QueuedPlayer)
    → IdsDistinct xs
    → find_id j (remove_id id xs) ≡ (if id == j then none else find_id j xs)
unfolding remove_id find_id
find_id-remove_id j id [] d = ground arith
find_id-remove_id j id (x ∷ xs) d =
    ground (
      arith,
      eq_iff id j,
      eq_iff x.player_id id,
      eq_iff x.player_id j,
      find_id-remove_id j id xs d.1,
    )

pub remove_id-IdsDistinct :
    (id : String) (xs : List QueuedPlayer) → IdsDistinct xs → IdsDistinct (remove_id id xs)
unfolding remove_id find_id
remove_id-IdsDistinct id [] d = tt
remove_id-IdsDistinct id (x ∷ xs) d = ground (
  arith,
  eq_iff x.player_id id,
  eq_iff id x.player_id,
  find_id-remove_id x.player_id id xs d.1,
  remove_id-IdsDistinct id xs d.1,
)

pub has_id-find_id :
    (id : String) (xs : List QueuedPlayer)
    → has_id id xs ≡ elim (find_id id xs) [ none ↦ false | some _ ↦ true ]
unfolding has_id find_id
has_id-find_id id [] = refl
has_id-find_id id (x ∷ xs) = ground (arith, has_id-find_id id xs)

pub length-remove_id :
    (id : String) (xs : List QueuedPlayer)
    → has_id id xs ≡ true
    → length (remove_id id xs) + 1 ≡ length xs
unfolding has_id remove_id
length-remove_id id [] h = absurd (ground arith)
length-remove_id id (x ∷ xs) h = ground (arith, length-remove_id id xs)

remove_id_absent :
    (id : String) (xs : List QueuedPlayer) → has_id id xs ≡ false → remove_id id xs ≡ xs
unfolding has_id remove_id
remove_id_absent id [] h = refl
remove_id_absent id (x ∷ xs) h = ground (arith, remove_id_absent id xs)

pub items-remove_from_slice :
    (s : Slice) (id : String) → (remove_from_slice s id).items ≡ remove_id id s.items
unfolding remove_from_slice
items-remove_from_slice s id = ground (arith, remove_id_absent id s.items)

-- After a removal from a slice that fits its array, it still fits, and the array is at most four
-- times its length and some, unless the slice is empty.
remove_from_slice_cap :
    (s : Slice) (id : String)
    → length s.items ≤ s.cap
    → has_id id s.items ≡ true
    → let t = remove_from_slice s id in
      (length t.items ≤ t.cap) × ((length t.items ≡ 0) ⊎ (t.cap / 4 ≤ length t.items))
unfolding remove_from_slice
remove_from_slice_cap s id fits h = ground (arith, length-remove_id id s.items h)

pub has_id-nil : (id : String) → has_id id [] ≡ false
unfolding has_id
has_id-nil id = refl

pub has_id-append :
    (id : String) (xs ys : List QueuedPlayer)
    → has_id id (xs ++ ys) ≡ (if has_id id xs then true else has_id id ys)
unfolding has_id
has_id-append id [] ys = refl
has_id-append id (x ∷ xs) ys = ground (arith, has_id-append id xs ys)
