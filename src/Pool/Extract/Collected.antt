-- ===== src/Pool/Extract/Collected.antt =====
-- The candidates of ExtractMatch: who is among them, and that nobody is there twice.
use fp_insis.Prelude.{
  ◌≡◌, refl, Bool, true, false, ◌||◌, Option, none, some, List, [], ◌∷◌, ◌++◌, String, arith, get,
  All, All-map, if◌then◌else◌, ◌==◌, ==_refl, string_eq, int_eq, beq_ℤ_iff, ℤ, pos, ◌+ℤ◌, ◌-ℤ◌,
  Permᴰ,
}
use text.Mathlib.TextEquality.{eq_iff}
use fp_insis.Pool.{QueuedPlayer, Pool, bracket_key, slice_at}
use fp_insis.Pool.Slices.{IdsDistinct, find_id}
use fp_insis.Pool.Invariant.{IsValid}
use fp_insis.Pool.Extract.{candidates}

pub find_id_member :
    (xs : List QueuedPlayer) → IdsDistinct xs → All (λ x. find_id x.player_id xs ≡ some x) xs
unfolding find_id
find_id_member [] d = tt
find_id_member (x ∷ xs) d = (
  rw ==_refl,
  All-map (λ y. find_id y.player_id xs ≡ some y)
      (λ y. (if x.player_id == y.player_id then some x else find_id y.player_id xs) ≡ some y) xs
      (λ y h. ground (arith, eq_iff x.player_id y.player_id)) (find_id_member xs d.1),
)

find_id-append :
    (id : String) (xs ys : List QueuedPlayer)
    → find_id id (xs ++ ys) ≡ elim (find_id id xs) [ none ↦ find_id id ys | some q ↦ some q ]
unfolding find_id
find_id-append id [] ys = refl
find_id-append id (x ∷ xs) ys = ground (arith, find_id-append id xs ys)

pub IdsDistinct-append :
    (xs ys : List QueuedPlayer)
    → IdsDistinct xs
    → IdsDistinct ys
    → All (λ x. find_id x.player_id ys ≡ none) xs
    → IdsDistinct (xs ++ ys)
IdsDistinct-append [] ys dx dy h = dy
IdsDistinct-append (x ∷ xs) ys dx dy h =
    (ground (arith, find_id-append x.player_id xs ys), IdsDistinct-append xs ys dx.1 dy h.1)

absent-perm :
    (id : String) {xs ys : List QueuedPlayer}
    → Permᴰ xs ys
    → find_id id xs ≡ none
    → find_id id ys ≡ none
unfolding find_id
absent-perm id Permᴰ.nil h = h
absent-perm id (Permᴰ.cons {a = x} {b = y} e p) h = ground (arith, absent-perm id p)
absent-perm id (Permᴰ.swap e f) h = ground arith
absent-perm id (Permᴰ.trans p q) h = absent-perm id q (absent-perm id p h)

pub IdsDistinct-perm : {xs ys : List QueuedPlayer} → Permᴰ xs ys → IdsDistinct xs → IdsDistinct ys
unfolding find_id
IdsDistinct-perm Permᴰ.nil d = d
IdsDistinct-perm (Permᴰ.cons {a = x} {b = y} e p) d =
    (ground (arith, absent-perm x.player_id p d.0), IdsDistinct-perm p d.1)
IdsDistinct-perm (Permᴰ.swap {a = a} {b = b} {a' = c} {b' = d'} e f) d =
    ground (arith, eq_iff a.player_id b.player_id, eq_iff b.player_id a.player_id)
IdsDistinct-perm (Permᴰ.trans p q) d = IdsDistinct-perm q (IdsDistinct-perm p d)

-- The key is one of the list.
abbrev pub among : List ℤ → ℤ → Bool
among [] k = false
among (j ∷ js) k = k == j || among js k

abbrev in_brackets : List ℤ → Option QueuedPlayer → Option QueuedPlayer
in_brackets ks none = none
in_brackets ks (some q) = if among ks (bracket_key q.mmr) then some q else none

-- The list holds the pool's players of these brackets, each once.
record Collected (p : Pool) (ks : List ℤ) (acc : List QueuedPlayer) : Type 0 where
  distinct : IdsDistinct acc
  finds : (id : String) → find_id id acc ≡ in_brackets ks (get id p.players)

-- What a listed player is in the pool.
abbrev pub IsQueued : Pool → List ℤ → QueuedPlayer → Type 0
IsQueued p ks q = (get q.player_id p.players ≡ some q) × (among ks (bracket_key q.mmr) ≡ true)

module _ (p : Pool) (v : IsValid p) where
  Collected-members :
      (ks : List ℤ) (acc : List QueuedPlayer) → Collected p ks acc → All (IsQueued p ks) acc
  Collected-members ks acc c =
      All-map (λ x. find_id x.player_id acc ≡ some x) (IsQueued p ks) acc
        (λ x h. ground (arith, c.finds x.player_id)) (find_id_member acc c.distinct)

  collect_slice :
      (ks : List ℤ) (k : ℤ) (acc : List QueuedPlayer)
      → among ks k ≡ false
      → Collected p ks acc
      → Collected p (k ∷ ks) (acc ++ (slice_at p.brackets k).items)
  collect_slice ks k acc new c = record {
    distinct = IdsDistinct-append acc (slice_at p.brackets k).items c.distinct (v.tidy k).distinct (
        All-map (IsQueued p ks) (λ x. find_id x.player_id (slice_at p.brackets k).items ≡ none) acc
          (λ x h. ground (arith, v.filed k x.player_id, beq_ℤ_iff (bracket_key x.mmr) k))
          (Collected-members ks acc c));
    finds = λ id.
        ground
          (arith, find_id-append id acc (slice_at p.brackets k).items, c.finds id, v.filed k id);
  }

  abbrev pub nearby : ℤ → List ℤ
  nearby bk = (bk -ℤ pos 2) ∷ (bk +ℤ pos 2) ∷ (bk -ℤ pos 1) ∷ (bk +ℤ pos 1) ∷ (bk +ℤ pos 0) ∷ []

  pub candidates_members :
      (bk : ℤ) → IdsDistinct (candidates p bk) × All (IsQueued p (nearby bk)) (candidates p bk)
  unfolding candidates
  candidates_members bk = (all.distinct, Collected-members (nearby bk) (candidates p bk) all)
    where
      all : Collected p (nearby bk) (candidates p bk)
      all = collect_slice _ (bk -ℤ pos 2) _ (unfold ◌+ℤ◌ ◌-ℤ◌ in ground arith) (
          collect_slice _ (bk +ℤ pos 2) _ (unfold ◌+ℤ◌ ◌-ℤ◌ in ground arith) (
            collect_slice _ (bk -ℤ pos 1) _ (unfold ◌+ℤ◌ ◌-ℤ◌ in ground arith) (
              collect_slice _ (bk +ℤ pos 1) _ (unfold ◌+ℤ◌ ◌-ℤ◌ in ground arith) (
                collect_slice [] (bk +ℤ pos 0) [] refl
                  (record { distinct = tt; finds = λ id. unfold find_id in ground arith })))))
