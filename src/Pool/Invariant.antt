-- ===== src/Pool/Invariant.antt =====
-- The invariant that internal/state/pool.go states above `mu`, and what adding and removing one
-- player do to the index and to the brackets.
use fp_insis.Prelude.{
  ℕ, ◌+◌, ◌≤◌, ◌≡◌, refl, inl, inr, ◌≢◌, Option, none, some, List, [], ◌∷◌, String, arith, length,
  get, put, delete, Distinct, get-put, get-delete, put-Distinct, delete-Distinct, length-put_new,
  length-delete, if◌then◌else◌, ◌==◌, string_eq, int_eq, beq_ℤ_iff, ℤ, Bool-cases, nat_beq,
}
use text.Mathlib.TextEquality.{eq_iff}
use fp_insis.Pool.{
  QueuedPlayer, Slice, Pool, new_pool, bracket_key, insert_sorted, remove_from_slice, slice_at,
  keep_slice, add_player, remove_player,
}
use fp_insis.Pool.Slices.{
  IsSorted, IdsDistinct, find_id, insert_sorted-eq-insert, insert-IsSorted, insert-IdsDistinct,
  find_id-insert, length-insert,
}
use fp_insis.Pool.Removal.{
  remove_id-IsSorted, remove_id-IdsDistinct, find_id-remove_id, length-remove_id,
  items-remove_from_slice, has_id-find_id,
}

-- Sorted by rating, no player twice, and within its array.
pub record IsTidy (s : Slice) : Type 0 where
  pub sorted : IsSorted s.items
  pub distinct : IdsDistinct s.items
  pub fits : length s.items ≤ s.cap

-- A player, if the rating is in this bracket.
abbrev pub in_bracket : ℤ → Option QueuedPlayer → Option QueuedPlayer
in_bracket k none = none
in_bracket k (some q) = if bracket_key q.mmr == k then some q else none

pub total : List (ℤ × Slice) → ℕ
total [] = 0
total ((k, s) ∷ m) = length s.items + total m

-- Every player of the index stands in exactly one bracket, that of the rating, and in none else.
pub record IsValid (p : Pool) : Type 0 where
  pub players_distinct : Distinct p.players
  pub brackets_distinct : Distinct p.brackets
  pub keyed : (id : String) (q : QueuedPlayer) → get id p.players ≡ some q → q.player_id ≡ id
  pub filed :
      (k : ℤ) (id : String)
      → find_id id (slice_at p.brackets k).items ≡ in_bracket k (get id p.players)
  pub tidy : (k : ℤ) → IsTidy (slice_at p.brackets k)
  pub nonempty : (k : ℤ) (s : Slice) → get k p.brackets ≡ some s → length s.items ≢ 0
  pub counted : length p.players ≡ total p.brackets

pub new_pool-IsValid : IsValid new_pool
unfolding get find_id total
new_pool-IsValid = record {
  players_distinct = tt;
  brackets_distinct = tt;
  keyed = λ id q e. absurd (ground arith);
  filed = λ k id. refl;
  tidy = λ k. record { sorted = tt; distinct = tt; fits = omega arith };
  nonempty = λ k s e. absurd (ground arith);
  counted = refl;
}

slice_at-put :
    (k j : ℤ) (s : Slice) (m : List (ℤ × Slice))
    → slice_at (put k s m) j ≡ (if k == j then s else slice_at m j)
slice_at-put k j s m = ground (arith, get-put k j s m)

total-put :
    (k : ℤ) (s : Slice) (m : List (ℤ × Slice))
    → total (put k s m) + length (slice_at m k).items ≡ total m + length s.items
unfolding total put get
total-put k s [] = omega arith
total-put k s ((j, t) ∷ m) = ground (arith, total-put k s m)

total-delete_absent : (k : ℤ) (m : List (ℤ × Slice)) → get k m ≡ none → total (delete k m) ≡ total m
unfolding total delete get
total-delete_absent k [] e = refl
total-delete_absent k ((j, t) ∷ m) e = ground (arith, total-delete_absent k m)

total-delete :
    (k : ℤ) (m : List (ℤ × Slice))
    → Distinct m
    → total (delete k m) + length (slice_at m k).items ≡ total m
unfolding total delete get
total-delete k [] d = omega arith
total-delete k ((j, t) ∷ m) d =
    ground (arith, total-delete k m d.1, total-delete_absent k m, beq_ℤ_iff j k)

length_zero : (xs : List QueuedPlayer) → length xs ≡ 0 → xs ≡ []
length_zero [] h = refl
length_zero (x ∷ xs) h = absurd (omega arith)

-- What a store into the brackets shows at each key, deleted or not.
keep_slice_items :
    (k j : ℤ) (s : Slice) (m : List (ℤ × Slice))
    → (slice_at (keep_slice k s m) j).items ≡ (if k == j then s.items else (slice_at m j).items)
keep_slice_items k j s m =
    ground (arith, get-put k j s m, get-delete k j (put k s m), length_zero s.items)

keep_slice-IsTidy :
    (k j : ℤ) (s : Slice) (m : List (ℤ × Slice))
    → IsTidy s
    → IsTidy (slice_at m j)
    → IsTidy (slice_at (keep_slice k s m) j)
keep_slice-IsTidy k j s m hs hm = elim (Bool-cases (k == j)) [
  | inl e ↦ elim (Bool-cases (nat_beq (length s.items) 0)) [
    | inl z ↦
        rw (z, get-delete, e, slice_at) (record { sorted = tt; distinct = tt; fits = omega arith })
    | inr z ↦ rw (z, get-put, e, slice_at) hs
  ]
  | inr e ↦ elim (Bool-cases (nat_beq (length s.items) 0)) [
    | inl z ↦ rw (z, get-delete, e, get-put, e, slice_at) hm
    | inr z ↦ rw (z, get-put, e, slice_at) hm
  ]
]

-- The lengths that a store leaves: the slice that was there gives way to the new one.
total-keep_slice :
    (k : ℤ) (s : Slice) (m : List (ℤ × Slice))
    → Distinct m
    → total (keep_slice k s m) + length (slice_at m k).items ≡ total m + length s.items
total-keep_slice k s m d = ground (
  arith,
  total-put k s m,
  total-delete k (put k s m) (put-Distinct k s m d),
  get-put k k s m,
  beq_ℤ_iff k k,
)

keep_slice_nonempty :
    (k j : ℤ) (s t : Slice) (m : List (ℤ × Slice))
    → (get j m ≡ some t → length t.items ≢ 0)
    → get j (keep_slice k s m) ≡ some t
    → length t.items ≢ 0
keep_slice_nonempty k j s t m old e = elim (Bool-cases (k == j)) [
  | inl same ↦ λ z. ground (arith, get-put k j s m, get-delete k j (put k s m))
  | inr other ↦ old (ground (arith, get-put k j s m, get-delete k j (put k s m)))
]

keep_slice-Distinct :
    (k : ℤ) (s : Slice) (m : List (ℤ × Slice)) → Distinct m → Distinct (keep_slice k s m)
keep_slice-Distinct k s m d = elim (Bool-cases (nat_beq (length s.items) 0)) [
  | inl z ↦ rw z (delete-Distinct k (put k s m) (put-Distinct k s m d))
  | inr z ↦ rw z (put-Distinct k s m d)
]

module _ (grow : ℕ → ℕ → ℕ) (grow_fits : (c n : ℕ) → n ≤ grow c n) where
  insert_sorted-IsTidy :
      (s : Slice) (qp : QueuedPlayer)
      → IsTidy s
      → find_id qp.player_id s.items ≡ none
      → IsTidy (insert_sorted grow s qp)
  insert_sorted-IsTidy s qp h new = record {
    sorted = rw (insert_sorted-eq-insert grow s qp h.sorted) (insert-IsSorted qp s.items h.sorted);
    distinct =
        rw (insert_sorted-eq-insert grow s qp h.sorted)
          (insert-IdsDistinct qp s.items new h.distinct);
    fits = rw (insert_sorted-eq-insert grow s qp h.sorted) (
        unfold insert_sorted in
        ground (arith, length-insert qp s.items, h.fits, grow_fits s.cap (length s.items + 1)));
  }

  -- Adding a player who is not queued keeps the invariant.
  pub add_player-IsValid :
      (p : Pool) (qp : QueuedPlayer)
      → get qp.player_id p.players ≡ none
      → IsValid p
      → IsValid (add_player grow p qp)
  unfolding add_player
  add_player-IsValid p qp new v = record {
    players_distinct = put-Distinct qp.player_id qp p.players v.players_distinct;
    brackets_distinct = put-Distinct bk added p.brackets v.brackets_distinct;
    keyed = λ id q e.
        ground (arith, get-put qp.player_id id qp p.players, v.keyed id q, eq_iff qp.player_id id);
    filed = λ k id. ground (
      arith,
      slice_at-put bk k added p.brackets,
      get-put qp.player_id id qp p.players,
      insert_sorted-eq-insert grow old qp (v.tidy bk).sorted,
      find_id-insert id qp old.items absent,
      v.filed k id,
      eq_iff qp.player_id id,
      beq_ℤ_iff bk k,
    );
    tidy = λ k. elim (Bool-cases (bk == k)) [
      | inl e ↦
          rw (slice_at-put bk k added p.brackets, e)
            (insert_sorted-IsTidy old qp (v.tidy bk) absent)
      | inr e ↦ rw (slice_at-put bk k added p.brackets, e) (v.tidy k)
    ];
    nonempty = λ k s e z. ground (
      arith,
      get-put bk k added p.brackets,
      v.nonempty k s,
      length-insert qp old.items,
      insert_sorted-eq-insert grow old qp (v.tidy bk).sorted,
    );
    counted = ground (
      arith,
      length-put_new qp.player_id qp p.players new,
      total-put bk added p.brackets,
      insert_sorted-eq-insert grow old qp (v.tidy bk).sorted,
      length-insert qp old.items,
      v.counted,
    );
  }
    where
      bk : ℤ
      bk = bracket_key qp.mmr

      old : Slice
      old = slice_at p.brackets bk

      added : Slice
      added = insert_sorted grow old qp

      absent : find_id qp.player_id old.items ≡ none
      absent = ground (arith, v.filed bk qp.player_id)

remove_from_slice-IsTidy : (s : Slice) (id : String) → IsTidy s → IsTidy (remove_from_slice s id)
remove_from_slice-IsTidy s id h = record {
  sorted = rw items-remove_from_slice (remove_id-IsSorted id s.items h.sorted);
  distinct = rw items-remove_from_slice (remove_id-IdsDistinct id s.items h.distinct);
  fits = unfold remove_from_slice in ground (arith, length-remove_id id s.items, h.fits);
}

-- Removing a queued player keeps the invariant.
pub remove_player-IsValid :
    (id : String) (qp : QueuedPlayer) (p : Pool)
    → get id p.players ≡ some qp
    → IsValid p
    → IsValid (remove_player id qp p)
unfolding remove_player
remove_player-IsValid id qp p here v = record {
  players_distinct = delete-Distinct id p.players v.players_distinct;
  brackets_distinct = keep_slice-Distinct bk less p.brackets v.brackets_distinct;
  keyed = λ j q e. ground (arith, get-delete id j p.players, v.keyed j q);
  filed = λ k j. rw keep_slice_items (
      ground (
        arith,
        get-delete id j p.players,
        items-remove_from_slice old id,
        find_id-remove_id j id old.items (v.tidy bk).distinct,
        v.filed k j,
        eq_iff id j,
        beq_ℤ_iff bk k,
      ));
  tidy = λ k.
      keep_slice-IsTidy bk k less p.brackets (remove_from_slice-IsTidy old id (v.tidy bk))
        (v.tidy k);
  nonempty = λ k s e. keep_slice_nonempty bk k less s p.brackets (v.nonempty k s) e;
  counted = omega (
    arith,
    length-delete id qp p.players v.players_distinct here,
    total-keep_slice bk less p.brackets v.brackets_distinct,
    v.counted,
    shorter,
  );
}
  where
    bk : ℤ
    bk = bracket_key qp.mmr

    old : Slice
    old = slice_at p.brackets bk

    less : Slice
    less = remove_from_slice old id

    shorter : length less.items + 1 ≡ length old.items
    shorter = rw items-remove_from_slice (
        length-remove_id id old.items
          (ground (arith, has_id-find_id id old.items, v.filed bk id, beq_ℤ_iff bk bk)))
