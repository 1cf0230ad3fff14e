-- ===== src/Pool/Extract/Progress.antt =====
-- When ExtractMatch must find a match, and how far apart its players can be.
use mathlib.Core.List.Permᴰ
use fp_insis.Prelude.{
  subst, ℕ, zero, suc, ◌+◌, ◌/◌, ◌≤◌, ◌≡◌, refl, sym, ◌∙◌, ◌⊎◌, inl, inr, ◌≢◌, Bool, true, false,
  Option, none, some, List, [], ◌∷◌, ◌++◌, String, arith, ltb, length, length-append, get, Distinct,
  All, All-map, All-perm, if◌then◌else◌, ◌==◌, ==_refl, string_eq, int_eq, beq_ℤ_iff, ℤ, pos,
  negsuc, pos_part, neg_part, ◌+ℤ◌, ◌-ℤ◌, ◌≤ℤ◌, Permᴰ,
}
use fp_insis.Runtime.{Floats}
use fp_insis.Pool.{QueuedPlayer, Slice, Pool, bracket_key, players_per_match, slice_at}
use fp_insis.Pool.Slices.{find_id}
use fp_insis.Pool.Invariant.{IsValid}
use fp_insis.Pool.Extract.{Env, find_best, collect, candidates, select, extract_match}
use fp_insis.Pool.Extract.Collected.{IsQueued, nearby, among}
use fp_insis.Pool.Extract.Match.{best_bk, extract_cases, select-IsQueued}

abbrev Stored : List (ℤ × Slice) → ℤ × Slice → Type 0
Stored m e = get e.0 m ≡ some e.1

All-Stored : (m : List (ℤ × Slice)) → Distinct m → All (Stored m) m
unfolding get
All-Stored [] d = tt
All-Stored ((k, s) ∷ m) d = (
  ground (arith, beq_ℤ_iff k k),
  All-map (Stored m) (λ e. (if k == e.0 then some s else get e.0 m) ≡ some e.1) m
      (λ e h. ground (arith, beq_ℤ_iff k e.0)) (All-Stored m d.1),
)

-- What a scan of `es` that starts at `bk` with count `n` ends with: the length of the bracket that
-- it names, and no bracket is longer.
abbrev Best : List (ℤ × Slice) → List (ℤ × Slice) → ℤ → ℕ → ℤ × ℕ → Type 0
Best m es bk n (b, count) =
    (n ≤ count)
    × All (λ (e : ℤ × Slice). length e.1.items ≤ count) es
    × (((b ≡ bk) × (count ≡ n)) ⊎ ((s : Slice) × (get b m ≡ some s) × (length s.items ≡ count)))

Best-step :
    (m es : List (ℤ × Slice)) (k : ℤ) (s : Slice) (bk : ℤ) (n : ℕ) (r : ℤ × ℕ) (more : Bool)
    → ltb n (length s.items) ≡ more
    → get k m ≡ some s
    → Best m es (if more then k else bk) (if more then length s.items else n) r
    → Best m ((k, s) ∷ es) bk n r
Best-step m es k s bk n r true e here (le, all, inl (eb, ec)) =
    (ground arith, (le, all), inr (s, rw eb here, sym ec))
Best-step m es k s bk n r true e here (le, all, inr from) = (ground arith, (le, all), inr from)
Best-step m es k s bk n r false e here (le, all, from) = (le, (ground arith, all), from)

find_best_lem :
    (m es : List (ℤ × Slice)) (bk : ℤ) (n : ℕ)
    → All (Stored m) es
    → Best m es bk n (find_best es bk n)
unfolding find_best
find_best_lem m [] bk n h = (omega arith, tt, inl (refl, refl))
find_best_lem m ((k, s) ∷ es) bk n h =
    Best-step m es k s bk n _ (ltb n (length s.items)) refl h.0 (find_best_lem m es _ _ h.1)

collect_grows :
    (rounds delta : ℕ) (m : List (ℤ × Slice)) (bk : ℤ) (acc : List QueuedPlayer)
    → length acc ≤ length (collect rounds delta m bk acc)
unfolding collect
collect_grows zero delta m bk acc = omega arith
collect_grows (suc n) delta m bk acc =
    let above = acc ++ (slice_at m (bk +ℤ pos delta)).items in
    let below = above ++ (slice_at m (bk -ℤ pos delta)).items in
    ground (
      arith,
      length-append acc (slice_at m (bk +ℤ pos delta)).items,
      length-append above (slice_at m (bk -ℤ pos delta)).items,
      collect_grows n (suc delta) m bk (if ltb 0 delta then below else above),
    )

plus_zero : (k : ℤ) → k +ℤ pos 0 ≡ k
unfolding ◌+ℤ◌
plus_zero k = ground arith

-- The best bracket's own players are all candidates.
candidates_include :
    (p : Pool) (bk : ℤ) → length (slice_at p.brackets bk).items ≤ length (candidates p bk)
unfolding candidates
candidates_include p bk =
    subst (λ k. length (slice_at p.brackets k).items ≤ length (candidates p bk)) (plus_zero bk)
      (collect_grows 2 1 p.brackets bk (slice_at p.brackets (bk +ℤ pos 0)).items)

-- Brackets in use have keys of ratings, so none is the scan's initial -1.
bracket_key-nonneg : (mmr : ℤ) → bracket_key mmr ≢ negsuc 0
unfolding bracket_key
bracket_key-nonneg (pos n) = λ e. cc
bracket_key-nonneg (negsuc n) = λ e. cc

key_in_use : (p : Pool) → IsValid p → (s : Slice) → get (negsuc 0) p.brackets ≡ some s → ⊥
key_in_use p v s e = go s.items refl
  where
    go : (l : List QueuedPlayer) → s.items ≡ l → ⊥
    go [] h = v.nonempty (negsuc 0) s e (ground arith)
    go (x ∷ l) h =
        unfold find_id in
        ground (
          arith,
          v.filed (negsuc 0) x.player_id,
          ==_refl x.player_id,
          beq_ℤ_iff (bracket_key x.mmr) (negsuc 0),
          bracket_key-nonneg x.mmr,
        )

All-get :
    (k : ℤ) (s : Slice) (m : List (ℤ × Slice)) (n : ℕ)
    → get k m ≡ some s
    → All (λ (e : ℤ × Slice). length e.1.items ≤ n) m
    → length s.items ≤ n
unfolding get
All-get k s [] n e h = absurd (cc)
All-get k s ((j, t) ∷ m) n e h = ground (arith, All-get k s m n)

longest :
    (m es : List (ℤ × Slice)) (bk : ℤ) (n : ℕ) (r : ℤ × ℕ)
    → Permᴰ m es
    → Best m es bk n r
    → Best m m bk n r
longest m es bk n r perm (le, all, from) =
    (le, All-perm (λ (e : ℤ × Slice). length e.1.items ≤ r.1) (Permᴰ.symm perm) all, from)

module _ (fl : Floats) (env : Env) (p : Pool) (v : IsValid p) where
  -- The scan of the brackets, in whatever order, names a longest one.
  scan :
      Best p.brackets p.brackets (negsuc 0) 0 (find_best (env.range_order p.brackets) (negsuc 0) 0)
  scan =
      longest p.brackets (env.range_order p.brackets) (negsuc 0) 0 _
        (env.range_order-perm p.brackets)
        (find_best_lem p.brackets (env.range_order p.brackets) (negsuc 0) 0 (
          All-perm (Stored p.brackets) (env.range_order-perm p.brackets)
            (All-Stored p.brackets v.brackets_distinct)))

  best_is_long :
      (k : ℤ) (s : Slice)
      → get k p.brackets ≡ some s
      → players_per_match ≤ length s.items
      → (t : Slice) × (get (best_bk fl env p v) p.brackets ≡ some t)
        × (players_per_match ≤ length t.items)
  unfolding best_bk
  best_is_long k s e many = go scan
    where
      go :
          {r : ℤ × ℕ}
          → Best p.brackets p.brackets (negsuc 0) 0 r
          → (t : Slice) × (get r.0 p.brackets ≡ some t) × (players_per_match ≤ length t.items)
      go {r = r} (le, all, inl (eb, ec)) = absurd (omega (arith, All-get k s p.brackets r.1 e all))
      go {r = r} (le, all, inr (t, here, long)) =
          (t, here, omega (arith, All-get k s p.brackets r.1 e all))

  -- On a valid pool, if some bracket holds ten players, a match is found, whatever the map order and
  -- the sort.
  pub extract_full :
      (k : ℤ) (s : Slice)
      → get k p.brackets ≡ some s
      → players_per_match ≤ length s.items
      → (p' : Pool) × (sel : List QueuedPlayer) × (extract_match fl env p ≡ (p', some sel))
  extract_full k s e many =
      let (t, here, long) = best_is_long k s e many in
      elim (extract_cases fl env p v) [
        | inr (_, r) ↦ (_, _, r)
        | inl (inl few, r) ↦
            absurd (ground (arith, candidates_include p (best_bk fl env p v), here))
        | inl (inr unset, r) ↦ absurd (key_in_use p v t (rw (← unset) here))
      ]

  near_bounds :
      (bk : ℤ) (m : ℕ)
      → among (nearby p v bk) (pos m) ≡ true
      → (pos_part bk ≤ m + neg_part bk + 2) × (m + neg_part bk ≤ pos_part bk + 2)
  unfolding ◌+ℤ◌ ◌-ℤ◌
  near_bounds bk m h = ground arith

  near_mmr :
      (bk x : ℤ)
      → pos 0 ≤ℤ x
      → among (nearby p v bk) (bracket_key x) ≡ true
      → (pos_part bk ≤ pos_part x / 500 + neg_part bk + 2)
        × (pos_part x / 500 + neg_part bk ≤ pos_part bk + 2)
  unfolding bracket_key
  near_mmr bk (pos n) rated h = near_bounds bk (n / 500) h
  near_mmr bk (negsuc n) rated h = absurd (omega arith)

  abbrev Rated : ℤ → QueuedPlayer → Type 0
  Rated bk q = (pos 0 ≤ℤ q.mmr) × (among (nearby p v bk) (bracket_key q.mmr) ≡ true)

  near_spread :
      (bk : ℤ) (a b : QueuedPlayer)
      → Rated bk a
      → Rated bk b
      → pos_part b.mmr ≤ pos_part a.mmr + 2499
  near_spread bk a b ha hb = omega (arith, near_mmr bk a.mmr ha.0 ha.1, near_mmr bk b.mmr hb.0 hb.1)

  -- On a valid pool where no queued rating is negative, two players of one match are less than 2500 points apart.
  pub extract_spread :
      ((id : String) (q : QueuedPlayer) → get id p.players ≡ some q → pos 0 ≤ℤ q.mmr)
      → (p' : Pool) (sel : List QueuedPlayer) → extract_match fl env p ≡ (p', some sel)
      → All (λ a. All (λ b. pos_part b.mmr ≤ pos_part a.mmr + 2499) sel) sel
  extract_spread rated p' sel e = elim (extract_cases fl env p v) [
    | inl (_, r) ↦ absurd (cc)
    | inr (many, r) ↦ subst Close (sym r ∙ e) (close many)
  ]
    where
      Close : Pool × Option (List QueuedPlayer) → Type 0
      Close (q, none) = Unit
      Close (q, some l) = All (λ a. All (λ b. pos_part b.mmr ≤ pos_part a.mmr + 2499) l) l

      bk : ℤ
      bk = best_bk fl env p v

      l : List QueuedPlayer
      l = select fl env (candidates p bk)

      close :
          players_per_match ≤ length (candidates p bk)
          → All (λ a. All (λ b. pos_part b.mmr ≤ pos_part a.mmr + 2499) l) l
      close many =
          let all : All (Rated bk) l =
            All-map (IsQueued p (nearby p v bk)) (Rated bk) l
              (λ q h. (rated q.player_id q h.0, h.1)) (select-IsQueued fl env p v bk many) in
          All-map (Rated bk) (λ a. All (λ b. pos_part b.mmr ≤ pos_part a.mmr + 2499) l) l
            (λ a ha.
              All-map (Rated bk) (λ b. pos_part b.mmr ≤ pos_part a.mmr + 2499) l
                (λ b hb. near_spread bk a b ha hb) all)
            all
