-- ===== src/Pool/Extract/Match.antt =====
-- What ExtractMatch returns and leaves behind, and when it must find a match.
use fp_insis.Prelude.{
  subst, ℕ, zero, suc, ◌+◌, ◌≤◌, ◌<◌, ◌≡◌, refl, sym, ◌∙◌, ◌⊎◌, inl, inr, Option, none, some, List,
  [], ◌∷◌, String, arith, ltb, length, get, All, All-map, All-perm, length-perm, if◌then◌else◌,
  ◌==◌, string_eq, int_eq, beq_ℤ_iff, ℤ, negsuc, ◌≤ℤ◌, Bool-cases, Permᴰ, take, drop,
}
use fp_insis.Runtime.{Floats}
use fp_insis.Pool.{QueuedPlayer, Pool, players_per_match, has_id, size}
use fp_insis.Pool.Slices.{IsSorted, IdsDistinct}
use fp_insis.Pool.Invariant.{IsValid}
use fp_insis.Pool.Extract.{
  Env, find_best, candidates, rated_below, best_start, select, remove_all, extract_match,
}
use fp_insis.Pool.Extract.Collected.{candidates_members, IdsDistinct-perm, IsQueued, nearby}
use fp_insis.Pool.Extract.Removal.{remove_all-IsValid, get-remove_all, size-remove_all}
use fp_insis.Pool.Extract.Window.{
  length-window, window-IdsDistinct, window-All, best_start_in_range,
}

All-take_sorted :
    (n : ℕ) (x : QueuedPlayer) (xs : List QueuedPlayer)
    → All (λ y. x.mmr ≤ℤ y.mmr) xs
    → All (λ y. x.mmr ≤ℤ y.mmr) (take n xs)
All-take_sorted zero x xs h = tt
All-take_sorted (suc n) x [] h = tt
All-take_sorted (suc n) x (y ∷ xs) h = (h.0, All-take_sorted n x xs h.1)

take-IsSorted : (n : ℕ) (xs : List QueuedPlayer) → IsSorted xs → IsSorted (take n xs)
take-IsSorted zero xs s = tt
take-IsSorted (suc n) [] s = tt
take-IsSorted (suc n) (x ∷ xs) s = (All-take_sorted n x xs s.0, take-IsSorted n xs s.1)

drop-IsSorted : (n : ℕ) (xs : List QueuedPlayer) → IsSorted xs → IsSorted (drop n xs)
drop-IsSorted zero xs s = s
drop-IsSorted (suc n) [] s = s
drop-IsSorted (suc n) (x ∷ xs) s = drop-IsSorted n xs s.1

-- What it is to be a match taken from a pool.
pub record IsMatch (p : Pool) (sel : List QueuedPlayer) : Type 0 where
  pub full : length sel ≡ players_per_match
  pub distinct : IdsDistinct sel
  pub sorted : IsSorted sel
  pub queued : All (λ q. get q.player_id p.players ≡ some q) sel

module _ (fl : Floats) (env : Env) (p : Pool) (v : IsValid p) where
  unfoldable pub best_bk : ℤ
  best_bk = (find_best (env.range_order p.brackets) (negsuc 0) 0).0

  module _ (bk : ℤ) (enough : players_per_match ≤ length (candidates p bk)) where
    chosen : List QueuedPlayer
    chosen = env.sort_slice rated_below (candidates p bk)

    shuffled : Permᴰ (candidates p bk) chosen
    unfolding chosen
    shuffled = env.sort_slice-perm rated_below (candidates p bk)

    in_range : best_start fl env chosen + players_per_match ≤ length chosen
    in_range = best_start_in_range fl env chosen (omega (arith, length-perm shuffled))

    pub select-IsQueued : All (IsQueued p (nearby p v bk)) (select fl env (candidates p bk))
    unfolding select chosen
    select-IsQueued =
        window-All (IsQueued p (nearby p v bk)) chosen (best_start fl env chosen)
          (All-perm (IsQueued p (nearby p v bk)) shuffled (candidates_members p v bk).1)

    select-IsMatch : IsMatch p (select fl env (candidates p bk))
    unfolding select chosen
    select-IsMatch = record {
      full = length-window chosen (best_start fl env chosen) in_range;
      distinct =
          window-IdsDistinct chosen (best_start fl env chosen)
            (IdsDistinct-perm shuffled (candidates_members p v bk).0);
      sorted = take-IsSorted players_per_match _ (
          drop-IsSorted (best_start fl env chosen) chosen
            (env.sort_slice-IsSorted (candidates p bk)));
      queued =
          All-map (IsQueued p (nearby p v bk)) (λ q. get q.player_id p.players ≡ some q) _
            (λ q h. h.0) select-IsQueued;
    }

  -- The two ways that the call can end.
  pub extract_cases :
      ((length (candidates p best_bk) < players_per_match) ⊎ (best_bk ≡ negsuc 0))
        × (extract_match fl env p ≡ (p, none))
      ⊎ (players_per_match ≤ length (candidates p best_bk))
        × (extract_match fl env p ≡ (
          remove_all (select fl env (candidates p best_bk)) p,
          some (select fl env (candidates p best_bk)),
        ))
  unfolding extract_match best_bk
  extract_cases = elim (Bool-cases (best_bk == negsuc 0)) [
    | inl e ↦ inl (inr ((beq_ℤ_iff best_bk (negsuc 0)).0 e), rw (e, extract_match) refl)
    | inr e ↦ elim (Bool-cases (ltb (length (candidates p best_bk)) players_per_match)) [
      | inl few ↦ inl (inl (ground arith), rw (e, few, extract_match) refl)
      | inr many ↦ inr (ground arith, rw (e, many, extract_match) refl)
    ]
  ]

  -- A match that a call on a valid pool returns is ten different queued players in order of rating.
  -- They leave the pool, which stays valid and ten smaller, and nobody else does.
  pub extract_some :
      (p' : Pool) (sel : List QueuedPlayer)
      → extract_match fl env p ≡ (p', some sel)
      → IsMatch p sel
        × IsValid p'
        × (size p' + players_per_match ≡ size p)
        × ((j : String) → get j p'.players ≡ (if has_id j sel then none else get j p.players))
  extract_some p' sel e = elim extract_cases [
    | inl (_, r) ↦ absurd (cc)
    | inr (many, r) ↦
        subst (λ (x : Pool × Option (List QueuedPlayer)). Taken x) (sym r ∙ e)
          (removed (select fl env (candidates p best_bk)) (select-IsMatch best_bk many))
  ]
    where
      Taken : Pool × Option (List QueuedPlayer) → Type 0
      Taken (q, none) = Unit
      Taken (q, some l) =
          IsMatch p l
          × IsValid q
          × (size q + players_per_match ≡ size p)
          × ((j : String) → get j q.players ≡ (if has_id j l then none else get j p.players))

      removed :
          (l : List QueuedPlayer)
          → IsMatch p l
          → IsMatch p l
            × IsValid (remove_all l p)
            × (size (remove_all l p) + players_per_match ≡ size p)
            × ((j : String)
                → get j (remove_all l p).players ≡ (if has_id j l then none else get j p.players))
      removed l m = (
        m,
        remove_all-IsValid l p m.distinct m.queued v,
        omega (arith, size-remove_all l p m.distinct m.queued v, m.full),
        λ j. get-remove_all j l p,
      )

  -- On a valid pool, a call that finds no match changes nothing.
  pub extract_none : (p' : Pool) → extract_match fl env p ≡ (p', none) → p' ≡ p
  extract_none p' e = elim extract_cases [ inl (_, r) ↦ cc | inr (_, r) ↦ absurd (cc) ]
