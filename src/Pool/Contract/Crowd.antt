-- ===== src/Pool/Contract/Crowd.antt =====
-- Ten players in one bracket are enough for a draw; the size is the number of players.
use fp_insis.Prelude.{
  ◌≤◌, ◌<◌, ◌≡◌, refl, ◌∙◌, ap, ◌≢◌, inl, inr, true, none, some, List, [], ◌∷◌, String, arith,
  length, get, Distinct, All, All-map, ==_refl, string_eq, int_eq, beq_ℤ_iff, ℤ, Option-cases, map,
  length-map,
}
use native.Mathlib.Decide.{dec_lt}
use text.Mathlib.TextEquality.{eq_iff}
use fp_insis.Runtime.{Floats}
use fp_insis.Pool.{QueuedPlayer, Pool, bracket_key, players_per_match, has_id, remove_id, slice_at}
use fp_insis.Pool.Slices.{find_id, IdsDistinct}
use fp_insis.Pool.Removal.{
  remove_id-IdsDistinct, find_id-remove_id, length-remove_id, has_id-find_id,
}
use fp_insis.Pool.Invariant.{IsValid}
use fp_insis.Pool.Extract.{Env, extract_match}
use fp_insis.Pool.Extract.Progress.{extract_full}
use fp_insis.Pool.Contract.{view}

still_there :
    (id : String) (xs ys : List QueuedPlayer)
    → IdsDistinct ys
    → find_id id xs ≡ none
    → All (λ x. find_id x.player_id ys ≢ none) xs
    → All (λ x. find_id x.player_id (remove_id id ys) ≢ none) xs
unfolding find_id
still_there id [] ys d e h = tt
still_there id (x ∷ xs) ys d e h = (
  λ n. h.0 (
      ground (
        arith,
        find_id-remove_id x.player_id id ys d,
        eq_iff id x.player_id,
        eq_iff x.player_id id,
      )),
  still_there id xs ys d (ground arith) h.1,
)

-- Different players who all stand in a list are not more than the list has.
pub length-contained :
    (xs ys : List QueuedPlayer)
    → IdsDistinct xs
    → IdsDistinct ys
    → All (λ x. find_id x.player_id ys ≢ none) xs
    → length xs ≤ length ys
length-contained [] ys d e h = omega arith
length-contained (x ∷ xs) ys d e h =
    let less =
      length-contained xs (remove_id x.player_id ys) d.1 (remove_id-IdsDistinct x.player_id ys e)
        (still_there x.player_id xs ys e d.0 h.1) in
    let there : has_id x.player_id ys ≡ true = ground (arith, has_id-find_id x.player_id ys, h.0) in
    omega (arith, less, length-remove_id x.player_id ys there)

filed_none :
    (p : Pool) (k : ℤ) (x : QueuedPlayer)
    → IsValid p
    → get x.player_id p.players ≡ some x
    → bracket_key x.mmr ≡ k
    → find_id x.player_id (slice_at p.brackets k).items ≢ none
filed_none p k x v a b n = ground (arith, v.filed k x.player_id, beq_ℤ_iff (bracket_key x.mmr) k)

-- A draw that fails leaves no bracket with ten players.
pub draw_none :
    (fl : Floats) (env : Env) (p p' : Pool) (k : ℤ) (l : List QueuedPlayer)
    → IsValid p
    → extract_match fl env p ≡ (p', none)
    → IdsDistinct l
    → All (λ x. (view p x.player_id ≡ some x) × (bracket_key x.mmr ≡ k)) l
    → length l < players_per_match
draw_none fl env p p' k l v e d h = elim (dec_lt (length l) players_per_match) [
  | yes few ↦ few
  | no many ↦
      let items = (slice_at p.brackets k).items in
      let fits : length l ≤ length items = length-contained l items d (v.tidy k).distinct (
        All-map (λ x. (view p x.player_id ≡ some x) × (bracket_key x.mmr ≡ k))
          (λ x. find_id x.player_id items ≢ none) l (λ x (a, b) n. filed_none p k x v a b n) h) in
      elim (Option-cases (get k p.brackets)) [
        | inl n ↦ absurd (ground arith)
        | inr (s, here) ↦
            let (q, sel, found) = extract_full fl env p v k s here (ground arith) in absurd (cc)
      ]
]

tail_keyed :
    (id : String) (q : QueuedPlayer) (m : List (String × QueuedPlayer))
    → Distinct ((id, q) ∷ m)
    → ((i : String) (r : QueuedPlayer) → get i ((id, q) ∷ m) ≡ some r → r.player_id ≡ i)
    → (i : String) (r : QueuedPlayer) → get i m ≡ some r
    → r.player_id ≡ i
unfolding get
tail_keyed id q m d k i r e = k i r (ground (arith, eq_iff id i, d.0))

-- The players of the index, and that each is found there.
pub listed : List (String × QueuedPlayer) → List QueuedPlayer
listed m = map (λ (e : String × QueuedPlayer). e.1) m

pub length-listed : (m : List (String × QueuedPlayer)) → length (listed m) ≡ length m
unfolding listed
length-listed m = length-map _ m

pub find_id-listed :
    (m : List (String × QueuedPlayer))
    → Distinct m
    → ((id : String) (q : QueuedPlayer) → get id m ≡ some q → q.player_id ≡ id)
    → (j : String) → find_id j (listed m) ≡ get j m
unfolding find_id get listed
find_id-listed [] d k j = refl
find_id-listed ((id, q) ∷ m) d k j =
    ground (arith, k id q, ==_refl id, find_id-listed m d.1 (tail_keyed id q m d k) j)

pub listed-IdsDistinct :
    (m : List (String × QueuedPlayer))
    → Distinct m
    → ((id : String) (q : QueuedPlayer) → get id m ≡ some q → q.player_id ≡ id)
    → IdsDistinct (listed m)
unfolding listed
listed-IdsDistinct [] d k = tt
listed-IdsDistinct ((id, q) ∷ m) d k = (
  ap (λ x. find_id x (listed m)) (k id q (unfold get in ground (arith, ==_refl id)))
      ∙ find_id-listed m d.1 (tail_keyed id q m d k) id
      ∙ d.0,
  listed-IdsDistinct m d.1 (tail_keyed id q m d k),
)
