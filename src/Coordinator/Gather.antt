-- ===== src/Coordinator/Gather.antt =====
-- The gathering loop of readyCheckCoordinator.
use fp_insis.Prelude.{
  ℕ, zero, suc, ◌+◌, ◌≤◌, ◌<◌, ◌≡◌, refl, ap, ◌∙◌, ◌⊎◌, inl, inr, ◌≢◌, Bool, true, false, ◌||◌,
  some, List, [], ◌∷◌, ◌++◌, arith, ltb, length, set, get_elem?, replicate, length-replicate,
  length-set, if◌then◌else◌, Bool-cases, nat_beq, nat_beq_iff,
}
use fp_insis.Pool.{QueuedPlayer}
use fp_insis.Coordinator.{Arrival, response, deadline, gather, await_responses}

-- An answer of this player is among the arrivals.
abbrev pub answers : ℕ → List Arrival → Bool
answers i [] = false
answers i (response j b ∷ rest) = nat_beq j i || answers i rest
answers i (deadline ∷ rest) = answers i rest

-- Each goroutine passes on one answer, with its own index.
abbrev pub EachOnce : ℕ → List Arrival → Type 0
EachOnce n [] = Unit {0}
EachOnce n (response i b ∷ rest) = (i < n) × (answers i rest ≡ false) × EachOnce n rest
EachOnce n (deadline ∷ rest) = EachOnce n rest

count_true : List Bool → ℕ
count_true [] = 0
count_true (b ∷ bs) = (if b then 1 else 0) + count_true bs

count_true-replicate : (n : ℕ) → count_true (replicate n false) ≡ 0
unfolding count_true
count_true-replicate zero = refl
count_true-replicate (suc n) = omega (arith, count_true-replicate n)

count_true-set :
    (bs : List Bool) (i : ℕ)
    → get_elem? bs i ≡ some false
    → count_true (set bs i true) ≡ count_true bs + 1
unfolding count_true
count_true-set [] i h = absurd (cc)
count_true-set (b ∷ bs) zero h = ground arith
count_true-set (b ∷ bs) (suc i) h = ground (arith, count_true-set bs i h)

count_true-le : (bs : List Bool) → count_true bs ≤ length bs
unfolding count_true
count_true-le [] = omega arith
count_true-le (b ∷ bs) = ground (arith, count_true-le bs)

all_true : (bs : List Bool) → count_true bs ≡ length bs → bs ≡ replicate (length bs) true
unfolding count_true
all_true [] h = refl
all_true (true ∷ bs) h = ap (◌∷◌ true) (all_true bs (omega arith))
all_true (false ∷ bs) h = absurd (omega (arith, count_true-le bs))

get_elem?-set_ne :
    (bs : List Bool) (i j : ℕ) (b : Bool) → j ≢ i → get_elem? (set bs i b) j ≡ get_elem? bs j
get_elem?-set_ne [] i j b h = refl
get_elem?-set_ne (x ∷ bs) zero zero b h = absurd (h refl)
get_elem?-set_ne (x ∷ bs) zero (suc j) b h = refl
get_elem?-set_ne (x ∷ bs) (suc i) zero b h = refl
get_elem?-set_ne (x ∷ bs) (suc i) (suc j) b h = get_elem?-set_ne bs i j b (λ e. h (ap suc e))

get_elem?-set_self :
    (bs : List Bool) (i : ℕ) (b : Bool) → i < length bs → get_elem? (set bs i b) i ≡ some b
get_elem?-set_self [] i b h = absurd (omega arith)
get_elem?-set_self (x ∷ bs) zero b h = refl
get_elem?-set_self (x ∷ bs) (suc i) b h = get_elem?-set_self bs i b (omega arith)

get_elem?-replicate : (n i : ℕ) → i < n → get_elem? (replicate n false) i ≡ some false
get_elem?-replicate zero i h = absurd (omega arith)
get_elem?-replicate (suc n) zero h = refl
get_elem?-replicate (suc n) (suc i) h = get_elem?-replicate n i (omega arith)

-- The loop's invariant: as many flags as players, as many set as answers were counted, and none of
-- those who are yet to answer.
record Gathering (n received : ℕ) (accepted : List Bool) (rest : List Arrival) : Type 0 where
  sized : length accepted ≡ n
  counted : count_true accepted ≡ received
  unset : (i : ℕ) → answers i rest ≡ true → i < n → get_elem? accepted i ≡ some false

gathered :
    (n received : ℕ) (accepted : List Bool) (rest : List Arrival)
    → Gathering n received accepted rest
    → n ≤ received
    → accepted ≡ replicate n true
gathered n received accepted rest g h =
    rw (← g.sized) (all_true accepted (omega (arith, count_true-le accepted, g.sized, g.counted)))

Gathering-step :
    (n received i : ℕ) (accepted : List Bool) (rest : List Arrival)
    → i < n
    → answers i rest ≡ false
    → Gathering n received accepted (response i true ∷ rest)
    → Gathering n (received + 1) (set accepted i true) rest
Gathering-step n received i accepted rest lt once g = record {
  sized = length-set accepted i true ∙ g.sized;
  counted = ground (
    arith,
    count_true-set accepted i (g.unset i (ground (arith, nat_beq_iff i i)) lt),
    g.counted,
  );
  unset = λ k later fits.
      rw (get_elem?-set_ne accepted i k true (λ e. ground arith)) (g.unset k (ground arith) fits);
}

gather_all :
    (n received : ℕ) (accepted : List Bool) (arrivals : List Arrival) (flags : List Bool)
    → EachOnce n arrivals
    → Gathering n received accepted arrivals
    → gather n received accepted arrivals ≡ some (flags, true)
    → flags ≡ replicate n true
unfolding gather
gather_all n received accepted [] flags once g h = ground (arith, gathered n received accepted [] g)
gather_all n received accepted (response i true ∷ rest) flags once g h =
    elim (Bool-cases (ltb received n)) [
      | inl more ↦
          gather_all n (received + 1) (set accepted i true) rest flags once.2
            (Gathering-step n received i accepted rest once.0 once.1 g) (ground arith)
      | inr full ↦
          ground (arith, gathered n received accepted (response i true ∷ rest) g (ground arith))
    ]
gather_all n received accepted (response i false ∷ rest) flags once g h =
    ground (arith, gathered n received accepted (response i false ∷ rest) g)
gather_all n received accepted (deadline ∷ rest) flags once g h =
    ground (arith, gathered n received accepted (deadline ∷ rest) g)

replicate_unset : (n : ℕ) (arrivals : List Arrival) → Gathering n 0 (replicate n false) arrivals
replicate_unset n arrivals = record {
  sized = length-replicate n false;
  counted = count_true-replicate n;
  unset = λ i later fits. get_elem?-replicate n i fits;
}

-- If no player answers twice and the loop ends with everyone accepting, every player's flag is set.
pub await_all :
    (players : List QueuedPlayer) (arrivals : List Arrival) (flags : List Bool)
    → EachOnce (length players) arrivals
    → await_responses players arrivals ≡ some (flags, true)
    → flags ≡ replicate (length players) true
unfolding await_responses
await_all players arrivals flags once h =
    gather_all (length players) 0 (replicate (length players) false) arrivals flags once
      (replicate_unset (length players) arrivals) h

-- How often an answer arrives before the deadline, and whether one does.
abbrev pub answered : List Arrival → ℕ
answered [] = 0
answered (response i b ∷ rest) = suc (answered rest)
answered (deadline ∷ rest) = answered rest

abbrev pub expires : List Arrival → Bool
expires [] = false
expires (response i b ∷ rest) = expires rest
expires (deadline ∷ rest) = true

gather_ends :
    (n received : ℕ) (accepted : List Bool) (arrivals : List Arrival)
    → (expires arrivals ≡ true) ⊎ (n ≤ received + answered arrivals)
    → (r : List Bool × Bool) × (gather n received accepted arrivals ≡ some r)
unfolding gather
gather_ends n received accepted [] h = ((accepted, true), ground arith)
gather_ends n received accepted (response i true ∷ rest) h =
    let (r, e) = gather_ends n (received + 1) (set accepted i true) rest (ground arith) in
    elim (Bool-cases (ltb received n)) [
      | inl more ↦ (r, ground arith)
      | inr full ↦ ((accepted, true), ground arith)
    ]
gather_ends n received accepted (response i false ∷ rest) h = elim (Bool-cases (ltb received n)) [
  | inl more ↦ ((set accepted i false, false), ground arith)
  | inr full ↦ ((accepted, true), ground arith)
]
gather_ends n received accepted (deadline ∷ rest) h = elim (Bool-cases (ltb received n)) [
  | inl more ↦ ((accepted, false), ground arith)
  | inr full ↦ ((accepted, true), ground arith)
]

-- The loop ends once the context is done, or as many answers as players arrived.
await_ends :
    (players : List QueuedPlayer) (arrivals : List Arrival)
    → (expires arrivals ≡ true) ⊎ (length players ≤ answered arrivals)
    → (r : List Bool × Bool) × (await_responses players arrivals ≡ some r)
unfolding await_responses
await_ends players arrivals (inl h) =
    gather_ends (length players) 0 (replicate (length players) false) arrivals (inl h)
await_ends players arrivals (inr h) =
    gather_ends (length players) 0 (replicate (length players) false) arrivals (inr (omega arith))

-- A player whose answer does not stand before the first refusal keeps a flag that is not set.
gather_late :
    (n received : ℕ) (accepted : List Bool) (before after : List Arrival) (k i : ℕ)
    (r : List Bool × Bool)
    → answers i before ≡ false
    → i ≢ k
    → gather n received accepted (before ++ response k false ∷ after) ≡ some r
    → get_elem? r.0 i ≡ get_elem? accepted i
unfolding gather
gather_late n received accepted [] after k i r new ne h =
    ground (arith, get_elem?-set_ne accepted k i false ne)
gather_late n received accepted (response j true ∷ before) after k i r new ne h =
    elim (Bool-cases (ltb received n)) [
      | inl more ↦
          gather_late n (received + 1) (set accepted j true) before after k i r (ground arith) ne
            (ground arith)
          ∙ get_elem?-set_ne accepted j i true (λ e. ground (arith, nat_beq_iff j i))
      | inr full ↦ ground arith
    ]
gather_late n received accepted (response j false ∷ before) after k i r new ne h =
    ground (arith, get_elem?-set_ne accepted j i false (λ e. ground (arith, nat_beq_iff j i)))
gather_late n received accepted (deadline ∷ before) after k i r new ne h = ground arith

pub await_late :
    (players : List QueuedPlayer) (before after : List Arrival) (k i : ℕ) (r : List Bool × Bool)
    → i < length players
    → answers i before ≡ false
    → i ≢ k
    → await_responses players (before ++ response k false ∷ after) ≡ some r
    → get_elem? r.0 i ≡ some false
unfolding await_responses
await_late players before after k i r lt new ne h =
    gather_late (length players) 0 (replicate (length players) false) before after k i r new ne h
    ∙ get_elem?-replicate (length players) i lt
