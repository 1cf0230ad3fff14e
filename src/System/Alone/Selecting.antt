-- ===== src/System/Alone/Selecting.antt =====
-- What the select of a coordinator alone took, and how it ended.
use fp_insis.Prelude.{
  ◌⊎◌, get_elem?, All, if◌then◌else◌, nat_beq, none, ℕ, zero, suc, ◌+◌, ◌<◌, ◌≡◌, refl, ap, inl,
  inr, Bool, true, false, some, List, [], ◌∷◌, ◌++◌, arith, ltb, length, set, Bool-cases, ℤ,
}
use fp_insis.Coordinator.{Shared, verdict}
use fp_insis.Matchmaker.{Room, Engine}
use fp_insis.System.{
  gathering, ended, Coord, CoordAction, hears, gives_up, time_passes, gathers, expires, tells,
  puts_back, stepped, decide, gather_one, coord_step,
}
use fp_insis.System.Alone.{run_coord, with_shared, shared_of}
use fp_insis.System.Alone.Deadline.{Own, stays_late}
use fp_insis.System.Alone.Endings.{decided_end}

-- All of these accept.
abbrev pub AllYes : List (ℕ × Bool) → Type 0
AllYes = All (λ a. a.1 ≡ true)

-- The answers end with a refusal, the only one.
abbrev pub EndsInNo : List (ℕ × Bool) → Type 0
EndsInNo used =
    (before : List (ℕ × Bool)) × (i : ℕ) × (used ≡ before ++ (i, false) ∷ []) × AllYes before

-- The outcome of the select after `received` acceptances of `n`: confirmed when all the others accept
-- too; cancelled by the end of the context before that, or by a refusal.
abbrev pub Chose : ℕ → ℕ → Bool → List (ℕ × Bool) → Bool → Type 0
Chose n received true used late = (late ≡ false) × (received + length used ≡ n) × AllYes used
Chose n received false used late =
    ((late ≡ true) × AllYes used × (received + length used < n)) ⊎ ((late ≡ false) × EndsInNo used)

-- The flags after these answers.
abbrev pub flags_after : List Bool → List (ℕ × Bool) → List Bool
flags_after flags [] = flags
flags_after flags ((i, answer) ∷ rest) = flags_after (set flags i answer) rest

-- The last answer of a player.
abbrev pub latest : ℕ → List (ℕ × Bool) → Bool → Bool
latest i [] before = before
latest i ((j, answer) ∷ rest) before = latest i rest (if nat_beq j i then answer else before)

one_more :
    (n received i : ℕ) (v : Bool) (used : List (ℕ × Bool)) (late : Bool)
    → Chose n (received + 1) v used late
    → Chose n received v ((i, true) ∷ used) late
one_more n received i true used late (l, c, y) = (l, omega (arith, c), (refl, y))
one_more n received i false used late (inl (l, y, c)) = inl (l, (refl, y), omega (arith, c))
one_more n received i false used late (inr (l, (before, k, e, y))) =
    inr (l, ((i, true) ∷ before, k, ap ((i, true) ∷◌) e, (refl, y)))

get_elem?-set :
    (flags : List Bool) (i k : ℕ) (b : Bool)
    → get_elem? (set flags k b) i
      ≡ elim (get_elem? flags i) [ none ↦ none | some d ↦ some (if nat_beq k i then b else d) ]
get_elem?-set [] i k b = refl
get_elem?-set (x ∷ xs) zero zero b = refl
get_elem?-set (x ∷ xs) zero (suc k) b = ground arith
get_elem?-set (x ∷ xs) (suc i) zero b = ground arith
get_elem?-set (x ∷ xs) (suc i) (suc k) b = ground (arith, get_elem?-set xs i k b)

pub get_elem?-flags_after :
    (flags : List Bool) (used : List (ℕ × Bool)) (i : ℕ)
    → get_elem? (flags_after flags used) i
      ≡ elim (get_elem? flags i) [ none ↦ none | some d ↦ some (latest i used d) ]
get_elem?-flags_after flags [] i = ground arith
get_elem?-flags_after flags ((k, b) ∷ rest) i =
    ground (arith, get_elem?-set flags i k b, get_elem?-flags_after (set flags k b) rest i)

-- The answers that the select took, whether the end of the context ended it, and the outcome.
pub record Settled (grow : ℕ → ℕ → ℕ) (room : Room) (received : ℕ) (accepted : List Bool)
    (answers : List (ℕ × Bool)) (e e' : Engine) (c' : Coord) : Type 0 where
  pub now : ℤ
  pub used : List (ℕ × Bool)
  pub rest : List (ℕ × Bool)
  pub late : Bool
  pub v : Bool
  pub flags : List Bool
  pub s' : Shared
  pub split : answers ≡ used ++ rest
  pub flagged : flags ≡ flags_after accepted used
  pub chose : Chose (length room.players) received v used late
  pub said :
      verdict grow now room.session_id room.players room.result_chs flags v (shared_of e) ≡ some s'
  pub left : e' ≡ with_shared s' e
  pub in_time : late ≡ true → c'.timed_out ≡ true

module _ (grow : ℕ → ℕ → ℕ) (e' : Engine) (c' : Coord) where
  pub gathers_end :
      (as_ : List CoordAction) (received : ℕ) (accepted : List Bool) (answers : List (ℕ × Bool))
      (e : Engine) (c : Coord)
      → c'.phase ≡ ended
      → Own as_
      → received < length c.room.players
      → run_coord grow as_ e (record c { phase = gathering received accepted; fan_in = answers })
        ≡ stepped (e', c')
      → Settled grow c.room received accepted answers e e' c'
  unfolding run_coord coord_step gather_one decide
  gathers_end [] received accepted answers e c fin own lt h = absurd (ground arith)
  gathers_end (hears i ∷ as_) received accepted answers e c fin own lt h =
      absurd (ground (arith, own.0))
  gathers_end (gives_up i ∷ as_) received accepted answers e c fin own lt h =
      absurd (ground (arith, own.0))
  gathers_end (time_passes ∷ as_) received accepted answers e c fin own lt h =
      gathers_end as_ received accepted answers e (record c { timed_out = true }) fin own.1 lt h
  gathers_end (tells ∷ as_) received accepted answers e c fin own lt h = absurd (ground arith)
  gathers_end (puts_back ∷ as_) received accepted answers e c fin own lt h = absurd (ground arith)
  gathers_end (expires now ∷ as_) received accepted answers e c fin own lt h =
      elim (Bool-cases c.timed_out) [
        | inr f ↦ absurd (ground arith)
        | inl t ↦
            let still : ltb received (length c.room.players) ≡ true = ground arith in
            let (s', said, left) =
              decided_end grow e' c' now false as_ accepted e (record c { fan_in = answers }) fin
                own.1 (ground (arith, t)) in
            record {
              now = now;
              used = [];
              rest = answers;
              late = true;
              v = false;
              flags = accepted;
              s' = s';
              split = refl;
              flagged = refl;
              chose = inl (refl, tt, omega (arith, lt));
              said = said;
              left = left;
              in_time = λ l.
                  stays_late grow as_ e e'
                    (decide now false accepted e (record c { fan_in = answers })).1 c' own.1 t
                    (ground (arith, t));
            }
      ]
  gathers_end (gathers now ∷ as_) received accepted [] e c fin own lt h = absurd (ground arith)
  gathers_end (gathers now ∷ as_) received accepted ((i, false) ∷ rest) e c fin own lt h =
      elim (Bool-cases (ltb i (length accepted))) [
        | inr out ↦ absurd (ground arith)
        | inl here ↦
            let still : ltb received (length c.room.players) ≡ true = ground arith in
            let (s', said, left) =
              decided_end grow e' c' now false as_ (set accepted i false) e
                (record c { fan_in = rest }) fin own.1 (ground (arith, here)) in
            record {
              now = now;
              used = (i, false) ∷ [];
              rest = rest;
              late = false;
              v = false;
              flags = set accepted i false;
              s' = s';
              split = refl;
              flagged = refl;
              chose = inr (refl, ([], i, refl, tt));
              said = said;
              left = left;
              in_time = λ l. absurd (ground (arith, l));
            }
      ]
  gathers_end (gathers now ∷ as_) received accepted ((i, true) ∷ rest) e c fin own lt h =
      elim (Bool-cases (ltb i (length accepted))) [
        | inr out ↦ absurd (ground arith)
        | inl here ↦
            let still : ltb received (length c.room.players) ≡ true = ground arith in
            elim (Bool-cases (ltb (received + 1) (length c.room.players))) [
              | inl more ↦
                  let x =
                    gathers_end as_ (received + 1) (set accepted i true) rest e c fin own.1
                      (ground arith) (ground (arith, here, more)) in
                  record {
                    now = x.now;
                    used = (i, true) ∷ x.used;
                    rest = x.rest;
                    late = x.late;
                    v = x.v;
                    flags = x.flags;
                    s' = x.s';
                    split = ap ((i, true) ∷◌) x.split;
                    flagged = x.flagged;
                    chose = one_more _ received i x.v x.used x.late x.chose;
                    said = x.said;
                    left = x.left;
                    in_time = x.in_time;
                  }
              | inr enough ↦
                  let (s', said, left) =
                    decided_end grow e' c' now true as_ (set accepted i true) e
                      (record c { fan_in = rest }) fin own.1 (ground (arith, here, enough)) in
                  record {
                    now = now;
                    used = (i, true) ∷ [];
                    rest = rest;
                    late = false;
                    v = true;
                    flags = set accepted i true;
                    s' = s';
                    split = refl;
                    flagged = refl;
                    chose = (refl, ground (arith, enough, lt), (refl, tt));
                    said = said;
                    left = left;
                    in_time = λ l. absurd (ground (arith, l));
                  }
            ]
      ]
