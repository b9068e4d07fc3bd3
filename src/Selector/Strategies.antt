-- ===== src/Selector/Strategies.antt =====
-- The choices of both strategies.
use corpc.Base.{
  ℕ, zero, suc, ◌+◌, ◌%◌, ◌≤◌, ◌<◌, ◌≡◌, refl, ap, ◌∙◌, ◌⊎◌, inl, inr, true, some, List, [], ◌∷◌,
  arith, length, get_elem?, ltb, leb, Bool-cases, tests, ◌==◌, ==_iff,
}
use native.Mathlib.Nat.{suc-mod, zero-mod, mod-eq_of_lt, mod_self, mod-lt}
use corpc.Selector.{
  min_event_first, round_robin, ProcessorSelector, create, out_of_range, processor, min_load, round,
  select_id, next,
}

-- Index `k` has the load `c`, no load is smaller, and every earlier one is larger.
pub record Least (loads : List ℕ) (k c : ℕ) : Type 0 where
  pub there : get_elem? loads k ≡ some c
  pub least : (j d : ℕ) → get_elem? loads j ≡ some d → c ≤ d
  pub first : (j d : ℕ) → get_elem? loads j ≡ some d → j < k → c < d

Least-here : (c : ℕ) (l : List ℕ) → ((j d : ℕ) → get_elem? l j ≡ some d → c ≤ d) → Least (c ∷ l) 0 c
Least-here c l rest = record { there = refl; least = all; first = λ j d e h. absurd (omega arith) }
  where
    all : (j d : ℕ) → get_elem? (c ∷ l) j ≡ some d → c ≤ d
    all zero d e = let same : c ≡ d = cc in omega arith
    all (suc j) d e = rest j d e

Least-later : (c c' : ℕ) (l : List ℕ) (k : ℕ) → Least l k c' → c' < c → Least (c ∷ l) (suc k) c'
Least-later c c' l k v less = record { there = v.there; least = all; first = before }
  where
    all : (j d : ℕ) → get_elem? (c ∷ l) j ≡ some d → c' ≤ d
    all zero d e = let same : c ≡ d = cc in omega arith
    all (suc j) d e = v.least j d e

    before : (j d : ℕ) → get_elem? (c ∷ l) j ≡ some d → j < suc k → c' < d
    before zero d e h = let same : c ≡ d = cc in omega arith
    before (suc j) d e h = v.first j d e (omega arith)

-- What the loop leaves: the index it began with, if no load is smaller, or else the first least one.
Found : List ℕ → ℕ → ℕ → ℕ → ℕ → Type 0
Found l i best cnt r =
    ((r ≡ best) × ((j d : ℕ) → get_elem? l j ≡ some d → cnt ≤ d))
    ⊎ ((k : ℕ) × (c : ℕ) × (r ≡ i + k) × (c < cnt) × Least l k c)

min_load-Found : (l : List ℕ) (i best cnt : ℕ) → Found l i best cnt (min_load l i best cnt)
unfolding min_load Found
min_load-Found [] i best cnt = inl (refl, λ j d e. cc)
min_load-Found (c ∷ l) i best cnt = elim (Bool-cases (ltb c cnt)) [
  | inl less ↦ rw less (elim (min_load-Found l (i + 1) i c) [
    | inl (e, rest) ↦ inr (0, c, omega (arith, e), omega (tests, less), Least-here c l rest)
    | inr (k, c', e, smaller, v) ↦
        inr (suc k, c', omega (arith, e), omega (tests, less), Least-later c c' l k v smaller)
  ])
  | inr more ↦
      let larger : cnt ≤ c = ground arith in
      rw more (elim (min_load-Found l (i + 1) best cnt) [
        | inl (e, rest) ↦ inl (e, still c larger rest)
        | inr (k, c', e, smaller, v) ↦
            inr (suc k, c', omega (arith, e), smaller, Least-later c c' l k v (omega arith))
      ])
]
  where
    still :
        (c : ℕ)
        → cnt ≤ c
        → ((j d : ℕ) → get_elem? l j ≡ some d → cnt ≤ d)
        → (j d : ℕ) → get_elem? (c ∷ l) j ≡ some d
        → cnt ≤ d
    still c larger rest zero d e = let same : c ≡ d = cc in omega arith
    still c larger rest (suc j) d e = rest j d e

Least-min_load :
    (front : ℕ) (loads : List ℕ)
    → (k : ℕ) × (c : ℕ) × Least (front ∷ loads) k c × (min_load loads 1 0 front ≡ k)
unfolding Found
Least-min_load front loads = elim (min_load-Found loads 1 0 front) [
  | inl (here, rest) ↦ (0, front, Least-here front loads rest, here)
  | inr (k, c, later, smaller, v) ↦
      (suc k, c, Least-later front c loads k v smaller, omega (arith, later))
]

-- With at least one processor, MIN_EVENT_FIRST chooses the processor with the least load, the first
-- of these if several have it, and remembers its index.
pub next-Least :
    (id front : ℕ) (loads : List ℕ)
    → (k : ℕ) × (c : ℕ) × Least (front ∷ loads) k c
      × (next (record { curpro_id = id; strategy = min_event_first }) (front ∷ loads)
          ≡ (processor k, record { curpro_id = k; strategy = min_event_first }))
unfolding next select_id
next-Least id front loads =
    let (k, c, v, here) = Least-min_load front loads in (k, c, v, rw here (rw v.there refl))

abbrev turn : ℕ → ProcessorSelector
turn id = record { curpro_id = id; strategy = round_robin }

-- The selector before call `k` (from 0 on), where `loads k` are the loads that call `k` finds.
abbrev pub before_call : (ℕ → List ℕ) → ℕ → ProcessorSelector
before_call loads zero = create round_robin
before_call loads (suc k) = (next (before_call loads k) (loads k)).1

in_range : (l : List ℕ) (i : ℕ) → i < length l → (c : ℕ) × (get_elem? l i ≡ some c)
in_range [] i h = absurd (omega arith)
in_range (c ∷ l) zero h = (c, refl)
in_range (c ∷ l) (suc i) h = in_range l i (omega arith)

module _ (m : ℕ) (several : 0 < m) where
  next-turn :
      (id : ℕ) (loads : List ℕ)
      → length loads ≡ suc m
      → next (turn id) loads ≡ (processor (round id (suc m)), turn (round id (suc m)))
  unfolding next select_id round
  next-turn id [] e = absurd (omega arith)
  next-turn id (front ∷ loads) e =
      let inside : round id (suc m) < length (front ∷ loads) = ground arith in
      rw e (rw (in_range (front ∷ loads) (round id (suc m)) inside).1 refl)

  round-mod : (k : ℕ) → round (1 + k % m) (suc m) ≡ 1 + suc k % m
  unfolding round
  round-mod k = rw (suc-mod k m) (elim (Bool-cases (suc (k % m) == m)) [
    | inl last ↦
        let top : suc (k % m) ≡ m = (==_iff (suc (k % m)) m).0 last in
        rw (ap (λ i. i % m) top, mod_self m) (ground arith)
    | inr more ↦
        let below : k % m < m = omega (arith, mod-lt k several) in
        let inside : suc (k % m) < m = ground arith in rw (mod-eq_of_lt inside) (ground arith)
  ])

  module _ (loads : ℕ → List ℕ) (size : (k : ℕ) → length (loads k) ≡ suc m) where
    call :
        (k id : ℕ)
        → before_call loads k ≡ turn id
        → next (before_call loads k) (loads k)
          ≡ (processor (round id (suc m)), turn (round id (suc m)))
    call k id e = ap (λ s. next s (loads k)) e ∙ next-turn id (loads k) (size k)

    first_round : round 0 (suc m) ≡ 1 + 0 % m
    unfolding round
    first_round = rw (zero-mod m) (ground arith)

    before_call_id : (k : ℕ) → before_call loads (suc k) ≡ turn (1 + k % m)
    unfolding create
    before_call_id zero = ap (λ p. p.1) (call 0 0 refl) ∙ ap turn first_round
    before_call_id (suc k) =
        ap (λ p. p.1) (call (suc k) (1 + k % m) (before_call_id k)) ∙ ap turn (round-mod k)

    -- With processors 0 to `m`, where `m` is positive, ROUND_ROBIN goes round the processors 1 to `m`:
    -- call `k` (from 0 on) of a new selector returns processor `1 + k % m`, so none is left out but
    -- processor 0, which is never chosen.
    pub next-round : (k : ℕ) → (next (before_call loads k) (loads k)).0 ≡ processor (1 + k % m)
    unfolding create
    next-round zero = ap (λ p. p.0) (call 0 0 refl) ∙ ap processor first_round
    next-round (suc k) =
        ap (λ p. p.0) (call (suc k) (1 + k % m) (before_call_id k)) ∙ ap processor (round-mod k)

-- With a single processor, ROUND_ROBIN reads past the end of the processors at every call, whatever
-- it chose before.
pub next_single :
    (id load : ℕ)
    → (next (record { curpro_id = id; strategy = round_robin }) (load ∷ [])).0 ≡ out_of_range
unfolding next select_id round
next_single id load = let last : leb 1 (id + 1) ≡ true = ground arith in rw last refl
