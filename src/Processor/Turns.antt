-- ===== src/Processor/Turns.antt =====
-- What the processor's calls do to one coroutine, whatever the others do.
use corpc.Base.{
  ℕ, suc, ◌+◌, ◌-◌, min, ◌≡◌, refl, sym, ap, ◌∙◌, inl, inr, Bool, not, List, [], ◌∷◌, ◌++◌, ◌==◌,
  ==_iff, ◌&&◌, ◌||◌, ltb, leb, if◌then◌else◌, Bool-cases, arith,
}
use corpc.Processor.{Coroutine, Processor, contains, insert, erase, erase_all, can_run}

-- How often a coroutine can still get the processor.
abbrev pub turns_left : Coroutine → ℕ
turns_left c = if can_run c.status then suc c.yields_left else 0

unfoldable pub count : ℕ → List ℕ → ℕ
count co [] = 0
count co (x ∷ xs) = (if x == co then 1 else 0) + count co xs

-- The processor as one coroutine sees it: whether it is in the set and in the list of the removed,
-- how often it can still run and how often it has.
pub record View : Type 0 where
  pub known : Bool
  pub left : ℕ
  pub runs : ℕ
  pub gone : Bool

unfoldable pub view : ℕ → Processor → View
view co p = record {
  known = contains p.cors_set co;
  left = turns_left (p.cors co);
  runs = count co p.ran;
  gone = contains p.removed_cors co;
}

pub contains-append :
    (xs : List ℕ) (a b : ℕ) → contains (xs ++ a ∷ []) b ≡ contains xs b || (a == b)
unfolding contains
contains-append [] a b = ground arith
contains-append (x ∷ xs) a b = ground (arith, contains-append xs a b)

pub count-append :
    (co a : ℕ) (xs : List ℕ) → count co (xs ++ a ∷ []) ≡ count co xs + (if a == co then 1 else 0)
unfolding count
count-append co a [] = omega arith
count-append co a (x ∷ xs) = omega (arith, count-append co a xs)

pub contains-insert : (xs : List ℕ) (a b : ℕ) → contains (insert xs a) b ≡ (a == b) || contains xs b
unfolding contains insert
contains-insert xs a b = elim (Bool-cases (contains xs a)) [
  | inl there ↦ elim (Bool-cases (a == b)) [
    | inl same ↦
        let e : a ≡ b = (==_iff a b).0 same in rw (there, same) (ap (contains xs) (sym e) ∙ there)
    | inr other ↦ rw (there, other) refl
  ]
  | inr absent ↦ rw absent refl
]

contains-erase : (xs : List ℕ) (a b : ℕ) → contains (erase xs a) b ≡ contains xs b && not (a == b)
unfolding contains erase
contains-erase [] a b = refl
contains-erase (x ∷ xs) a b = ground (arith, contains-erase xs a b)

pub contains-erase_all :
    (xs ys : List ℕ) (b : ℕ) → contains (erase_all xs ys) b ≡ contains xs b && not (contains ys b)
unfolding contains erase_all
contains-erase_all xs [] b = ground arith
contains-erase_all xs (y ∷ ys) b =
    ground (arith, contains-erase_all (erase xs y) ys b, contains-erase xs y b)

-- `k` requests to run a coroutine that is in the set.
abbrev pub turns : ℕ → View → View
turns k v = record {
  known = v.known;
  left = v.left - k;
  runs = v.runs + min k v.left;
  gone = v.gone || (ltb 0 v.left && leb v.left k);
}

-- A request to run a coroutine that is not in the set is passed over.
abbrev pub ask : ℕ → View → View
ask k v = if v.known then turns k v else v

pub turns_zero : (v : View) → turns 0 v ≡ v
turns_zero v = ground arith

pub turns-turns : (j k : ℕ) (v : View) → turns k (turns j v) ≡ turns (j + k) v
turns-turns j k v = ground arith
