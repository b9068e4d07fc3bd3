-- ===== src/Selector/Tests.antt =====
-- Small lists of loads, and the theorems at them.
use corpc.Base.{ℕ, ◌%◌, ◌+◌, ◌≡◌, refl, List, [], ◌∷◌, arith}
use corpc.Selector.{
  min_event_first, round_robin, create, null_pointer, out_of_range, processor, min_load, select_id,
  next,
}
use corpc.Selector.Strategies.{Least, next-Least, before_call, next-round, next_single}

abbrev loads : List ℕ
loads = 4 ∷ 2 ∷ 7 ∷ 2 ∷ []

least : (next (create min_event_first) loads).0 ≡ processor 1
unfolding create next select_id min_load
least = refl

none : (next (create round_robin) []).0 ≡ null_pointer
unfolding next
none = refl

next-Least_example :
    (k : ℕ) × (c : ℕ) × Least loads k c
    × (next (record { curpro_id = 2; strategy = min_event_first }) loads
        ≡ (processor k, record { curpro_id = k; strategy = min_event_first }))
next-Least_example = next-Least 2 4 (2 ∷ 7 ∷ 2 ∷ [])

next-round_example : (next (before_call (λ k. loads) 5) loads).0 ≡ processor (1 + 5 % 3)
next-round_example = next-round 3 (omega arith) (λ k. loads) (λ k. refl) 5

next_single_example :
    (next (record { curpro_id = 0; strategy = round_robin }) (9 ∷ [])).0 ≡ out_of_range
next_single_example = next_single 0 9
