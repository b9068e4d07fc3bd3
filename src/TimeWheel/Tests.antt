-- ===== src/TimeWheel/Tests.antt =====
-- Wheels of three buckets.
use corpc.Base.{ℕ, Bool, ◌≡◌, refl, true, false, [], ◌∷◌, arith}
use corpc.TimeWheel.{TcpTimeWheel, has_slot, is_held, put, fresh, clear, loop_func}
use corpc.TimeWheel.Lifetime.{refresh, tick, run, fresh_lifetime}

-- Every connection is still there.
abbrev all : ℕ → Bool
all slot = true

abbrev three : TcpTimeWheel
three = record { bucket_count = 3; cur_bucket = 1; wheel = (9 ∷ []) ∷ [] ∷ (8 ∷ 8 ∷ []) ∷ [] }

-- Slot 7 goes into bucket 0, and is cleared by the third call; slot 8 before, and once.
turns_of_three : (run (fresh three 7) (tick all ∷ tick all ∷ tick all ∷ [])).1 ≡ 8 ∷ 9 ∷ 7 ∷ []
unfolding run fresh loop_func put clear has_slot is_held
turns_of_three = refl

fresh_lifetime_example :
    (has_slot 7 (run (fresh three 7) (tick all ∷ refresh 8 ∷ tick all ∷ [])).1 ≡ false)
    × (has_slot 7 (loop_func all (run (fresh three 7) (tick all ∷ refresh 8 ∷ tick all ∷ [])).0).1
        ≡ true)
fresh_lifetime_example =
    fresh_lifetime three 7 (tick all ∷ refresh 8 ∷ tick all ∷ []) all
      (record { size = refl; inside = omega arith }) ((λ e. omega arith), tt) refl
