-- ===== src/Spinlock/Tests.antt =====
-- One thread in the guard, and another that waits.
use corpc.Base.{ℕ, ◌≡◌, refl, true, false}
use corpc.Spinlock.{
  compare_exchange, try_lock, inside, Threads, start, move, spinning, after_try, Reach, begin,
  later, calls, tries,
}
use corpc.Spinlock.Safety.{Nobody, try_lock-Excludes}

called : Reach (record start { at = move start.at 3 spinning })
called = later begin (calls 3 refl)

abbrev held : Threads
held = record {
  sem = (try_lock 1).1;
  at = move (move start.at 3 spinning) 3 (after_try (try_lock 1));
}

held-Reach : Reach held
held-Reach = later called (tries 3 refl)

inside_now : held.at 3 ≡ inside
unfolding try_lock compare_exchange
inside_now = refl

refused_now : try_lock held.sem ≡ (false, 0)
unfolding try_lock compare_exchange
refused_now = refl

try_lock-Excludes_example :
    ((s t : ℕ) → held.at s ≡ inside → held.at t ≡ inside → s ≡ t)
    × (((try_lock held.sem).0 ≡ true → Nobody held.at)
        × (Nobody held.at → (try_lock held.sem).0 ≡ true))
try_lock-Excludes_example = try_lock-Excludes held held-Reach
