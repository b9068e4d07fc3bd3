-- ===== src/Spinlock.antt =====
-- corpc/coroutine/spinlock.h and spinlock_guard.h: the atomic word of the lock, and any number of
-- threads that run guards, one atomic operation at a time.
pub mod Safety
mod Tests
use corpc.Base.{
  ℕ, Bool, true, false, Option, none, some, List, [], ◌∷◌, ◌++◌, ◌≡◌, ◌==◌, if◌then◌else◌,
}

-- `m_sem`, from the constructor on.
abbrev pub new_spinlock : ℕ
new_spinlock = 1

-- compare_exchange_strong: whether the word was the expected one, the word, and what `exp` holds then.
unfoldable pub compare_exchange : ℕ → ℕ → ℕ → Bool × ℕ × ℕ
compare_exchange sem exp desired = if sem == exp then (true, desired, exp) else (false, sem, sem)

-- One round of the loop of `lock`, which sets `exp` to 1 before each: whether it ends, and the word.
unfoldable pub try_lock : ℕ → Bool × ℕ
try_lock sem = let (done, sem', exp) = compare_exchange sem 1 0 in (done, sem')

abbrev pub unlock : ℕ → ℕ
unlock sem = 1

-- A thread that has not called `lock`, runs its loop, or is in the scope of the guard.
pub data ThreadAt : Type 0 where
  outside spinning inside : ThreadAt

pub record Threads : Type 0 where
  pub sem : ℕ
  pub at : ℕ → ThreadAt

abbrev pub start : Threads
start = record { sem = new_spinlock; at = λ t. outside }

abbrev pub move : (ℕ → ThreadAt) → ℕ → ThreadAt → ℕ → ThreadAt
move at t place x = if x == t then place else at x

abbrev pub after_try : Bool × ℕ → ThreadAt
after_try (true, sem) = inside
after_try (false, sem) = spinning

-- The constructor of the guard calls `lock`, whose rounds follow, and its destructor `unlock`.
pub data Step (u : Threads) : Threads → Type 0 where
  calls : (t : ℕ) → u.at t ≡ outside → Step u (record u { at = move u.at t spinning })
  tries :
      (t : ℕ)
      → u.at t ≡ spinning
      → Step u (record { sem = (try_lock u.sem).1; at = move u.at t (after_try (try_lock u.sem)) })
  leaves :
      (t : ℕ) → u.at t ≡ inside → Step u (record { sem = unlock u.sem; at = move u.at t outside })

pub data Reach : Threads → Type 0 where
  begin : Reach start
  later : {t u : Threads} → Reach t → Step t u → Reach u
