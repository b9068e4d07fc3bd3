-- ===== src/RwMutex.antt =====
-- corpc/coroutine/rw_mutex.{h,cc}: a lock for readers and writers on which coroutines wait. The
-- body of each call runs under the spinlock, so it is one step; `yield` ends the step of a call
-- that waits, and a woken coroutine calls again.
pub mod Modes
pub mod System
pub mod Invariant
pub mod Safety
mod Tests
use corpc.Base.{ℕ, ◌+◌, ◌-◌, Bool, true, false, List, [], ◌∷◌, ◌++◌, ◌==◌, if◌then◌else◌}

pub data MuStatus : Type 0 where
  mu_free mu_reading mu_writing : MuStatus

-- Coroutines are numbers; `m_waitingCo` has the oldest first.
pub record RwMutex : Type 0 where
  pub state : MuStatus
  pub reading_num : ℕ
  pub waiting_co : List ℕ

abbrev pub create : RwMutex
create = record { state = mu_free; reading_num = 0; waiting_co = [] }

-- The two branches of `rlock` and `wlock`: true is the early return, false the wait.
enter_reading : RwMutex → RwMutex × Bool
enter_reading m = (record m { reading_num = m.reading_num + 1; state = mu_reading }, true)

enqueue : RwMutex → ℕ → RwMutex × Bool
enqueue m co = (record m { waiting_co = m.waiting_co ++ co ∷ [] }, false)

unfoldable pub rlock : RwMutex → ℕ → RwMutex × Bool
unfolding enter_reading enqueue
rlock m co = elim m.state [
  | mu_free ↦ enter_reading m
  | mu_reading ↦ enter_reading m
  | mu_writing ↦ enqueue m co
]

unfoldable pub wlock : RwMutex → ℕ → RwMutex × Bool
unfolding enqueue
wlock m co = elim m.state [ mu_free ↦ (record m { state = mu_writing }, true) | _ ↦ enqueue m co ]

-- `freeLock`, with the coroutines that it hands to `addCoroutine`.
free_lock : RwMutex → RwMutex × List ℕ
free_lock m = (record m { state = mu_free; waiting_co = [] }, m.waiting_co)

-- The caller holds the lock, so the number of readers is not 0 and the subtraction does not stop.
unfoldable pub runlock : RwMutex → RwMutex × List ℕ
unfolding free_lock
runlock m =
    let left = record m { reading_num = m.reading_num - 1 } in
    if m.reading_num == 1 then free_lock left else (left, [])

unfoldable pub wunlock : RwMutex → RwMutex × List ℕ
unfolding free_lock
wunlock m = free_lock m
