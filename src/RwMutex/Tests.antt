-- ===== src/RwMutex/Tests.antt =====
-- Runs of the lock.
use corpc.Base.{ℕ, zero, suc, ◌≡◌, ◌≢◌, refl, true, some, [], ◌∷◌, get_elem?}
use corpc.RwMutex.{mu_writing, rlock, wlock, wunlock}
use corpc.RwMutex.Modes.{
  Access, reader, writer, outside, waiting, woken, holding, wake_each, total, Has,
}
use corpc.RwMutex.System.{
  System, lock, lock_at, unlock_at, locks, unlocks, start, Reach, begin, later, Counts,
}
use corpc.RwMutex.Safety.{writer_alone, state-Counts, waiting-queued, lock-free}

-- Coroutine 1 writes while 0 waits to read.
abbrev one_writes : System
one_writes = lock_at (start 3) 1 writer

abbrev zero_waits : System
zero_waits = lock_at one_writes 0 reader

abbrev one_writes-Reach : Reach 3 one_writes
unfolding wlock
one_writes-Reach = later begin (locks 1 writer outside refl tt)

abbrev zero_waits-Reach : Reach 3 zero_waits
unfolding wlock rlock
zero_waits-Reach = later one_writes-Reach (locks 0 reader outside refl tt)

abbrev released : System
released = unlock_at zero_waits 1 writer

abbrev released-Reach : Reach 3 released
unfolding wlock rlock wunlock wake_each
released-Reach = later zero_waits-Reach (unlocks 1 writer refl)

nobody_holds : (j : ℕ) (b : Access) → get_elem? released.modes j ≢ some (holding b)
unfolding wlock rlock wunlock wake_each
nobody_holds zero b e = cc
nobody_holds (suc zero) b e = cc
nobody_holds (suc (suc zero)) b e = cc
nobody_holds (suc (suc (suc j))) b e = cc

zero_woken : released.modes ≡ woken reader ∷ outside ∷ outside ∷ []
unfolding wlock rlock wunlock wake_each
zero_woken = refl

writer_alone_example : ◌≡◌ {A = ℕ} 1 1
unfolding wlock rlock
writer_alone_example = writer_alone 3 zero_waits zero_waits-Reach 1 1 writer refl refl

state-Counts_example : (one_writes.mutex.reading_num ≡ 0) × Counts mu_writing 0 1
unfolding wlock total
state-Counts_example = state-Counts 3 one_writes one_writes-Reach

waiting-queued_example :
    Has 0 zero_waits.mutex.waiting_co
    × ((j : ℕ) × (b : Access) × (get_elem? zero_waits.modes j ≡ some (holding b)))
unfolding wlock rlock
waiting-queued_example = waiting-queued 3 zero_waits zero_waits-Reach 0 reader refl

lock-free_example :
    ((i : ℕ) (a : Access) → get_elem? released.modes i ≢ some (waiting a))
    × ((i : ℕ) (a : Access) → (lock a released.mutex i).1 ≡ true)
lock-free_example = lock-free 3 released released-Reach nobody_holds
