-- ===== src/RwMutex/System.antt =====
-- Any number of coroutines that lock and unlock in any order: each lets go of what it holds only.
use corpc.Base.{ℕ, ◌<◌, ◌≡◌, Bool, some, List, [], replicate, get_elem?, set, if◌then◌else◌}
use corpc.RwMutex.{
  MuStatus, mu_free, mu_reading, mu_writing, RwMutex, create, rlock, wlock, runlock, wunlock,
}
use corpc.RwMutex.Modes.{
  Access, reader, writer, Mode, outside, waiting, woken, holding, read_weight, write_weight,
  wake_each, total, Has,
}

pub record System : Type 0 where
  pub mutex : RwMutex
  pub modes : List Mode

abbrev pub lock : Access → RwMutex → ℕ → RwMutex × Bool
lock reader m co = rlock m co
lock writer m co = wlock m co

abbrev pub unlock : Access → RwMutex → RwMutex × List ℕ
unlock reader m = runlock m
unlock writer m = wunlock m

-- A call of `rlock` or `wlock`, the first or a later one.
abbrev pub lock_at : System → ℕ → Access → System
lock_at s i a =
    let (m, got) = lock a s.mutex i in
    record { mutex = m; modes = set s.modes i (if got then holding a else waiting a) }

abbrev pub unlock_at : System → ℕ → Access → System
unlock_at s i a =
    let (m, woken_co) = unlock a s.mutex in
    record { mutex = m; modes = wake_each (set s.modes i outside) woken_co }

-- A coroutine may ask for the lock from outside; a woken one asks again for what it asked for.
abbrev pub MayAsk : Access → Mode → Type 0
MayAsk a outside = Unit
MayAsk a (woken b) = a ≡ b
MayAsk a _ = ⊥

pub data Step (s : System) : System → Type 0 where
  locks :
      (i : ℕ) (a : Access) (m : Mode)
      → get_elem? s.modes i ≡ some m
      → MayAsk a m
      → Step s (lock_at s i a)
  unlocks : (i : ℕ) (a : Access) → get_elem? s.modes i ≡ some (holding a) → Step s (unlock_at s i a)

abbrev pub start : ℕ → System
start n = record { mutex = create; modes = replicate n outside }

pub data Reach (n : ℕ) : System → Type 0 where
  begin : Reach n (start n)
  later : {s t : System} → Reach n s → Step s t → Reach n t

-- How the state of the mutex tells how many hold it.
abbrev pub Counts : MuStatus → ℕ → ℕ → Type 0
Counts mu_free readers writers = (readers ≡ 0) × (writers ≡ 0)
Counts mu_reading readers writers = (0 < readers) × (writers ≡ 0)
Counts mu_writing readers writers = (readers ≡ 0) × (writers ≡ 1)

pub record Inv (s : System) : Type 0 where
  pub counted : s.mutex.reading_num ≡ total read_weight s.modes
  pub counts : Counts s.mutex.state (total read_weight s.modes) (total write_weight s.modes)
  pub queued :
      (i : ℕ) (a : Access) → get_elem? s.modes i ≡ some (waiting a) → Has i s.mutex.waiting_co
  pub awaited : s.mutex.state ≡ mu_free → s.mutex.waiting_co ≡ []
