-- ===== src/RwMutex/Safety.antt =====
-- Who can hold the lock together, and who wakes the coroutines that wait.
use corpc.Base.{
  ℕ, suc, ◌+◌, ◌≤◌, ◌<◌, ◌≡◌, ◌≢◌, refl, ◌⊎◌, inl, inr, true, some, List, [], ◌∷◌, subst, arith,
  get_elem?,
}
use native.Mathlib.Decide.{ℕ_discrete}
use corpc.RwMutex.{MuStatus, mu_free, mu_reading, mu_writing, RwMutex, rlock, wlock}
use corpc.RwMutex.Modes.{
  Access, reader, writer, Mode, outside, waiting, woken, holding, read_weight, write_weight, total,
  Has, total-one, total-two,
}
use corpc.RwMutex.System.{System, lock, Reach, Counts}
use corpc.RwMutex.Invariant.{Reach-Inv}

exclusive : (st : MuStatus) (r w : ℕ) → Counts st r w → (w ≤ 1) × ((0 < w) → r ≡ 0)
exclusive mu_free r w c = (omega arith, λ h. omega arith)
exclusive mu_reading r w c = (omega arith, λ h. omega arith)
exclusive mu_writing r w c = (omega arith, λ h. omega arith)

-- In every state that calls of any number of coroutines reach, a coroutine that holds the lock for
-- writing is alone: whoever holds the lock, for reading or for writing, is that coroutine.
pub writer_alone :
    (n : ℕ) (s : System)
    → Reach n s
    → (i j : ℕ) (a : Access) → get_elem? s.modes i ≡ some (holding writer)
    → get_elem? s.modes j ≡ some (holding a)
    → i ≡ j
writer_alone n s r i j writer here there = elim (ℕ_discrete i j) [
  | yes same ↦ same
  | no other ↦
      let few =
        exclusive s.mutex.state (total read_weight s.modes) (total write_weight s.modes)
          (Reach-Inv n s r).counts in
      absurd (
        omega (
          arith,
          few.0,
          total-two write_weight s.modes i j (holding writer) (holding writer) other here there,
        ))
]
writer_alone n s r i j reader here there =
    let (few, none_read) =
      exclusive s.mutex.state (total read_weight s.modes) (total write_weight s.modes)
        (Reach-Inv n s r).counts in
    let w = total-one write_weight s.modes i (holding writer) here in
    absurd (
      omega
        (arith, none_read (omega arith), total-one read_weight s.modes j (holding reader) there))

-- In every state that calls of any number of coroutines reach, `m_readingNum` is the number of
-- coroutines that hold the lock for reading, and `m_state` tells which holders there are: none,
-- readers only, or one writer.
pub state-Counts :
    (n : ℕ) (s : System)
    → Reach n s
    → (s.mutex.reading_num ≡ total read_weight s.modes)
      × Counts s.mutex.state (total read_weight s.modes) (total write_weight s.modes)
state-Counts n s r = let v = Reach-Inv n s r in (v.counted, v.counts)

holder :
    (modes : List Mode)
    → 0 < total read_weight modes + total write_weight modes
    → (j : ℕ) × (b : Access) × (get_elem? modes j ≡ some (holding b))
unfolding total
holder [] h = absurd (omega arith)
holder (holding b ∷ l) h = (0, b, refl)
holder (outside ∷ l) h = let (j, b, e) = holder l (omega arith) in (suc j, b, e)
holder (waiting a ∷ l) h = let (j, b, e) = holder l (omega arith) in (suc j, b, e)
holder (woken a ∷ l) h = let (j, b, e) = holder l (omega arith) in (suc j, b, e)

busy : (st : MuStatus) (r w : ℕ) → Counts st r w → (st ≡ mu_free) ⊎ (0 < r + w)
busy mu_free r w c = inl refl
busy mu_reading r w c = inr (omega arith)
busy mu_writing r w c = inr (omega arith)

-- The mutex loses no wake-up as long as addCoroutine takes every coroutine that is handed to it, its
-- processor's ring having room: in every state that calls of any number of coroutines then reach, a
-- coroutine that waits is in the queue of the mutex, and some coroutine holds the lock, whose release
-- can wake it.
pub waiting-queued :
    (n : ℕ) (s : System)
    → Reach n s
    → (i : ℕ) (a : Access) → get_elem? s.modes i ≡ some (waiting a)
    → Has i s.mutex.waiting_co × ((j : ℕ) × (b : Access) × (get_elem? s.modes j ≡ some (holding b)))
waiting-queued n s r i a here =
    let v = Reach-Inv n s r in
    let inside = v.queued i a here in
    (
      inside,
      elim (busy s.mutex.state (total read_weight s.modes) (total write_weight s.modes) v.counts) [
        | inl free ↦ let empty = v.awaited free in absurd (subst (Has i) empty inside)
        | inr held ↦ holder s.modes held
      ],
    )

free_lets_in : (a : Access) (m : RwMutex) (i : ℕ) → m.state ≡ mu_free → (lock a m i).1 ≡ true
unfolding rlock wlock
free_lets_in reader m i e = rw e refl
free_lets_in writer m i e = rw e refl

-- In a reachable state where no coroutine holds the lock, none waits for it, and whichever coroutine
-- asks for it, for reading or for writing, gets it at once.
pub lock-free :
    (n : ℕ) (s : System)
    → Reach n s
    → ((j : ℕ) (b : Access) → get_elem? s.modes j ≢ some (holding b))
    → ((i : ℕ) (a : Access) → get_elem? s.modes i ≢ some (waiting a))
      × ((i : ℕ) (a : Access) → (lock a s.mutex i).1 ≡ true)
lock-free n s r idle =
    elim (busy s.mutex.state (total read_weight s.modes) (total write_weight s.modes)
      (Reach-Inv n s r).counts) [
        | inl free ↦ (
          λ i a here. let (_, (j, b, held)) = waiting-queued n s r i a here in idle j b held,
          λ i a. free_lets_in a s.mutex i free,
        )
        | inr held ↦ let (j, b, there) = holder s.modes held in absurd (idle j b there)
      ]
