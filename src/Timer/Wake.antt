-- ===== src/Timer/Wake.antt =====
-- No wake-up is lost: while an event is pending, the descriptor is armed, and not too late.
use corpc.Base.{
  ℕ, ◌+◌, ◌-◌, ◌*◌, ◌≤◌, ◌<◌, ◌≡◌, ◌⊎◌, inl, inr, true, false, Option, none, some, List, [], ◌∷◌,
  arith, leb, ltb, ltb→lt, Bool-cases,
}
use corpc.Timer.{
  TimerEvent, Entry, Timer, Timespec, timespec, emplace, arm_for, reset_arrive_time, is_reset,
  add_timer_event, erase_event, del_timer_event, take_due, add_repeated, on_timer,
}
use corpc.Timer.Order.{IsSorted, From, pending-reset_arrive_time}

-- The time at which an armed descriptor expires, in nanoseconds after 0.
abbrev pub expiry : ℕ × Timespec → ℕ
expiry (now, spec) = now * 1_000_000 + spec.tv_sec * 1_000_000_000 + spec.tv_nsec

-- The seconds and nanoseconds of `resetArriveTime` are the interval, well formed, and not both 0,
-- which would disarm the descriptor.
timespec_lem :
    (now interval : ℕ)
    → 0 < interval
    → (expiry (now, timespec interval) ≡ (now + interval) * 1_000_000)
      × ((timespec interval).tv_nsec < 1_000_000_000)
      × (0 < (timespec interval).tv_sec + (timespec interval).tv_nsec)
timespec_lem now interval h = (omega arith, omega arith, omega arith)

-- The descriptor is armed for the first key at the latest, or for 10 ms after `now`.
abbrev pub Armed : ℕ → Option (ℕ × Timespec) → ℕ → Type 0
Armed now none key = ⊥
Armed now (some a) key = (expiry a ≤ key * 1_000_000) ⊎ (expiry a ≤ (now + 10) * 1_000_000)

abbrev pub Wakes : ℕ → Option (ℕ × Timespec) → List Entry → Type 0
Wakes now armed [] = Unit
Wakes now armed (x ∷ l) = Armed now armed x.key

-- Each key is the arrival time of its event: nobody has reset an event that is pending.
abbrev pub Keyed : (ℕ → TimerEvent) → List Entry → Type 0
Keyed events [] = Unit
Keyed events (x ∷ l) = (x.key ≡ (events x.event).arrive_time) × Keyed events l

arm_for-Wakes : (t : Timer) (now : ℕ) (l : List Entry) → Wakes now (arm_for t now l).armed l
unfolding arm_for
arm_for-Wakes t now [] = tt
arm_for-Wakes t now (x ∷ l) = elim (Bool-cases (ltb now x.key)) [
  | inl ahead ↦
      rw ahead (inl (omega (arith, timespec_lem now (x.key - now), ltb→lt now x.key ahead)))
  | inr overdue ↦ rw overdue (inr (omega (arith, timespec_lem now 10)))
]

-- `resetArriveTime` arms the descriptor for the first pending event.
pub reset_arrive_time-Wakes :
    (t : Timer) (now : ℕ) → Wakes now (reset_arrive_time t now).armed t.pending
unfolding reset_arrive_time
reset_arrive_time-Wakes t now = arm_for-Wakes t now t.pending

Wakes-mono :
    (now now' : ℕ) (armed : Option (ℕ × Timespec)) (l : List Entry)
    → now ≤ now'
    → Wakes now armed l
    → Wakes now' armed l
Wakes-mono now now' armed [] h w = tt
Wakes-mono now now' none (x ∷ l) h w = absurd w
Wakes-mono now now' (some a) (x ∷ l) h (inl w) = inl w
Wakes-mono now now' (some a) (x ∷ l) h (inr w) = inr (omega arith)

-- A new event that does not ask for a reset goes behind the first one.
emplace-Wakes :
    (events : ℕ → TimerEvent) (e : Entry) (l : List Entry) (now at : ℕ)
    (armed : Option (ℕ × Timespec))
    → Keyed events l
    → is_reset events l e.key at ≡ false
    → Wakes now armed l
    → Wakes now armed (emplace e l)
unfolding is_reset emplace
emplace-Wakes events e [] now at armed k h w = cc
emplace-Wakes events e (x ∷ l) now at armed k h w =
    let behind : leb x.key e.key ≡ true = ground (arith, k.0) in rw behind w

-- While an event is pending the descriptor stays armed for the first one at the latest, or for
-- 10 ms after the last call: `addTimerEvent` keeps this, also where it does not arm anew.
pub add_timer_event-Wakes :
    (t : Timer) (id before now arm_now : ℕ)
    → Keyed t.events t.pending
    → Wakes before t.armed t.pending
    → before ≤ arm_now
    → let t' = add_timer_event t id true now arm_now in Wakes arm_now t'.armed t'.pending
unfolding add_timer_event
add_timer_event-Wakes t id before now arm_now k w h =
    elim (Bool-cases (is_reset t.events t.pending (t.events id).arrive_time now)) [
      | inl anew ↦
          rw anew
            (rw (pending-reset_arrive_time added arm_now) (reset_arrive_time-Wakes added arm_now))
      | inr kept ↦ rw kept (
          Wakes-mono before arm_now t.armed added.pending h
            (emplace-Wakes t.events e t.pending before now t.armed k kept w))
    ]
  where
    e : Entry
    e = record { key = (t.events id).arrive_time; event = id }

    added : Timer
    added = record t { pending = emplace e t.pending }

-- `onTimer` arms the descriptor for what is pending when it ends.
pub on_timer-Wakes :
    (t : Timer) (now : ℕ) (clock : ℕ → ℕ) (arm_now : ℕ)
    → let t' = (on_timer t now clock arm_now).1 in Wakes arm_now t'.armed t'.pending
unfolding on_timer
on_timer-Wakes t now clock arm_now =
    rw (pending-reset_arrive_time done arm_now) (reset_arrive_time-Wakes done arm_now)
  where
    done : Timer
    done =
        add_repeated (record t { pending = (take_due t.events now t.pending).1 }) clock
          (take_due t.events now t.pending).0

Armed-mono :
    (now : ℕ) (armed : Option (ℕ × Timespec)) (key key' : ℕ)
    → key ≤ key'
    → Armed now armed key
    → Armed now armed key'
Armed-mono now none key key' h w = absurd w
Armed-mono now (some a) key key' h (inl w) = inl (omega arith)
Armed-mono now (some a) key key' h (inr w) = inr w

erase_event-Wakes :
    (a id now : ℕ) (armed : Option (ℕ × Timespec)) (l : List Entry)
    → From 0 l
    → Wakes now armed l
    → Wakes now armed (erase_event a id l)
unfolding erase_event
erase_event-Wakes a id now armed [] f w = tt
erase_event-Wakes a id now armed (x ∷ []) f w = ground arith
erase_event-Wakes a id now armed (x ∷ y ∷ l) f w =
    ground (arith, Armed-mono now armed x.key y.key f.1.0 w)

-- `delTimerEvent` arms nothing, and keeps the promise for what is left.
pub del_timer_event-Wakes :
    (t : Timer) (id now : ℕ)
    → IsSorted t
    → Wakes now t.armed t.pending
    → let t' = del_timer_event t id in Wakes now t'.armed t'.pending
unfolding del_timer_event
del_timer_event-Wakes t id now s w =
    erase_event-Wakes (t.events id).arrive_time id now t.armed t.pending s w
