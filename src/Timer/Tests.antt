-- ===== src/Timer/Tests.antt =====
-- Small timers, and the theorems at them.
use corpc.Base.{ℕ, ◌*◌, ◌≡◌, inl, inr, refl, true, false, some, [], ◌∷◌, arith, ◌==◌}
use corpc.Timer.{
  TimerEvent, Entry, Timer, timespec, add_timer_event, del_timer_event, on_timer, reset_arrive_time,
  emplace, take_due, add_repeated,
}
use corpc.Timer.Order.{IsSorted, add_timer_event-IsSorted, del_timer_event-IsSorted}
use corpc.Timer.Wake.{Wakes, add_timer_event-Wakes, on_timer-Wakes, del_timer_event-Wakes}
use corpc.Timer.Fire.{on_timer-tasks, on_timer-pending, on_timer_blocked}
use corpc.Timer.Delete.{del_timer_event-pending, del_timer_event-Absent}

-- Event `i` is due at `10 * i` and runs task `i`; event 2 is repeated.
abbrev events : ℕ → TimerEvent
events i = record {
  arrive_time = i * 10;
  interval = 5;
  is_repeated = i == 2;
  is_cancled = false;
  task = i;
}

abbrev at : ℕ → ℕ → Entry
at key event = record { key = key; event = event }

-- Events 1, 3 and 4 are pending, and the descriptor is armed for the first.
abbrev three : Timer
three = record {
  events = events;
  pending = at 10 1 ∷ at 30 3 ∷ at 40 4 ∷ [];
  armed = some (0, timespec 10);
}

abbrev with_repeated : Timer
with_repeated = record three { pending = at 10 1 ∷ at 20 2 ∷ at 40 4 ∷ [] }

-- Event 2 runs at 25 and is put back for 26 + 5.
fires :
    let (tasks, t) = on_timer with_repeated 25 (λ i. 26) 27 in
    (tasks ≡ 1 ∷ 2 ∷ []) × (t.pending ≡ at 31 2 ∷ at 40 4 ∷ [])
unfolding on_timer take_due add_repeated add_timer_event emplace reset_arrive_time
fires = (refl, refl)

add_timer_event-IsSorted_example : IsSorted (add_timer_event three 2 true 5 6)
add_timer_event-IsSorted_example = add_timer_event-IsSorted three 2 true 5 6 (omega arith)

del_timer_event-IsSorted_example : IsSorted (del_timer_event three 3)
del_timer_event-IsSorted_example = del_timer_event-IsSorted three 3 (omega arith)

add_timer_event-Wakes_example :
    let t' = add_timer_event three 2 true 5 6 in Wakes 6 t'.armed t'.pending
add_timer_event-Wakes_example =
    add_timer_event-Wakes three 2 0 5 6 (omega arith) (inl (omega arith)) (omega arith)

on_timer-Wakes_example :
    let t' = (on_timer with_repeated 25 (λ i. 26) 27).1 in Wakes 27 t'.armed t'.pending
on_timer-Wakes_example = on_timer-Wakes with_repeated 25 (λ i. 26) 27

del_timer_event-Wakes_example : let t' = del_timer_event three 1 in Wakes 0 t'.armed t'.pending
del_timer_event-Wakes_example = del_timer_event-Wakes three 1 0 (omega arith) (inl (omega arith))

on_timer-tasks_example : (on_timer three 35 (λ i. 36) 37).0 ≡ 1 ∷ 3 ∷ []
on_timer-tasks_example =
    on_timer-tasks three 35 (λ i. 36) 37 (omega arith) (refl, (refl, (refl, tt)))

on_timer-pending_example : (on_timer three 35 (λ i. 36) 37).1.pending ≡ at 40 4 ∷ []
on_timer-pending_example =
    on_timer-pending three 35 (λ i. 36) 37 (omega arith) (refl, (refl, (refl, tt)))
      (refl, (refl, tt))

abbrev blocked : Timer
blocked = record three { events = λ i. record (events i) { is_cancled = i == 1 } }

on_timer_blocked_example :
    ((on_timer blocked 99 (λ i. 99) 99).0 ≡ [])
    × ((on_timer blocked 99 (λ i. 99) 99).1.pending ≡ three.pending)
on_timer_blocked_example =
    on_timer_blocked blocked 99 (λ i. 99) 99 (at 10 1) (at 30 3 ∷ at 40 4 ∷ []) refl refl

del_timer_event-pending_example : (del_timer_event three 3).pending ≡ at 10 1 ∷ at 40 4 ∷ []
del_timer_event-pending_example =
    del_timer_event-pending three 3 (omega arith) (omega arith) (omega arith) (inr (inl refl))

-- Event 2 is not pending; event 3 is erased in its place.
del_timer_event-Absent_example : (del_timer_event three 2).pending ≡ at 10 1 ∷ at 40 4 ∷ []
del_timer_event-Absent_example =
    del_timer_event-Absent three 2 (at 10 1 ∷ []) (at 30 3 ∷ at 40 4 ∷ []) refl (omega arith)
      (omega arith) (omega arith)
