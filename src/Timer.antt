-- ===== src/Timer.antt =====
-- corpc/coroutine/timer.{h,cc}: timed tasks behind one timer file descriptor.
-- Events are shared objects, so they stand in a store and are named by a number; the map holds the
-- name under the key that it was given. Times are milliseconds, nonnegative and below 2^63. Each
-- reading of the clock (`getNowMs`) is an argument.
pub mod Order
pub mod Wake
pub mod Fire
pub mod Delete
mod Tests
use corpc.Base.{
  ℕ, ◌+◌, ◌-◌, ◌*◌, ◌/◌, ◌%◌, Bool, true, false, not, ◌&&◌, ◌||◌, Option, none, some, List, [], ◌∷◌,
  map, ltb, leb, ◌==◌, if◌then◌else◌,
}

-- `m_task` is named by a number.
pub record TimerEvent : Type 0 where
  pub arrive_time : ℕ
  pub interval : ℕ
  pub is_repeated : Bool
  pub is_cancled : Bool
  pub task : ℕ

-- The constructor of `TimerEvent`.
pub create_event : ℕ → Bool → ℕ → ℕ → TimerEvent
create_event interval is_repeated task now = record {
  arrive_time = now + interval;
  interval = interval;
  is_repeated = is_repeated;
  is_cancled = false;
  task = task;
}

abbrev pub reset_time : ℕ → TimerEvent → TimerEvent
reset_time now e = record e { arrive_time = now + e.interval; is_cancled = false }

abbrev pub cancle : TimerEvent → TimerEvent
cancle e = record e { is_cancled = true }

-- An entry of `m_pending_events`.
pub record Entry : Type 0 where
  pub key : ℕ
  pub event : ℕ

-- `it_value` of `itimerspec`
pub record Timespec : Type 0 where
  pub tv_sec : ℕ
  pub tv_nsec : ℕ

-- `armed` is what the last `timerfd_settime` asked for: when, and how long from then.
pub record Timer : Type 0 where
  pub events : ℕ → TimerEvent
  pub pending : List Entry
  pub armed : Option (ℕ × Timespec)

abbrev pub update : (ℕ → TimerEvent) → ℕ → TimerEvent → ℕ → TimerEvent
update events id e j = if id == j then e else events j

-- `std::multimap::emplace`: behind all entries of the same key.
unfoldable pub emplace : Entry → List Entry → List Entry
emplace e [] = e ∷ []
emplace e (x ∷ l) = if leb x.key e.key then x ∷ emplace e l else e ∷ x ∷ l

abbrev pub timespec : ℕ → Timespec
timespec interval = record { tv_sec = interval / 1000; tv_nsec = interval % 1000 * 1_000_000 }

-- `resetArriveTime`, which arms the descriptor for the first entry.
arm_for : Timer → ℕ → List Entry → Timer
arm_for t now [] = t
arm_for t now (first ∷ l) =
    let interval = if ltb now first.key then first.key - now else 10 in
    record t { armed = some (now, timespec interval) }

unfoldable pub reset_arrive_time : Timer → ℕ → Timer
unfolding arm_for
reset_arrive_time t now = arm_for t now t.pending

-- The test of `addTimerEvent` for a new earliest event, or a first event that is overdue.
is_reset : (ℕ → TimerEvent) → List Entry → ℕ → ℕ → Bool
is_reset events [] arrive_time now = true
is_reset events (first ∷ l) arrive_time now =
    ltb arrive_time (events first.event).arrive_time || ltb (events first.event).arrive_time now

-- `addTimerEvent`; `arm_now` is the reading of `resetArriveTime`.
unfoldable pub add_timer_event : Timer → ℕ → Bool → ℕ → ℕ → Timer
unfolding is_reset
add_timer_event t id need_reset now arm_now =
    let arrive_time = (t.events id).arrive_time in
    let added = record t {
      pending = emplace (record { key = arrive_time; event = id }) t.pending;
    } in
    if is_reset t.events t.pending arrive_time now && need_reset
    then reset_arrive_time added arm_now
    else added

-- What `delTimerEvent` leaves of the sorted entries: `it` runs over those with the key
-- `arrive_time` until it meets the event, and stops at `upper_bound` otherwise; the entry where it
-- stops is erased, if there is one.
unfoldable pub erase_event : ℕ → ℕ → List Entry → List Entry
erase_event arrive_time id [] = []
erase_event arrive_time id (x ∷ l) =
    if ltb x.key arrive_time || (x.key == arrive_time && not (x.event == id))
    then x ∷ erase_event arrive_time id l
    else l

unfoldable pub del_timer_event : Timer → ℕ → Timer
del_timer_event t id = record t {
  events = update t.events id (cancle (t.events id));
  pending = erase_event (t.events id).arrive_time id t.pending;
}

-- The first loop of `onTimer`: the entries that fire, and those that stay.
unfoldable pub take_due : (ℕ → TimerEvent) → ℕ → List Entry → List Entry × List Entry
take_due events now [] = ([], [])
take_due events now (x ∷ l) =
    let rest = take_due events now l in
    if leb x.key now && not (events x.event).is_cancled then (x ∷ rest.0, rest.1) else ([], x ∷ l)

-- One round of the second loop: a repeated event starts anew, at its own reading of the clock.
pub repeat_event : Timer → (ℕ → ℕ) → Entry → Timer
repeat_event t clock x =
    let now = clock x.event in
    let anew = record t { events = update t.events x.event (reset_time now (t.events x.event)) } in
    if (t.events x.event).is_repeated then add_timer_event anew x.event false now now else t

unfoldable pub add_repeated : Timer → (ℕ → ℕ) → List Entry → Timer
unfolding repeat_event
add_repeated t clock [] = t
add_repeated t clock (x ∷ l) = add_repeated (repeat_event t clock x) clock l

-- `onTimer` after the descriptor has been read, with the tasks that it runs, in order.
unfoldable pub on_timer : Timer → ℕ → (ℕ → ℕ) → ℕ → List ℕ × Timer
on_timer t now clock arm_now =
    let due = take_due t.events now t.pending in
    (
      map (λ x. (t.events x.event).task) due.0,
      reset_arrive_time (add_repeated (record t { pending = due.1 }) clock due.0) arm_now,
    )
