-- ===== src/Timer/Fire.antt =====
-- Which tasks `onTimer` runs, and in which order.
use corpc.Base.{
  ℕ, ◌<◌, ◌≡◌, refl, ap, ◌∙◌, true, false, List, [], ◌∷◌, map, arith, leb, if◌then◌else◌,
}
use corpc.Timer.{TimerEvent, Entry, Timer, take_due, on_timer, add_repeated, repeat_event}
use corpc.Timer.Order.{IsSorted, From, pending-reset_arrive_time}

-- The entries whose time has come.
abbrev pub due_at : ℕ → List Entry → List Entry
due_at now [] = []
due_at now (x ∷ l) = if leb x.key now then x ∷ due_at now l else due_at now l

abbrev pub later_than : ℕ → List Entry → List Entry
later_than now [] = []
later_than now (x ∷ l) = if leb x.key now then later_than now l else x ∷ later_than now l

-- No pending event is cancelled.
abbrev pub AllLive : (ℕ → TimerEvent) → List Entry → Type 0
AllLive events [] = Unit
AllLive events (x ∷ l) = ((events x.event).is_cancled ≡ false) × AllLive events l

due_at_later :
    (now lo : ℕ) (l : List Entry)
    → now < lo
    → From lo l
    → (due_at now l ≡ []) × (later_than now l ≡ l)
due_at_later now lo [] h f = (refl, refl)
due_at_later now lo (x ∷ l) h f = ground (arith, due_at_later now x.key l)

take_due_lem :
    (events : ℕ → TimerEvent) (now lo : ℕ) (l : List Entry)
    → From lo l
    → AllLive events l
    → take_due events now l ≡ (due_at now l, later_than now l)
unfolding take_due
take_due_lem events now lo [] f a = refl
take_due_lem events now lo (x ∷ l) f a =
    ground (arith, take_due_lem events now x.key l f.1 a.1, due_at_later now x.key l)

-- Where no pending event is cancelled, `onTimer` runs the tasks of all events whose time has come,
-- in the order of their keys, and of no other.
pub on_timer-tasks :
    (t : Timer) (now : ℕ) (clock : ℕ → ℕ) (arm_now : ℕ)
    → IsSorted t
    → AllLive t.events t.pending
    → (on_timer t now clock arm_now).0 ≡ map (λ x. (t.events x.event).task) (due_at now t.pending)
unfolding on_timer
on_timer-tasks t now clock arm_now s a =
    ap (λ r. map (λ x. (t.events x.event).task) r.0) (take_due_lem t.events now 0 t.pending s a)

-- No event of the list is repeated.
abbrev pub AllOnce : (ℕ → TimerEvent) → List Entry → Type 0
AllOnce events [] = Unit
AllOnce events (x ∷ l) = ((events x.event).is_repeated ≡ false) × AllOnce events l

add_repeated-once :
    (t : Timer) (clock : ℕ → ℕ) (l : List Entry) → AllOnce t.events l → add_repeated t clock l ≡ t
unfolding add_repeated
add_repeated-once t clock [] a = refl
add_repeated-once t clock (x ∷ l) a =
    let once : repeat_event t clock x ≡ t = rw (a.0, repeat_event) in
    rw once (add_repeated-once t clock l a.1)

-- Where no pending event is cancelled and none whose time has come is repeated, exactly the later
-- ones stay pending after `onTimer`.
pub on_timer-pending :
    (t : Timer) (now : ℕ) (clock : ℕ → ℕ) (arm_now : ℕ)
    → IsSorted t
    → AllLive t.events t.pending
    → AllOnce t.events (due_at now t.pending)
    → (on_timer t now clock arm_now).1.pending ≡ later_than now t.pending
unfolding on_timer
on_timer-pending t now clock arm_now s a once =
    rw (pending-reset_arrive_time (add_repeated (left due.1) clock due.0) arm_now) (
      ap (λ r. (add_repeated (left r.1) clock r.0).pending)
        (take_due_lem t.events now 0 t.pending s a)
      ∙ ap (λ u. u.pending)
          (add_repeated-once (left (later_than now t.pending)) clock (due_at now t.pending) once))
  where
    left : List Entry → Timer
    left l = record t { pending = l }

    due : List Entry × List Entry
    due = take_due t.events now t.pending

-- A cancelled first event holds back every task, whatever the time, and nothing leaves the map.
pub on_timer_blocked :
    (t : Timer) (now : ℕ) (clock : ℕ → ℕ) (arm_now : ℕ) (first : Entry) (l : List Entry)
    → t.pending ≡ first ∷ l
    → (t.events first.event).is_cancled ≡ true
    → ((on_timer t now clock arm_now).0 ≡ [])
      × ((on_timer t now clock arm_now).1.pending ≡ t.pending)
unfolding on_timer take_due add_repeated
on_timer_blocked t now clock arm_now first l e c = (
  ap (λ r. map (λ x. (t.events x.event).task) r.0) none_due,
  rw (pending-reset_arrive_time (add_repeated (record t { pending = due.1 }) clock due.0) arm_now)
      (ap (λ r. (add_repeated (record t { pending = r.1 }) clock r.0).pending) none_due),
)
  where
    due : List Entry × List Entry
    due = take_due t.events now t.pending

    none_due : take_due t.events now t.pending ≡ ([], t.pending)
    none_due = rw e (rw c (ground arith))
