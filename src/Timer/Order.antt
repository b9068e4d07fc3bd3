-- ===== src/Timer/Order.antt =====
-- The pending entries are in the order of their keys, whatever is called.
use corpc.Base.{ℕ, ◌≤◌, ◌≡◌, refl, Bool, false, List, [], ◌∷◌, arith, Bool-cases, inl, inr}
use corpc.Timer.{
  TimerEvent, Entry, Timer, emplace, arm_for, reset_arrive_time, add_timer_event, erase_event,
  del_timer_event, take_due, repeat_event, add_repeated, on_timer,
}

-- Keys are at least `lo`, and rise.
abbrev pub From : ℕ → List Entry → Type 0
From lo [] = Unit
From lo (x ∷ l) = (lo ≤ x.key) × From x.key l

abbrev pub IsSorted : Timer → Type 0
IsSorted t = From 0 t.pending

pub From-mono : (lo lo' : ℕ) (l : List Entry) → lo' ≤ lo → From lo l → From lo' l
From-mono lo lo' [] h f = tt
From-mono lo lo' (x ∷ l) h f = (omega arith, f.1)

pub emplace-From :
    (lo : ℕ) (e : Entry) (l : List Entry) → lo ≤ e.key → From lo l → From lo (emplace e l)
unfolding emplace
emplace-From lo e [] h f = (h, tt)
emplace-From lo e (x ∷ l) h f = ground (arith, emplace-From x.key e l)

pub erase_event-From : (lo a id : ℕ) (l : List Entry) → From lo l → From lo (erase_event a id l)
unfolding erase_event
erase_event-From lo a id [] f = tt
erase_event-From lo a id (x ∷ l) f =
    ground (arith, erase_event-From x.key a id l, From-mono x.key lo l)

pub take_due-From :
    (events : ℕ → TimerEvent) (now lo : ℕ) (l : List Entry)
    → From lo l
    → From lo (take_due events now l).1
unfolding take_due
take_due-From events now lo [] f = tt
take_due-From events now lo (x ∷ l) f =
    ground (arith, take_due-From events now x.key l, From-mono x.key lo (take_due events now l).1)

pub pending-reset_arrive_time :
    (t : Timer) (now : ℕ) → (reset_arrive_time t now).pending ≡ t.pending
unfolding reset_arrive_time
pending-reset_arrive_time t now = go t.pending
  where
    go : (l : List Entry) → (arm_for t now l).pending ≡ t.pending
    go [] = refl
    go (x ∷ l) = refl

pub pending-add_timer_event :
    (t : Timer) (id : ℕ) (need_reset : Bool) (now arm_now : ℕ)
    → (add_timer_event t id need_reset now arm_now).pending
      ≡ emplace (record { key = (t.events id).arrive_time; event = id }) t.pending
unfolding add_timer_event
pending-add_timer_event t id need_reset now arm_now = ground (
  arith,
  pending-reset_arrive_time
      (record t {
        pending = emplace (record { key = (t.events id).arrive_time; event = id }) t.pending;
      })
      arm_now,
)

-- `addTimerEvent` keeps the order.
pub add_timer_event-IsSorted :
    (t : Timer) (id : ℕ) (need_reset : Bool) (now arm_now : ℕ)
    → IsSorted t
    → IsSorted (add_timer_event t id need_reset now arm_now)
add_timer_event-IsSorted t id need_reset now arm_now s =
    rw (pending-add_timer_event t id need_reset now arm_now)
      (emplace-From 0 _ t.pending (omega arith) s)

repeat_event-IsSorted :
    (t : Timer) (clock : ℕ → ℕ) (x : Entry) → IsSorted t → IsSorted (repeat_event t clock x)
unfolding repeat_event
repeat_event-IsSorted t clock x s = elim (Bool-cases (t.events x.event).is_repeated) [
  | inl again ↦ rw again (add_timer_event-IsSorted _ x.event false _ _ s)
  | inr once ↦ rw once s
]

add_repeated-IsSorted :
    (clock : ℕ → ℕ) (l : List Entry) (t : Timer) → IsSorted t → IsSorted (add_repeated t clock l)
unfolding add_repeated
add_repeated-IsSorted clock [] t s = s
add_repeated-IsSorted clock (x ∷ l) t s =
    add_repeated-IsSorted clock l (repeat_event t clock x) (repeat_event-IsSorted t clock x s)

-- `delTimerEvent` keeps the order.
pub del_timer_event-IsSorted : (t : Timer) (id : ℕ) → IsSorted t → IsSorted (del_timer_event t id)
unfolding del_timer_event
del_timer_event-IsSorted t id s = erase_event-From 0 (t.events id).arrive_time id t.pending s

-- `onTimer` keeps the pending entries in the order of their keys, also when repeated events start
-- anew.
pub on_timer-IsSorted :
    (t : Timer) (now : ℕ) (clock : ℕ → ℕ) (arm_now : ℕ)
    → IsSorted t
    → IsSorted (on_timer t now clock arm_now).1
unfolding on_timer
on_timer-IsSorted t now clock arm_now s =
    rw
      (pending-reset_arrive_time
        (add_repeated (record t { pending = (take_due t.events now t.pending).1 }) clock
          (take_due t.events now t.pending).0)
        arm_now)
      (add_repeated-IsSorted clock (take_due t.events now t.pending).0 _
        (take_due-From t.events now 0 t.pending s))
