-- ===== src/Timer/Delete.antt =====
-- What `delTimerEvent` takes out of the map.
use corpc.Base.{
  ℕ, ◌+◌, ◌≤◌, ◌≡◌, ◌≢◌, refl, sym, ap, ◌∙◌, ◌⊎◌, inl, inr, List, [], ◌∷◌, ◌++◌, arith, ◌==◌,
  if◌then◌else◌,
}
use mathlib.Core.List.{tail}
use corpc.Timer.{TimerEvent, Entry, Timer, erase_event, del_timer_event}
use corpc.Timer.Order.{IsSorted, From}
use corpc.Timer.Wake.{Keyed}

abbrev pub Absent : ℕ → List Entry → Type 0
Absent id [] = Unit
Absent id (x ∷ l) = (x.event ≢ id) × Absent id l

-- No event is pending twice.
abbrev pub Distinct : List Entry → Type 0
Distinct [] = Unit
Distinct (x ∷ l) = Absent x.event l × Distinct l

abbrev pub Has : ℕ → List Entry → Type 0
Has id [] = ⊥
Has id (x ∷ l) = (x.event ≡ id) ⊎ Has id l

-- The entries of the other events.
abbrev pub without : ℕ → List Entry → List Entry
without id [] = []
without id (x ∷ l) = if x.event == id then without id l else x ∷ without id l

without-Absent : (id : ℕ) (l : List Entry) → Absent id l → without id l ≡ l
without-Absent id [] a = refl
without-Absent id (x ∷ l) a = ground (arith, without-Absent id l)

Has-le :
    (events : ℕ → TimerEvent) (id lo : ℕ) (l : List Entry)
    → From lo l
    → Keyed events l
    → Has id l
    → lo ≤ (events id).arrive_time
Has-le events id lo [] f k h = absurd h
Has-le events id lo (x ∷ l) f k (inl e) = rw (← e, ← k.0) f.0
Has-le events id lo (x ∷ l) f k (inr h) = omega (arith, Has-le events id x.key l f.1 k.1 h)

Absent-Has : (i id : ℕ) (l : List Entry) → Absent i l → Has id l → i ≢ id
Absent-Has i id [] a h = absurd h
Absent-Has i id (x ∷ l) a (inl e) = λ same. a.0 (e ∙ sym same)
Absent-Has i id (x ∷ l) a (inr h) = Absent-Has i id l a.1 h

erase_event-without :
    (events : ℕ → TimerEvent) (id lo : ℕ) (l : List Entry)
    → From lo l
    → Keyed events l
    → Distinct l
    → Has id l
    → erase_event (events id).arrive_time id l ≡ without id l
unfolding erase_event
erase_event-without events id lo [] f k d h = refl
erase_event-without events id lo (x ∷ l) f k d (inl e) =
    let on_time : x.key ≡ (events id).arrive_time = k.0 ∙ ap (λ i. (events i).arrive_time) e in
    ground (arith, e, on_time, without-Absent id l (rw e at (d.0)))
erase_event-without events id lo (x ∷ l) f k d (inr h) = ground (
  arith,
  Absent-Has x.event id l d.0 h,
  Has-le events id x.key l f.1 k.1 h,
  erase_event-without events id x.key l f.1 k.1 d.1 h,
)

-- A pending event leaves the map, and all others stay, in their order.
pub del_timer_event-pending :
    (t : Timer) (id : ℕ)
    → IsSorted t
    → Keyed t.events t.pending
    → Distinct t.pending
    → Has id t.pending
    → (del_timer_event t id).pending ≡ without id t.pending
unfolding del_timer_event
del_timer_event-pending t id s k d h = erase_event-without t.events id 0 t.pending s k d h

-- The keys of a list are at most `a`.
abbrev pub UpTo : ℕ → List Entry → Type 0
UpTo a [] = Unit
UpTo a (x ∷ l) = (x.key ≤ a) × UpTo a l

erase_event-Absent :
    (a id : ℕ) (early late : List Entry)
    → UpTo a early
    → Absent id early
    → From (a + 1) late
    → erase_event a id (early ++ late) ≡ early ++ tail late
unfolding erase_event
erase_event-Absent a id [] [] u b f = refl
erase_event-Absent a id [] (y ∷ late) u b f = ground arith
erase_event-Absent a id (x ∷ early) late u b f = ground (arith, erase_event-Absent a id early late)

-- For an event that is no longer pending, such as one that has fired, another one is erased: the
-- first that is due later than this one was.
pub del_timer_event-Absent :
    (t : Timer) (id : ℕ) (early late : List Entry)
    → t.pending ≡ early ++ late
    → UpTo (t.events id).arrive_time early
    → From ((t.events id).arrive_time + 1) late
    → Absent id early
    → (del_timer_event t id).pending ≡ early ++ tail late
unfolding del_timer_event
del_timer_event-Absent t id early late e u f b =
    rw e (erase_event-Absent (t.events id).arrive_time id early late u b f)
