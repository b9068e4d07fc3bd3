-- ===== src/Processor/Events.antt =====
-- From a batch of events to the turns of the coroutines, and the descriptors over a wait.
use corpc.Base.{
  ℕ, ◌+◌, ◌*◌, ◌≡◌, refl, sym, ap, ◌∙◌, inl, inr, Bool, true, false, Option, none, some, List, [],
  ◌∷◌, ◌++◌, append_assoc, append-nil, ap₂, length, ◌==◌, ==_iff, ◌&&◌, ◌||◌, if◌then◌else◌,
  Bool-cases, arith,
}
use corpc.Processor.{contains, Processor, run_due, loop_round}
use corpc.Processor.Turns.{count, view, ask}
use corpc.Processor.Rounds.{asked, arrive, settle, loop_round-view, run_due-view}
use corpc.Processor.Epoller.{
  Epoller, erase_first, add_event, del_event, Event, Activity, activate, take_event, take_events,
  widen, get_active_tasks, wait_event, after_wait,
}

-- How often an event asks for the coroutine: for reading and for writing, if the descriptor is neither
-- that of the wake-ups nor that of the timer.
abbrev pub is_for : Option ℕ → ℕ → ℕ
is_for none co = 0
is_for (some x) co = if x == co then 1 else 0

abbrev pub one_if : Bool → ℕ
one_if true = 1
one_if false = 0

unfoldable pub asks_event : ℕ → ℕ → ℕ → Event → ℕ
asks_event wake_fd timer_fd co v =
    if ((v.fd == wake_fd) || (v.fd == timer_fd)) && v.can_read
    then 0
    else is_for v.coroutine co * (one_if v.can_read + one_if v.can_write)

unfoldable pub asks : ℕ → ℕ → ℕ → List Event → ℕ
asks wake_fd timer_fd co [] = 0
asks wake_fd timer_fd co (v ∷ events) =
    asks_event wake_fd timer_fd co v + asks wake_fd timer_fd co events

-- The coroutines that the events of the timer resume.
unfoldable pub due_event : ℕ → ℕ → Event → List ℕ
due_event wake_fd timer_fd v =
    if (v.fd == wake_fd) && v.can_read
    then []
    else (if (v.fd == timer_fd) && v.can_read then v.due else [])

unfoldable pub due : ℕ → ℕ → List Event → List ℕ
due wake_fd timer_fd [] = []
due wake_fd timer_fd (v ∷ events) = due_event wake_fd timer_fd v ++ due wake_fd timer_fd events

-- Every event is one of reading or writing.
abbrev pub AreKnown : List Event → Type 0
AreKnown [] = Unit
AreKnown (v ∷ events) = ((v.can_read || v.can_write) ≡ true) × AreKnown events

asked-append :
    (xs : List (Option ℕ)) (c : Option ℕ) (co : ℕ)
    → count co (asked (xs ++ c ∷ [])) ≡ count co (asked xs) + is_for c co
unfolding asked count
asked-append [] none co = omega arith
asked-append [] (some x) co = omega arith
asked-append (none ∷ xs) c co = asked-append xs c co
asked-append (some x ∷ xs) c co = omega (arith, asked-append xs c co)

activate-asks :
    (a : Activity) (fd : ℕ) (c : Option ℕ) (r w removed : Bool) (later : List ℕ) (co : ℕ)
    → count co (
        asked
          (activate a (record {
            fd = fd;
            coroutine = c;
            can_read = r;
            can_write = w;
            removed = removed;
            due = later;
          })).tasks)
      ≡ count co (asked a.tasks) + is_for c co * (one_if r + one_if w)
activate-asks a fd c true true removed later co =
    omega (arith, asked-append (a.tasks ++ c ∷ []) c co, asked-append a.tasks c co)
activate-asks a fd c true false removed later co = omega (arith, asked-append a.tasks c co)
activate-asks a fd c false true removed later co = omega (arith, asked-append a.tasks c co)
activate-asks a fd c false false removed later co = omega arith

and_false : (b : Bool) → (b && false) ≡ false
and_false true = refl
and_false false = refl

-- One event: a step that keeps the epoller.
Asks : Activity → Event → ℕ → Activity → Type 0
Asks a v co b =
    (take_event a v ≡ some b)
    × (b.epoller ≡ a.epoller)
    × (count co (asked b.tasks)
        ≡ count co (asked a.tasks) + asks_event a.epoller.wake_fd a.epoller.timer_fd co v)
    × (b.resumed ≡ a.resumed ++ due_event a.epoller.wake_fd a.epoller.timer_fd v)

take_event-Asks :
    (a : Activity) (fd : ℕ) (c : Option ℕ) (r w removed : Bool) (later : List ℕ) (co : ℕ)
    → (r || w) ≡ true
    → (b : Activity) × Asks a
        (record {
          fd = fd;
          coroutine = c;
          can_read = r;
          can_write = w;
          removed = removed;
          due = later;
        })
        co
        b
unfolding take_event asks_event due_event Asks
take_event-Asks a fd c true w removed later co known =
    let v : Event = record {
      fd = fd;
      coroutine = c;
      can_read = true;
      can_write = w;
      removed = removed;
      due = later;
    } in
    elim (Bool-cases (fd == a.epoller.wake_fd)) [
      | inl wake ↦
          (a, (rw wake refl, refl, rw wake (omega arith), rw wake (sym (append-nil a.resumed))))
      | inr other ↦ elim (Bool-cases (fd == a.epoller.timer_fd)) [
        | inl timer ↦ (
          record a { resumed = a.resumed ++ later },
          (rw (other, timer) refl, refl, rw (other, timer) (omega arith), rw (other, timer) refl),
        )
        | inr neither ↦ (
          activate a v,
          (
            rw (other, neither) refl,
            refl,
            rw (other, neither) (activate-asks a fd c true w removed later co),
            rw (other, neither) (sym (append-nil a.resumed)),
          ),
        )
      ]
    ]
take_event-Asks a fd c false true removed later co known =
    let v : Event = record {
      fd = fd;
      coroutine = c;
      can_read = false;
      can_write = true;
      removed = removed;
      due = later;
    } in
    (
      activate a v,
      (
        rw (and_false (fd == a.epoller.wake_fd), and_false (fd == a.epoller.timer_fd)) refl,
        refl,
        rw (and_false ((fd == a.epoller.wake_fd) || (fd == a.epoller.timer_fd)))
            (activate-asks a fd c false true removed later co),
        rw (and_false (fd == a.epoller.wake_fd), and_false (fd == a.epoller.timer_fd))
            (sym (append-nil a.resumed)),
      ),
    )
take_event-Asks a fd c false false removed later co known = cc

take_events-asks :
    (co : ℕ) (events : List Event) (a : Activity)
    → AreKnown events
    → (b : Activity) × (take_events a events ≡ some b)
      × (b.epoller ≡ a.epoller)
      × (count co (asked b.tasks)
          ≡ count co (asked a.tasks) + asks a.epoller.wake_fd a.epoller.timer_fd co events)
      × (b.resumed ≡ a.resumed ++ due a.epoller.wake_fd a.epoller.timer_fd events)
unfolding take_events asks due Asks
take_events-asks co [] a known = (a, refl, refl, omega arith, sym (append-nil a.resumed))
take_events-asks co (v ∷ events) a (k, known) =
    let (a', (one, same, more, first)) =
      take_event-Asks a v.fd v.coroutine v.can_read v.can_write v.removed v.due co k in
    let (b, rest, same', more', later) = take_events-asks co events a' known in
    let moved : asks a'.epoller.wake_fd a'.epoller.timer_fd co events
        ≡ asks a.epoller.wake_fd a.epoller.timer_fd co events =
      ap (λ (e : Epoller). asks e.wake_fd e.timer_fd co events) same in
    (
      b,
      rw one rest,
      same' ∙ same,
      omega (arith, more, more', moved),
      later
          ∙ ap₂ (λ l (e : Epoller). l ++ due e.wake_fd e.timer_fd events) first same
          ∙ append_assoc a.resumed (due_event a.epoller.wake_fd a.epoller.timer_fd v)
              (due a.epoller.wake_fd a.epoller.timer_fd events),
    )

-- A round of the loop for a batch of events that are all of reading or writing. `getActiveTasks` returns
-- and, but for what the coroutines do that it resumes, registers no descriptor and takes none out. It
-- resumes the coroutines of the timer's due tasks for each event of the timer that can be read. Every
-- coroutine gets a turn for each of these requests, then for each request of the new coroutines, and then
-- for each event of its own, one for reading and one for writing, as long as it is in the set and has not
-- returned. Events of the descriptors of the wake-ups and of the timer that can be read activate nobody.
pub loop_round-events :
    (e : Epoller) (events : List Event) (p : Processor) (pending : List ℕ) (co : ℕ)
    → AreKnown events
    → (a : Activity) × (get_active_tasks e (some events) ≡ some a)
      × (a.epoller.fds ≡ e.fds)
      × (a.resumed ≡ due e.wake_fd e.timer_fd events)
      × (view co (loop_round (run_due p a.resumed) pending a.tasks)
          ≡ settle (
              ask (asks e.wake_fd e.timer_fd co events) (
                arrive
                  (count co pending)
                  (ask (count co (due e.wake_fd e.timer_fd events)) (view co p)))))
unfolding get_active_tasks asked count
loop_round-events e events p pending co known =
    let (b, done, same, more, resumed) =
      take_events-asks co events (record { epoller = e; tasks = []; resumed = [] }) known in
    let n : count co (asked b.tasks) ≡ asks e.wake_fd e.timer_fd co events = more ∙ omega arith in
    let p' = run_due p b.resumed in
    let w = widened b (length events) in
    (
      widen b (length events),
      rw done refl,
      w.0 ∙ ap (λ (e : Epoller). e.fds) same,
      w.2 ∙ resumed,
      ap₂ (λ t l. view co (loop_round (run_due p l) pending t)) w.1 w.2
          ∙ loop_round-view co p' pending b.tasks
          ∙ ap₂ (λ k v. settle (ask k (arrive (count co pending) v))) n
              (run_due-view co b.resumed p ∙ ap (λ l. ask (count co l) (view co p)) resumed),
    )
  where
    widened :
        (b : Activity) (n : ℕ)
        → ((widen b n).epoller.fds ≡ b.epoller.fds)
          × ((widen b n).tasks ≡ b.tasks)
          × ((widen b n).resumed ≡ b.resumed)
    widened b n = elim (Bool-cases (n == b.epoller.active_events_size)) [
      | inl full ↦ rw full (refl, refl, refl)
      | inr room ↦ rw room (refl, refl, refl)
    ]

erase_first-middle :
    (xs ys : List ℕ) (a : ℕ) → contains xs a ≡ false → erase_first (xs ++ a ∷ ys) a ≡ xs ++ ys
unfolding erase_first contains
erase_first-middle [] ys a h = let here : (a == a) ≡ true = (==_iff a a).1 refl in rw here refl
erase_first-middle (x ∷ xs) ys a h = elim (Bool-cases (x == a)) [
  | inl same ↦ let e : true ≡ false = sym (ap (λ b. b || contains xs a) same) ∙ h in cc
  | inr other ↦
      let h' : contains xs a ≡ false = sym (ap (λ b. b || contains xs a) other) ∙ h in
      rw other (ap (λ l. x ∷ l) (erase_first-middle xs ys a h'))
]

contains-middle : (xs ys : List ℕ) (a : ℕ) → contains (xs ++ a ∷ ys) a ≡ true
unfolding contains
contains-middle [] ys a = let here : (a == a) ≡ true = (==_iff a a).1 refl in rw here refl
contains-middle (x ∷ xs) ys a = elim (Bool-cases (x == a)) [
  | inl same ↦ rw same refl
  | inr other ↦ rw other (contains-middle xs ys a)
]

-- `waitEvent` on a descriptor that is not registered: it is registered for the wait, and behind it,
-- whatever others have registered meanwhile, the descriptors are those from before the wait and the
-- others' ones. epoll_ctl does both calls.
pub wait_event-after_wait :
    (e : Epoller) (fd : ℕ) (others : List ℕ)
    → contains e.fds fd ≡ false
    → (e' : Epoller) × (wait_event e fd true ≡ some (true, e'))
      × (contains e'.fds fd ≡ true)
      × (after_wait (record e' { fds = e'.fds ++ others }) fd true
          ≡ some (true, record e { fds = e.fds ++ others }))
unfolding add_event del_event
wait_event-after_wait e fd others absent =
    let assoc = append_assoc e.fds (fd ∷ []) others in
    let there : contains ((e.fds ++ fd ∷ []) ++ others) fd ≡ true =
      ap (λ l. contains l fd) assoc ∙ contains-middle e.fds others fd in
    (
      record e { fds = e.fds ++ fd ∷ [] },
      rw absent refl,
      contains-middle e.fds [] fd,
      rw there (
          ap (λ l. some (true, record e { fds = l }))
            (ap (λ l. erase_first l fd) assoc ∙ erase_first-middle e.fds others fd absent)),
    )
