-- ===== src/Processor/Tests.antt =====
-- A processor with one coroutine that waits and one that is new.
use corpc.Base.{ℕ, ◌+◌, ◌≡◌, refl, true, false, none, some, List, [], ◌∷◌, ◌++◌}
use corpc.Processor.{
  co_waiting, Coroutine, Processor, contains, insert, erase, erase_all, run_until_switch, resume_co,
  resume, run_pending, run_active, run_due, loop_round,
}
use corpc.Processor.Turns.{turns_left, count, view, ask}
use corpc.Processor.Rounds.{arrive, settle}
use corpc.Processor.Freed.{Given, loop_rounds, Sound, loop_rounds-Sound}
use corpc.Processor.Epoller.{
  Epoller, add_event, add_wakeup_fd, new_epoller, Event, Activity, get_active_tasks, wait_event,
  after_wait,
}
use corpc.Processor.Events.{asks, due, loop_round-events, wait_event-after_wait}

-- Every coroutine yields once more before it returns.
abbrev cors : ℕ → Coroutine
cors x = record { status = co_waiting; yields_left = 1 }

abbrev pro : Processor
pro = record {
  cur_coroutine = none;
  cors_set = 7 ∷ [];
  removed_cors = [];
  cors = cors;
  ran = [];
  freed = [];
  use_after_free = false;
}

-- 7 is asked for twice and a third time behind its return.
order : (loop_round pro (8 ∷ []) (some 7 ∷ some 7 ∷ none ∷ some 7 ∷ [])).ran ≡ 8 ∷ 7 ∷ 7 ∷ []
unfolding loop_round run_pending run_active resume resume_co run_until_switch insert contains
order = refl

left_over : (loop_round pro (8 ∷ []) (some 7 ∷ some 7 ∷ [])).cors_set ≡ 8 ∷ []
unfolding loop_round run_pending run_active resume resume_co run_until_switch insert contains erase
    erase_all
left_over = refl

-- The timer asks for 7 behind its return, and an event behind the deletion of its object.
abbrev rounds : List Given
rounds =
    record { due = []; pending = 8 ∷ []; active = some 7 ∷ [] }
    ∷ record { due = 7 ∷ 7 ∷ []; pending = []; active = [] }
    ∷ record { due = []; pending = []; active = some 7 ∷ some 8 ∷ [] }
    ∷ []

loop_rounds-Sound_example :
    Sound (loop_rounds pro rounds)
    × ((co : ℕ)
        → count co (loop_rounds pro rounds).ran + turns_left ((loop_rounds pro rounds).cors co)
          ≡ count co [] + 2)
unfolding contains
loop_rounds-Sound_example =
    loop_rounds-Sound pro rounds ((λ co h. cc), refl)
      ((λ co h. cc), ((λ co h. refl), ((λ co h. refl), tt)))

abbrev epoller : Epoller
epoller = record { fds = 4 ∷ 5 ∷ []; timer_fd = 3; wake_fd = 4; active_events_size = 16 }

abbrev events : List Event
events =
    record {
      fd = 3;
      coroutine = none;
      can_read = true;
      can_write = false;
      removed = false;
      due = 7 ∷ [];
    }
    ∷ record {
      fd = 4;
      coroutine = none;
      can_read = true;
      can_write = false;
      removed = false;
      due = [];
    }
    ∷ record {
      fd = 5;
      coroutine = some 7;
      can_read = true;
      can_write = true;
      removed = false;
      due = [];
    }
    ∷ []

loop_round-events_example :
    (a : Activity) × (get_active_tasks epoller (some events) ≡ some a)
    × (a.epoller.fds ≡ epoller.fds)
    × (a.resumed ≡ due 4 3 events)
    × (view 7 (loop_round (run_due pro a.resumed) (8 ∷ []) a.tasks)
        ≡ settle (
            ask
              (asks 4 3 7 events)
              (arrive (count 7 (8 ∷ [])) (ask (count 7 (due 4 3 events)) (view 7 pro)))))
loop_round-events_example =
    loop_round-events epoller events pro (8 ∷ []) 7 (refl, (refl, (refl, tt)))

wait_event-after_wait_example :
    (e' : Epoller) × (wait_event epoller 9 true ≡ some (true, e'))
    × (contains e'.fds 9 ≡ true)
    × (after_wait (record e' { fds = e'.fds ++ 6 ∷ [] }) 9 true
        ≡ some (true, record epoller { fds = epoller.fds ++ 6 ∷ [] }))
unfolding contains
wait_event-after_wait_example = wait_event-after_wait epoller 9 (6 ∷ []) refl

-- The constructor lists the descriptor of the wake-ups twice.
wake_fd_twice :
    new_epoller 3 4 true
    ≡ some (record { fds = 4 ∷ 4 ∷ []; timer_fd = 3; wake_fd = 4; active_events_size = 16 })
unfolding new_epoller add_wakeup_fd add_event contains
wake_fd_twice = refl
