-- ===== src/FdTable/Tests.antt =====
-- Small tables, and the theorems at them.
use corpc.Base.{◌≡◌, inr, refl, some, none, List, [], ◌∷◌, get_elem?, arith, length}
use corpc.FdTable.{
  FdEvent, new_event, push_events, create, expand, get_fd_event, set_coroutine, clear_coroutine,
}
use corpc.FdTable.Growth.{create-IsIndexed, Kept, get_fd_event-Kept, get_fd_event_small}

abbrev three : List FdEvent
three = new_event 0 ∷ new_event 1 ∷ new_event 2 ∷ []

created : create 3 ≡ three
unfolding create push_events
created = refl

grown : length (get_fd_event three 5).1 ≡ 7
unfolding get_fd_event expand push_events
grown = refl

cleared : clear_coroutine (set_coroutine (new_event 1) 9) ≡ new_event 1
cleared = refl

get_fd_event-Kept_example :
    Kept (create 3) (get_fd_event (create 3) 5).1
    × ((e : FdEvent) × ((get_fd_event (create 3) 5).0 ≡ some e)
        × (e.fd ≡ 5)
        × (get_elem? (get_fd_event (create 3) 5).1 5 ≡ some e))
get_fd_event-Kept_example =
    get_fd_event-Kept (create 3) 5 (create-IsIndexed 3).0 (inr (omega arith))

get_fd_event_small_example : (get_fd_event [] 1).0 ≡ none
get_fd_event_small_example = get_fd_event_small 1 (omega arith)
