-- ===== src/FdTable.antt =====
-- corpc/coroutine/fd_event.{h,cc}: the table that holds one FdEvent for each descriptor. The lock
-- that guards it is in RwMutex; a call of `getFdEvent` is one step here. Descriptors are not negative.
pub mod Growth
mod Tests
use corpc.Base.{
  ℕ, zero, suc, ◌+◌, ◌-◌, ◌*◌, ◌/◌, Option, none, some, List, [], ◌∷◌, ◌++◌, length, get_elem?, ltb,
  if◌then◌else◌,
}

-- A coroutine is a number; `none` is the null pointer.
pub record FdEvent : Type 0 where
  pub fd : ℕ
  pub coroutine : Option ℕ

abbrev pub new_event : ℕ → FdEvent
new_event fd = record { fd = fd; coroutine = none }

abbrev pub set_coroutine : FdEvent → ℕ → FdEvent
set_coroutine e cor = record e { coroutine = some cor }

abbrev pub clear_coroutine : FdEvent → FdEvent
clear_coroutine e = record e { coroutine = none }

-- The loops that append events: `count` of them, from descriptor `i` on.
unfoldable pub push_events : List FdEvent → ℕ → ℕ → List FdEvent
push_events fds i zero = fds
push_events fds i (suc count) = push_events (fds ++ new_event i ∷ []) (i + 1) count

unfoldable pub create : ℕ → List FdEvent
create size = push_events [] 0 size

-- The loop of `getFdEvent` runs up to `(int)(fd * 1.5)`, and not at all if the table is that long.
unfoldable pub expand : List FdEvent → ℕ → List FdEvent
expand fds fd = push_events fds (length fds) (fd * 3 / 2 - length fds)

-- The event returned, `none` when the code reads past the end of the table, and the table.
unfoldable pub get_fd_event : List FdEvent → ℕ → Option FdEvent × List FdEvent
get_fd_event fds fd =
    let fds' = if ltb fd (length fds) then fds else expand fds fd in (get_elem? fds' fd, fds')
