-- ===== src/Processor/Epoller.antt =====
-- corpc/coroutine/epoller.{h,cc}, and `Processor::waitEvent`: the descriptors that are registered, and
-- the coroutines that a batch of events activates. What epoll_ctl and epoll_wait answer are arguments.
use corpc.Base.{
  ℕ, ◌*◌, Bool, true, false, Option, none, some, List, [], ◌∷◌, ◌++◌, length, ◌==◌, ◌&&◌, ◌||◌,
  if◌then◌else◌, ◌>>=◌,
}
use corpc.Processor.{contains}

pub record Epoller : Type 0 where
  pub fds : List ℕ
  pub timer_fd : ℕ
  pub wake_fd : ℕ
  pub active_events_size : ℕ

-- `m_fds.erase(it)`: the first of the vector.
unfoldable pub erase_first : List ℕ → ℕ → List ℕ
erase_first [] a = []
erase_first (x ∷ xs) a = if x == a then xs else x ∷ erase_first xs a

-- `none` is a failed assertion; `done` says whether epoll_ctl has done it.
unfoldable pub add_event : Epoller → ℕ → Bool → Option (Bool × Epoller)
add_event e fd done =
    if contains e.fds fd
    then none
    else some (done, if done then record e { fds = e.fds ++ fd ∷ [] } else e)

unfoldable pub mod_event : Epoller → ℕ → Bool → Option (Bool × Epoller)
mod_event e fd done = if contains e.fds fd then some (done, e) else none

unfoldable pub del_event : Epoller → ℕ → Bool → Option (Bool × Epoller)
del_event e fd done =
    if contains e.fds fd
    then some (done, if done then record e { fds = erase_first e.fds fd } else e)
    else none

unfoldable pub add_wakeup_fd : Epoller → Bool → Option Epoller
add_wakeup_fd e done = add_event e e.wake_fd done >>= λ (added, e').
    some (record e' { fds = e'.fds ++ e'.wake_fd ∷ [] })

-- The constructor, for the descriptor of the wake-ups; parameter::epollerListFirstSize events.
unfoldable pub new_epoller : ℕ → ℕ → Bool → Option Epoller
new_epoller timer_fd wake_fd done =
    add_wakeup_fd
      (record { fds = []; timer_fd = timer_fd; wake_fd = wake_fd; active_events_size = 16 }) done

-- An event with the descriptor and the coroutine of its FdEvent, what epoll_ctl answers if the
-- descriptor is taken out, and, for the timer's, the coroutines that the due tasks of `Timer::onTimer`
-- resume. What else a task does is left out.
pub record Event : Type 0 where
  pub fd : ℕ
  pub coroutine : Option ℕ
  pub can_read : Bool
  pub can_write : Bool
  pub removed : Bool
  pub due : List ℕ

-- `resumed` are the coroutines that have been resumed inside the call, oldest first.
pub record Activity : Type 0 where
  pub epoller : Epoller
  pub tasks : List (Option ℕ)
  pub resumed : List ℕ

abbrev pub push_if : Bool → Option ℕ → List (Option ℕ) → List (Option ℕ)
push_if true co tasks = tasks ++ co ∷ []
push_if false co tasks = tasks

abbrev pub unregister : Activity → Event → Option Activity
unregister a v = del_event a.epoller v.fd v.removed >>= λ (done, e). some (record a { epoller = e })

abbrev pub activate : Activity → Event → Activity
activate a v = record a {
  tasks = push_if v.can_write v.coroutine (push_if v.can_read v.coroutine a.tasks);
}

-- The body of the loop over the events.
unfoldable pub take_event : Activity → Event → Option Activity
take_event a v =
    let other = if v.can_read || v.can_write then some (activate a v) else unregister a v in
    let timer =
      if (v.fd == a.epoller.timer_fd) && v.can_read
      then some (record a { resumed = a.resumed ++ v.due })
      else other in
    if (v.fd == a.epoller.wake_fd) && v.can_read then some a else timer

unfoldable pub take_events : Activity → List Event → Option Activity
take_events a [] = some a
take_events a (v ∷ events) = take_event a v >>= λ a'. take_events a' events

abbrev pub widen : Activity → ℕ → Activity
widen a n =
    if n == a.epoller.active_events_size
    then record a {
      epoller = record a.epoller { active_events_size = a.epoller.active_events_size * 2 };
    }
    else a

-- `none` for the events is an error of epoll_wait.
unfoldable pub get_active_tasks : Epoller → Option (List Event) → Option Activity
get_active_tasks e none = some (record { epoller = e; tasks = []; resumed = [] })
get_active_tasks e (some events) =
    take_events (record { epoller = e; tasks = []; resumed = [] }) events >>= λ a.
    some (widen a (length events))

-- `waitEvent` up to the switch, and behind it.
abbrev pub wait_event : Epoller → ℕ → Bool → Option (Bool × Epoller)
wait_event e fd done = add_event e fd done

abbrev pub after_wait : Epoller → ℕ → Bool → Option (Bool × Epoller)
after_wait e fd done = del_event e fd done
