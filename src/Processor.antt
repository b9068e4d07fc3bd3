-- ===== src/Processor.antt =====
-- corpc/coroutine/processor.{h,cc}, coroutine.{h,cc} and Epoller::getActiveTasks of epoller.cc: one
-- processor and its coroutines. A coroutine is a number, the identity of its object; what its function
-- does between two switches is left out but for how often it still yields before it returns.
pub mod Epoller
pub mod Turns
pub mod Rounds
pub mod Freed
pub mod Events
mod Tests
use corpc.Base.{
  ℕ, zero, suc, Bool, true, false, not, Option, none, some, List, [], ◌∷◌, ◌++◌, ◌==◌, ◌||◌,
  if◌then◌else◌,
}

-- coStatus
pub data CoStatus : Type 0 where
  co_ready co_running co_waiting co_dead : CoStatus

pub record Coroutine : Type 0 where
  pub status : CoStatus
  pub yields_left : ℕ

unfoldable pub new_coroutine : ℕ → Coroutine
new_coroutine yields = record { status = co_ready; yields_left = yields }

-- `cors` are the objects, `ran` the coroutines that got the processor, oldest first, `freed` the objects
-- that were deleted, and `use_after_free` says whether one of those was used. The ring of new coroutines
-- is RingBuffer.
pub record Processor : Type 0 where
  pub cur_coroutine : Option ℕ
  pub cors_set : List ℕ
  pub removed_cors : List ℕ
  pub cors : ℕ → Coroutine
  pub ran : List ℕ
  pub freed : List ℕ
  pub use_after_free : Bool

unfoldable pub contains : List ℕ → ℕ → Bool
contains [] a = false
contains (x ∷ xs) a = (x == a) || contains xs a

unfoldable pub insert : List ℕ → ℕ → List ℕ
unfolding contains
insert xs a = if contains xs a then xs else a ∷ xs

unfoldable pub erase : List ℕ → ℕ → List ℕ
erase [] a = []
erase (x ∷ xs) a = let rest = erase xs a in if x == a then rest else x ∷ rest

abbrev pub update : (ℕ → Coroutine) → ℕ → Coroutine → ℕ → Coroutine
update cors co c x = if co == x then c else cors x

-- `killCurCo`, which the wrapper of every coroutine calls behind its function.
abbrev pub kill_cur_co : Processor → ℕ → Processor
kill_cur_co p co = record p { removed_cors = p.removed_cors ++ co ∷ [] }

-- From the switch to the coroutine to the switch back. A coroutine that returns keeps its status.
unfoldable pub run_until_switch : Processor → ℕ → ℕ → Processor
run_until_switch p co zero =
    kill_cur_co
      (record p { cors = update p.cors co (record { status = co_running; yields_left = zero }) }) co
run_until_switch p co (suc yields) = record p {
  cors = update p.cors co (record { status = co_waiting; yields_left = yields });
}

abbrev pub can_run : CoStatus → Bool
can_run co_ready = true
can_run co_waiting = true
can_run _ = false

-- An object is used.
abbrev pub touch : Processor → ℕ → Processor
touch p co = record p { use_after_free = p.use_after_free || contains p.freed co }

-- `Coroutine::resume`; what a deleted object holds is what it held.
unfoldable pub resume_co : Processor → ℕ → Processor
resume_co p co =
    let switched =
      run_until_switch (record (touch p co) { ran = p.ran ++ co ∷ [] }) co
        (p.cors co).yields_left in
    if can_run (p.cors co).status then switched else touch p co

-- `Processor::resume` of a pointer that is not null.
unfoldable pub resume : Processor → ℕ → Processor
resume p co =
    let resumed = resume_co (record p { cur_coroutine = some co }) co in
    if contains p.cors_set co then resumed else p

-- `Processor::resume`
abbrev pub resume_any : Processor → Option ℕ → Processor
resume_any p none = p
resume_any p (some co) = resume p co

abbrev pub take_in : Processor → ℕ → Processor
take_in p co = record p { cors_set = insert p.cors_set co }

-- The loop over the new coroutines that the ring gives in this round.
unfoldable pub run_pending : Processor → List ℕ → Processor
run_pending p [] = p
run_pending p (co ∷ pending) = run_pending (resume (take_in p co) co) pending

-- The loop over the active tasks.
unfoldable pub run_active : Processor → List (Option ℕ) → Processor
run_active p [] = p
run_active p (co ∷ active) = run_active (resume_any p co) active

unfoldable pub erase_all : List ℕ → List ℕ → List ℕ
erase_all xs [] = xs
erase_all xs (co ∷ removed) = erase_all (erase xs co) removed

-- The coroutines that have returned leave the set, and `delete_obj` gives their objects back.
abbrev pub clear_removed : Processor → Processor
clear_removed p = record p {
  cors_set = erase_all p.cors_set p.removed_cors;
  removed_cors = [];
  freed = p.removed_cors ++ p.freed;
}

-- The coroutines that the tasks of `Timer::onTimer` resume.
unfoldable pub run_due : Processor → List ℕ → Processor
run_due p [] = p
run_due p (co ∷ due) = run_due (resume p co) due

-- One round of the loop, behind the call of getActiveTasks.
unfoldable pub loop_round : Processor → List ℕ → List (Option ℕ) → Processor
loop_round p pending active = clear_removed (run_active (run_pending p pending) active)
