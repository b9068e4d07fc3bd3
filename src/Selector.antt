-- ===== src/Selector.antt =====
-- corpc/coroutine/processor_selector.{h,cc}: which processor gets the next coroutine. The processors
-- are given by their loads, the results of `getCoCnt`.
pub mod Strategies
mod Tests
use corpc.Base.{
  ℕ, ◌+◌, ◌*◌, Option, none, some, List, [], ◌∷◌, length, get_elem?, ltb, leb, if◌then◌else◌,
}

-- Every other number that `setStrategy` takes behaves as `round_robin`.
pub data ScheduleStrategy : Type 0 where
  min_event_first round_robin : ScheduleStrategy

pub record ProcessorSelector : Type 0 where
  pub curpro_id : ℕ
  pub strategy : ScheduleStrategy

unfoldable pub create : ScheduleStrategy → ProcessorSelector
create strategy = record { curpro_id = 0; strategy = strategy }

-- What `next` returns: a null pointer, the processor of an index, or a read past the end.
pub data Choice : Type 0 where
  null_pointer out_of_range : Choice
  processor : ℕ → Choice

-- `m_processors[id]`, from what the list holds there.
abbrev pub read_processor : ℕ → Option ℕ → Choice
read_processor id none = out_of_range
read_processor id (some load) = processor id

-- The loop of MIN_EVENT_FIRST over the loads from index `i` on.
unfoldable pub min_load : List ℕ → ℕ → ℕ → ℕ → ℕ
min_load [] i min_idx min_cnt = min_idx
min_load (co_cnt ∷ loads) i min_idx min_cnt =
    let less = ltb co_cnt min_cnt in
    min_load loads (i + 1) (if less then i else min_idx) (if less then co_cnt else min_cnt)

unfoldable pub round : ℕ → ℕ → ℕ
round curpro_id n = if leb n (curpro_id + 1) then 1 else curpro_id + 1

-- The switch on the strategy, for the loads `front ∷ loads`.
unfoldable pub select_id : ScheduleStrategy → ℕ → ℕ → List ℕ → ℕ
select_id min_event_first curpro_id front loads = min_load loads 1 0 front
select_id round_robin curpro_id front loads = round curpro_id (length (front ∷ loads))

unfoldable pub next : ProcessorSelector → List ℕ → Choice × ProcessorSelector
next s [] = (null_pointer, s)
next s (front ∷ loads) =
    let id = select_id s.strategy s.curpro_id front loads in
    (read_processor id (get_elem? (front ∷ loads) id), record s { curpro_id = id })
