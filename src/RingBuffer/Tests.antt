-- ===== src/RingBuffer/Tests.antt =====
-- A ring of three slots, alone and between two threads.
use corpc.Base.{ℕ, ◌<◌, ◌≡◌, ◌≢◌, refl, false, some, [], ◌∷◌, ◌++◌, arith, length}
use corpc.RingBuffer.{Ring, create, push, pop}
use corpc.RingBuffer.Queue.{IsValid, contents, queue_push, queue_pop, push_refines, pop_refines}
use corpc.RingBuffer.Steps.{
  System, Producer, Consumer, Produce, Consume, Reach, begin, later, produce, consume,
}
use corpc.RingBuffer.Steps.Safety.{fifo, no_race}

-- 7 and 8 are held, round the end of the array.
abbrev wrapped : Ring
wrapped = record { read_pos = 2; write_pos = 1; buffer = 8 ∷ 0 ∷ 7 ∷ [] }

abbrev one_held : Ring
one_held = record { read_pos = 2; write_pos = 0; buffer = 8 ∷ 0 ∷ 7 ∷ [] }

push_full : (push wrapped 9).1 ≡ false
unfolding push
push_full = refl

push_refines_example :
    let (r', done) = push one_held 9 in
    IsValid r' × ((contents r', done) ≡ queue_push 3 (some 7 ∷ []) 9)
push_refines_example = push_refines one_held 9 (omega arith)

pop_refines_example :
    let (r', out) = pop wrapped in
    IsValid r' × ((contents r', out) ≡ queue_pop (some 7 ∷ some 8 ∷ []))
pop_refines_example = pop_refines wrapped (omega arith)

-- The first item is sent, and both threads are at work on the next slots.
abbrev both_at_work : System
both_at_work = record {
  ring = record { read_pos = 0; write_pos = 1; buffer = 5 ∷ 0 ∷ 0 ∷ [] };
  producer = Producer.has_room 6 1;
  consumer = Consumer.has_item 0;
  sent = some 5 ∷ [];
  got = [];
}

both_at_work-Reach : Reach 3 both_at_work
unfolding create
both_at_work-Reach =
    later
      (later
        (later
          (later
            (later
              (later
                (later (later begin (produce (Produce.load 5)))
                  (produce (Produce.room (λ e. omega arith))))
                (produce Produce.store))
              (produce Produce.publish))
            (produce (Produce.load 6)))
          (produce (Produce.room (λ e. omega arith))))
        (consume Consume.load))
      (consume (Consume.nonempty (λ e. omega arith)))

fifo_example :
    (both_at_work.sent ≡ both_at_work.got ++ contents both_at_work.ring)
    × (length (contents both_at_work.ring) < 3)
fifo_example = fifo (omega arith) (omega arith) both_at_work-Reach

no_race_example : ◌≢◌ {A = ℕ} 1 0
no_race_example = no_race (omega arith) (omega arith) both_at_work-Reach refl refl
