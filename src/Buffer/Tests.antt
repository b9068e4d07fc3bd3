-- ===== src/Buffer/Tests.antt =====
-- Runs of the buffer on small inputs, and the theorems at inputs that meet their hypotheses.
use corpc.Base.{◌≡◌, refl, none, some, List, [], ◌∷◌, arith, read_at, write_at}
use corpc.Base.Int.{pos}
use corpc.Buffer.{TcpBuffer, create, write_to_buffer, recycle_read, recycle_write, resize_buffer}
use corpc.Buffer.Refine.{Leaves, resize_buffer-Leaves}
use corpc.Buffer.Consume.{recycle_write-Leaves, recycle_read_past}
use corpc.Buffer.Client.{Call, writes, reads, recycles, peeks, run, queue_run, run_refines}

abbrev fresh : TcpBuffer
fresh = record { read_index = 0; write_index = 0; buffer = 0 ∷ 0 ∷ 0 ∷ 0 ∷ [] }

-- 2 and 3 are unread.
abbrev half_read : TcpBuffer
half_read = record { read_index = 1; write_index = 3; buffer = 1 ∷ 2 ∷ 3 ∷ 4 ∷ [] }

abbrev script : List Call
script =
    writes (1 ∷ 2 ∷ 3 ∷ [])
    ∷ reads 2
    ∷ writes (4 ∷ 5 ∷ 6 ∷ 7 ∷ [])
    ∷ recycles 1
    ∷ peeks
    ∷ reads 9
    ∷ reads 1
    ∷ []

create-fresh : create 4 ≡ fresh
unfolding create
create-fresh = refl

-- The buffer grows to 3 * (3 + 4) / 2 bytes, and the unread ones move to the front.
write_grows :
    write_to_buffer half_read (5 ∷ 6 ∷ 7 ∷ 8 ∷ [])
    ≡ some (record {
      read_index = 0;
      write_index = 6;
      buffer = 2 ∷ 3 ∷ 5 ∷ 6 ∷ 7 ∷ 8 ∷ 0 ∷ 0 ∷ 0 ∷ 0 ∷ [];
    })
unfolding write_to_buffer resize_buffer read_at write_at
write_grows = refl

run-script :
    run fresh script
    ≡ some ([] ∷ (1 ∷ 2 ∷ []) ∷ [] ∷ [] ∷ (4 ∷ 5 ∷ 6 ∷ 7 ∷ []) ∷ (4 ∷ 5 ∷ 6 ∷ 7 ∷ []) ∷ [] ∷ [])
unfolding queue_run
run-script = run_refines script fresh (omega arith) (omega arith) (omega arith)

run_refines_example : run fresh script ≡ some (queue_run [] script)
run_refines_example = run_refines script fresh (omega arith) (omega arith) (omega arith)

resize_buffer-Leaves_example : Leaves (2 ∷ []) (resize_buffer half_read 1)
resize_buffer-Leaves_example = resize_buffer-Leaves half_read 1 (omega arith)

recycle_write-Leaves_example : Leaves (2 ∷ 3 ∷ 4 ∷ []) (recycle_write half_read 1)
recycle_write-Leaves_example = recycle_write-Leaves half_read 1 (omega arith) (omega arith)

recycle_read_past_example : recycle_read half_read (pos 3) ≡ none
recycle_read_past_example = recycle_read_past half_read 3 (omega arith) (omega arith) (omega arith)
