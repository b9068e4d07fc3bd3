-- ===== src/MemPool/Tests.antt =====
-- A pool of small objects that takes its first piece of memory.
use corpc.Base.{ℕ, suc, ◌≤◌, ◌≡◌, refl, Option, none, some, [], ◌∷◌, length, arith}
use corpc.MemPool.{Memory, Heap, create, grow, carve, take_first, alloc_a_mem_block, release_chunks}
use corpc.MemPool.Regions.{All, ApartFrom, AllApart}
use corpc.MemPool.Invariant.{Inside, bases}
use corpc.MemPool.Calls.{Gives, chunks_after}
use corpc.MemPool.Safety.{
  Shared, block_size, start, Reach, begin, later, allocates, live_blocks, alloc_a_mem_block-total,
  release_chunks-all,
}

abbrev no_memory : Memory
no_memory a = 0

abbrev fresh : Heap
fresh = record { pool = create 4; next = no_memory }

first_block : Option (ℕ × Heap) → Option ℕ
first_block none = none
first_block (some (x, h)) = some x

-- The last of the 40 blocks of 8 bytes behind the header of a piece at 1000.
last_of_piece : first_block (alloc_a_mem_block fresh 1000) ≡ some 1320
unfolding first_block alloc_a_mem_block grow carve take_first create
last_of_piece = refl

gives : Gives (block_size 4) (start 4 no_memory).heap [] 1000
gives e = (omega arith, tt)

alloc_a_mem_block-total_example :
    (x : ℕ) × (h : Heap) × (alloc_a_mem_block (start 4 no_memory).heap 1000 ≡ some (x, h))
    × ApartFrom (block_size 4) x (block_size 4) []
    × Inside (block_size 4) (chunks_after (block_size 4) (start 4 no_memory).heap [] 1000) x
alloc_a_mem_block-total_example =
    alloc_a_mem_block-total 4 no_memory (start 4 no_memory) 1000 (begin) gives

abbrev first :
    (x : ℕ) × (h : Heap) × (alloc_a_mem_block (start 4 no_memory).heap 1000 ≡ some (x, h))
    × ApartFrom (block_size 4) x (block_size 4) []
    × Inside (block_size 4) (chunks_after (block_size 4) (start 4 no_memory).heap [] 1000) x
first = alloc_a_mem_block-total 4 no_memory (start 4 no_memory) 1000 (begin) gives

-- With one block handed out.
abbrev one_out : Shared
one_out = record {
  heap = first.1;
  live = first.0 ∷ [];
  chunks = chunks_after (block_size 4) (start 4 no_memory).heap [] 1000;
}

one_out-Reach : Reach 4 no_memory one_out
one_out-Reach = later begin (allocates 1000 first.0 first.1 gives first.2)

live_blocks_example :
    (4 ≤ block_size 4)
    × AllApart (block_size 4) one_out.live
    × All (Inside (block_size 4) one_out.chunks) one_out.live
live_blocks_example = live_blocks 4 no_memory one_out one_out-Reach

release_chunks-all_example :
    release_chunks
      (suc (length (bases one_out.chunks)))
      one_out.heap.pool.malloc_list_head
      one_out.heap.next
    ≡ some (bases one_out.chunks)
release_chunks-all_example = release_chunks-all 4 no_memory one_out one_out-Reach
