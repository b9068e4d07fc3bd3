-- ===== src/MemPool.antt =====
-- corpc/coroutine/mempool.h and objpool.h: blocks of one size, cut out of larger pieces of memory and
-- kept in a linked list while they are free. A pointer is a number, 0 the null pointer, and the memory
-- gives the `next` pointer that stands at an address. What malloc returns is an argument.
pub mod Regions
pub mod Invariant
pub mod Alloc
pub mod Calls
pub mod Safety
mod Tests
use corpc.Base.{
  ℕ, zero, suc, ◌+◌, Bool, true, false, Option, none, some, List, [], ◌∷◌, ltb, ◌==◌, if◌then◌else◌,
  ◌>>=◌,
}

abbrev pub Memory : Type 0
Memory = ℕ → ℕ

abbrev pub store : Memory → ℕ → ℕ → Memory
store next a v x = if x == a then v else next x

pub record MemPool : Type 0 where
  pub free_list_head : ℕ
  pub malloc_list_head : ℕ
  pub malloc_times : ℕ
  pub obj_size : ℕ

-- The pool and the memory that it shares with its clients.
pub record Heap : Type 0 where
  pub pool : MemPool
  pub next : Memory

-- sizeof(MemBlockNode)
abbrev pub node_size : ℕ
node_size = 8

-- parameter::memPoolMallocObjCnt
abbrev pub mem_pool_malloc_obj_cnt : ℕ
mem_pool_malloc_obj_cnt = 40

unfoldable pub create : ℕ → MemPool
create obj_size = record {
  free_list_head = 0;
  malloc_list_head = 0;
  malloc_times = 0;
  obj_size = if ltb obj_size node_size then node_size else obj_size;
}

-- `FreeAMemBlock` of a pointer that is not null: the block becomes the first of the free list.
abbrev pub push_free : Heap → ℕ → Heap
push_free h block = record {
  pool = record h.pool { free_list_head = block };
  next = store h.next block h.pool.free_list_head;
}

unfoldable pub free_a_mem_block : Heap → ℕ → Heap
free_a_mem_block h block = if block == 0 then h else push_free h block

-- The loop of `AllocAMemBlock`, on the rounds that are left.
unfoldable pub carve : ℕ → ℕ → Heap → Heap
carve zero a h = h
carve (suc rounds) a h = carve rounds (a + h.pool.obj_size) (push_free h a)

abbrev pub malloc_cnt : MemPool → ℕ
malloc_cnt p = mem_pool_malloc_obj_cnt + p.malloc_times

abbrev pub link_chunk : Heap → ℕ → Heap
link_chunk h chunk = record {
  pool = record h.pool { malloc_list_head = chunk };
  next = store h.next chunk h.pool.malloc_list_head;
}

abbrev pub count_malloc : Heap → Heap
count_malloc h = record h { pool = record h.pool { malloc_times = h.pool.malloc_times + 1 } }

-- The body of the test, with `chunk` what malloc returned.
unfoldable pub grow : Heap → ℕ → Heap
grow h chunk = count_malloc (carve (malloc_cnt h.pool) (chunk + node_size) (link_chunk h chunk))

-- The last two steps; `none` is the read through a null pointer.
unfoldable pub take_first : Heap → Option (ℕ × Heap)
take_first h =
    if h.pool.free_list_head == 0
    then none
    else some (
      h.pool.free_list_head,
      record h { pool = record h.pool { free_list_head = h.next h.pool.free_list_head } },
    )

-- When malloc returns null, the code writes through it.
unfoldable pub alloc_a_mem_block : Heap → ℕ → Option (ℕ × Heap)
alloc_a_mem_block h chunk =
    let more = if chunk == 0 then none else take_first (grow h chunk) in
    if h.pool.free_list_head == 0 then more else take_first h

-- The destructor: the pieces it hands to `free`, in their order; with fuel.
unfoldable pub release_chunks : ℕ → ℕ → Memory → Option (List ℕ)
release_chunks zero chunk next = none
release_chunks (suc fuel) chunk next =
    let rest = release_chunks fuel (next chunk) next >>= λ chunks. some (chunk ∷ chunks) in
    if chunk == 0 then some [] else rest

-- ObjPool: `new_obj` is `AllocAMemBlock` with the constructor called on the block.
unfoldable pub new_obj : Heap → ℕ → Option (ℕ × Heap)
new_obj h chunk = alloc_a_mem_block h chunk

unfoldable pub delete_obj : Heap → ℕ → Heap
delete_obj h obj = if obj == 0 then h else free_a_mem_block h obj
