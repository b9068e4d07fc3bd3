-- ===== src/MemPool/Calls.antt =====
-- The invariant of the pool over single calls.
use corpc.Base.{
  ℕ, zero, suc, ◌+◌, ◌*◌, ◌<◌, ◌≡◌, refl, sym, ap, true, false, some, List, [], ◌∷◌, ◌++◌, length,
  if◌then◌else◌, ◌==◌, arith, subst,
}
use corpc.MemPool.{
  Heap, mem_pool_malloc_obj_cnt, node_size, free_a_mem_block, grow, take_first, alloc_a_mem_block,
  release_chunks,
}
use corpc.MemPool.Regions.{
  All-append, All-append_left, All-append_right, Across-cons, AllApart-out, AllApart-rest,
  Across-out, Across-at,
}
use corpc.MemPool.Invariant.{Chunk, Chain, IsFresh, Inv, Inside-pos, push_free-Inv}
use corpc.MemPool.Alloc.{piece, grow-Inv}

take_first-Inv :
    (s : ℕ) (h : Heap) (x : ℕ) (free live : List ℕ) (cs : List Chunk)
    → Inv s h (x ∷ free) live cs
    → (h' : Heap) × (take_first h ≡ some (x, h')) × Inv s h' free (x ∷ live) cs
unfolding take_first
take_first-Inv s h x free live cs i =
    let (e, pos, rest) = i.free_chain in
    let full : (h.pool.free_list_head == 0) ≡ false = ground arith in
    let h' = record h { pool = record h.pool { free_list_head = h.next h.pool.free_list_head } } in
    (
      h',
      rw full (ap (λ k. some (k, h')) e),
      record {
        sized = i.sized;
        large = i.large;
        free_chain = subst (λ k. Chain h.next (h.next k) free) (sym e) rest;
        chunk_chain = i.chunk_chain;
        headers = i.headers;
        free_apart = i.free_apart.1;
        live_apart = (i.across.0, i.live_apart);
        across = Across-cons s x free live i.free_apart.0 i.across.1;
        free_placed = i.free_placed.1;
        live_placed = (i.free_placed.0, i.live_placed);
      },
    )

-- The pieces of memory after a call: one more if no block was free.
abbrev pub chunks_after : ℕ → Heap → List Chunk → ℕ → List Chunk
chunks_after s h cs base =
    if h.pool.free_list_head == 0
    then record {
      base = base;
      bytes = (mem_pool_malloc_obj_cnt + h.pool.malloc_times) * s + node_size;
    }
      ∷ cs
    else cs

-- What malloc gives when it is called: a pointer that is not null, to a piece that overlaps no other.
abbrev pub Gives : ℕ → Heap → List Chunk → ℕ → Type 0
Gives s h cs base =
    h.pool.free_list_head ≡ 0
    → (0 < base) × IsFresh base ((mem_pool_malloc_obj_cnt + h.pool.malloc_times) * s + node_size) cs

pub alloc_a_mem_block-Inv :
    (s : ℕ) (h : Heap) (free live : List ℕ) (cs : List Chunk) (base : ℕ)
    → Gives s h cs base
    → Inv s h free live cs
    → (x : ℕ) × (h' : Heap) × (free' : List ℕ) × (alloc_a_mem_block h base ≡ some (x, h'))
      × Inv s h' free' (x ∷ live) (chunks_after s h cs base)
unfolding alloc_a_mem_block
alloc_a_mem_block-Inv s h [] live cs base gives i =
    let empty : h.pool.free_list_head ≡ 0 = i.free_chain in
    let (pos, f) = gives empty in
    let test : (h.pool.free_list_head == 0) ≡ true = ground arith in
    let got : (base == 0) ≡ false = ground arith in
    let (x, free, j) = grow-Inv s h live cs base pos f i in
    let (h', e, k) = take_first-Inv s (grow h base) x free live (piece s h live cs base ∷ cs) j in
    (x, h', free, rw (test, got) e, rw test k)
alloc_a_mem_block-Inv s h (x ∷ free) live cs base gives i =
    let (e, pos, rest) = i.free_chain in
    let test : (h.pool.free_list_head == 0) ≡ false = ground arith in
    let (h', e', k) = take_first-Inv s h x free live cs i in (x, h', free, rw test e', rw test k)

pub free_a_mem_block-Inv :
    (s : ℕ) (h : Heap) (free xs ys : List ℕ) (cs : List Chunk) (b : ℕ)
    → Inv s h free (xs ++ b ∷ ys) cs
    → Inv s (free_a_mem_block h b) (b ∷ free) (xs ++ ys) cs
unfolding free_a_mem_block
free_a_mem_block-Inv s h free xs ys cs b i =
    let (placed, below) = All-append_right _ xs (b ∷ ys) i.live_placed in
    let pos = Inside-pos s b cs placed.0 in
    let test : (b == 0) ≡ false = ground arith in
    let i' : Inv s h free (xs ++ ys) cs = record {
      sized = i.sized;
      large = i.large;
      free_chain = i.free_chain;
      chunk_chain = i.chunk_chain;
      headers = i.headers;
      free_apart = i.free_apart;
      live_apart = AllApart-out s b xs ys i.live_apart;
      across = Across-out s b free xs ys i.across;
      free_placed = i.free_placed;
      live_placed = All-append _ xs ys (All-append_left _ xs (b ∷ ys) i.live_placed) below;
    } in
    rw test (
      push_free-Inv s h free (xs ++ ys) cs b (Across-at s b free xs ys i.across)
        (AllApart-rest s b xs ys i.live_apart) placed i')

-- The destructor's loop follows the list of the pieces.
pub release_chunks-Chain :
    (next : ℕ → ℕ) (head : ℕ) (xs : List ℕ) (fuel : ℕ)
    → length xs < fuel
    → Chain next head xs
    → release_chunks fuel head next ≡ some xs
unfolding release_chunks
release_chunks-Chain next head xs zero h c = elim h [ ]
release_chunks-Chain next head [] (suc fuel) h e =
    let test : (head == 0) ≡ true = ground arith in rw test refl
release_chunks-Chain next head (x ∷ xs) (suc fuel) h (e, pos, c) =
    let test : (head == 0) ≡ false = ground arith in
    let rest =
      release_chunks-Chain next (next head) xs fuel (omega arith)
        (subst (λ k. Chain next (next k) xs) (sym e) c) in
    rw test (rw rest (ap (λ k. some (k ∷ xs)) e))
