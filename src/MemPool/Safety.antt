-- ===== src/MemPool/Safety.antt =====
-- A pool and its clients, who take blocks, write into them and give them back, in any order.
use corpc.Base.{
  ℕ, suc, ◌+◌, ◌≤◌, ◌<◌, ◌≡◌, refl, sym, ◌∙◌, some, List, [], ◌∷◌, ◌++◌, length, if◌then◌else◌, ltb,
  arith, subst,
}
use corpc.MemPool.{
  Memory, store, Heap, node_size, create, free_a_mem_block, alloc_a_mem_block, release_chunks,
}
use corpc.MemPool.Regions.{All, All-map, All-append_right, ApartFrom, AllApart, Across-at}
use corpc.MemPool.Invariant.{Chunk, Inside, Placed, bases, Inv, store-Inv}
use corpc.MemPool.Calls.{
  chunks_after, Gives, alloc_a_mem_block-Inv, free_a_mem_block-Inv, release_chunks-Chain,
}

-- The blocks that are handed out, and the pieces of memory that malloc has returned.
pub record Shared : Type 0 where
  pub heap : Heap
  pub live : List ℕ
  pub chunks : List Chunk

abbrev pub block_size : ℕ → ℕ
block_size n = if ltb n node_size then node_size else n

module _ (n : ℕ) where
  pub data Step (u : Shared) : Shared → Type 0 where
    allocates :
        (base x : ℕ) (h : Heap)
        → Gives (block_size n) u.heap u.chunks base
        → alloc_a_mem_block u.heap base ≡ some (x, h)
        → Step u (record {
          heap = h;
          live = x ∷ u.live;
          chunks = chunks_after (block_size n) u.heap u.chunks base;
        })
    frees :
        (b : ℕ) (xs ys : List ℕ)
        → u.live ≡ xs ++ b ∷ ys
        → Step u (record u { heap = free_a_mem_block u.heap b; live = xs ++ ys })
    -- Any client writes anywhere into a block that it has.
    writes :
        (b a v : ℕ) (xs ys : List ℕ)
        → u.live ≡ xs ++ b ∷ ys
        → b ≤ a
        → a < b + block_size n
        → Step u (record u { heap = record u.heap { next = store u.heap.next a v } })

  abbrev pub start : Memory → Shared
  start next = record { heap = record { pool = create n; next = next }; live = []; chunks = [] }

  pub data Reach (next : Memory) : Shared → Type 0 where
    begin : Reach next (start next)
    later : {t u : Shared} → Reach next t → Step t u → Reach next u

  Holds : Shared → Type 0
  Holds u = (free : List ℕ) × Inv (block_size n) u.heap free u.live u.chunks

  start-Holds : (next : Memory) → Holds (start next)
  unfolding Holds create
  start-Holds next = (
    [],
    record {
      sized = refl;
      large = ground arith;
      free_chain = refl;
      chunk_chain = refl;
      headers = tt;
      free_apart = tt;
      live_apart = tt;
      across = tt;
      free_placed = tt;
      live_placed = tt;
    },
  )

  Step-Holds : {t u : Shared} → Step t u → Holds t → Holds u
  unfolding Holds
  Step-Holds {t} (allocates base x h gives e) (free, i) =
      let (y, h', free', e', i') =
        alloc_a_mem_block-Inv (block_size n) t.heap free t.live t.chunks base gives i in
      let same : some (y, h') ≡ some (x, h) = sym e' ∙ e in
      let y_x : y ≡ x = cc same in
      let h_h : h' ≡ h = cc same in
      (
        free',
        subst
            (λ k.
              Inv (block_size n) k free' (x ∷ t.live)
                (chunks_after (block_size n) t.heap t.chunks base))
            h_h
            (subst
              (λ k.
                Inv (block_size n) h' free' (k ∷ t.live)
                  (chunks_after (block_size n) t.heap t.chunks base))
              y_x i'),
      )
  Step-Holds {t} (frees b xs ys e) (free, i) = (
    b ∷ free,
    free_a_mem_block-Inv (block_size n) t.heap free xs ys t.chunks b
        (subst (λ l. Inv (block_size n) t.heap free l t.chunks) e i),
  )
  Step-Holds {t} (writes b a v xs ys e low high) (free, i) =
      let j = subst (λ l. Inv (block_size n) t.heap free l t.chunks) e i in
      let (placed, below) = All-append_right _ xs (b ∷ ys) j.live_placed in
      (
        free,
        store-Inv (block_size n) t.heap free t.live t.chunks b a v
            (Across-at (block_size n) b free xs ys j.across) placed.1 low high i,
      )

  Reach-Holds : (next : Memory) (u : Shared) → Reach next u → Holds u
  Reach-Holds next u begin = start-Holds next
  Reach-Holds next u (later r st) = Step-Holds st (Reach-Holds next _ r)

  -- Whatever clients do with blocks that they have taken and not given back, no two of these blocks
  -- overlap, each has at least the size of an object, and each lies in a piece of memory that malloc
  -- has returned, behind its header.
  pub live_blocks :
      (next : Memory) (u : Shared)
      → Reach next u
      → (n ≤ block_size n)
        × AllApart (block_size n) u.live
        × All (Inside (block_size n) u.chunks) u.live
  unfolding Holds
  live_blocks next u r =
      let (free, i) = Reach-Holds next u r in
      (
        ground arith,
        i.live_apart,
        All-map u.live (λ b (v : Placed (block_size n) u.chunks b). v.0) i.live_placed,
      )

  -- `AllocAMemBlock` returns a block whenever malloc, if it has to be called, returns a piece of memory
  -- that overlaps no other: the block overlaps none that is handed out.
  pub alloc_a_mem_block-total :
      (next : Memory) (u : Shared) (base : ℕ)
      → Reach next u
      → Gives (block_size n) u.heap u.chunks base
      → (x : ℕ) × (h : Heap) × (alloc_a_mem_block u.heap base ≡ some (x, h))
        × ApartFrom (block_size n) x (block_size n) u.live
        × Inside (block_size n) (chunks_after (block_size n) u.heap u.chunks base) x
  unfolding Holds
  alloc_a_mem_block-total next u base r gives =
      let (free, i) = Reach-Holds next u r in
      let (x, h, free', e, j) =
        alloc_a_mem_block-Inv (block_size n) u.heap free u.live u.chunks base gives i in
      (x, h, e, j.live_apart.0, j.live_placed.0.0)

  -- The destructor gives back every piece of memory that malloc has returned, once each.
  pub release_chunks-all :
      (next : Memory) (u : Shared)
      → Reach next u
      → release_chunks (suc (length (bases u.chunks))) u.heap.pool.malloc_list_head u.heap.next
        ≡ some (bases u.chunks)
  unfolding Holds
  release_chunks-all next u r =
      let (free, i) = Reach-Holds next u r in
      release_chunks-Chain u.heap.next u.heap.pool.malloc_list_head (bases u.chunks)
        (suc (length (bases u.chunks))) (omega arith) i.chunk_chain
