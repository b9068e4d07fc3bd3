-- ===== src/MemPool/Alloc.antt =====
-- What `AllocAMemBlock` and `FreeAMemBlock` do to the free blocks and to those that are handed out.
use corpc.Base.{
  ℕ, zero, suc, ◌+◌, ◌*◌, ◌≤◌, ◌<◌, ◌≡◌, ◌≢◌, refl, sym, ◌⊎◌, inl, inr, true, List, [], ◌∷◌, length,
  ◌==◌, arith, subst,
}
use corpc.MemPool.{Heap, node_size, push_free, carve, malloc_cnt, link_chunk, count_malloc, grow}
use corpc.MemPool.Regions.{All, All-map, Apart, ApartFrom, ApartFrom-part}
use corpc.MemPool.Invariant.{
  Chunk, Chain, Inside, Clear, Placed, HasHeaders, IsFresh, bases, Inv, Chain-store, push_free-Inv,
}

carve-Inv :
    (s n a : ℕ) (h : Heap) (free live : List ℕ) (cs : List Chunk)
    → ApartFrom s a (n * s) free
    → ApartFrom s a (n * s) live
    → ((b : ℕ) → a ≤ b → b + s ≤ a + n * s → Placed s cs b)
    → Inv s h free live cs
    → (free' : List ℕ) × Inv s (carve n a h) free' live cs × (length free' ≡ n + length free)
unfolding carve
carve-Inv s zero a h free live cs v w fits i = (free, i, omega arith)
carve-Inv s (suc n) a h free live cs v w fits i =
    let placed = fits a (omega arith) (omega arith) in
    let i' =
      push_free-Inv s h free live cs a
        (ApartFrom-part s a (suc n * s) a s free (omega arith) (omega arith) v)
        (ApartFrom-part s a (suc n * s) a s live (omega arith) (omega arith) w) placed i in
    let (free', j, size) =
      carve-Inv s n (a + s) (push_free h a) (a ∷ free) live cs
        (
          inr (omega arith),
          ApartFrom-part s a (suc n * s) (a + s) (n * s) free (omega arith) (omega arith) v,
        )
        (ApartFrom-part s a (suc n * s) (a + s) (n * s) live (omega arith) (omega arith) w)
        (λ b low high. fits b (omega arith) (omega arith)) i' in
    (
      free',
      subst (λ k. Inv s (carve n (a + k) (push_free h a)) free' live cs) (sym i.sized) j,
      omega arith,
    )

Inside-Apart :
    (s base bytes b : ℕ) (cs : List Chunk)
    → IsFresh base bytes cs
    → Inside s cs b
    → Apart base bytes b s
Inside-Apart s base bytes b [] f v = absurd v
Inside-Apart s base bytes b (c ∷ cs) (inl h, f) (inl v) = inr (omega arith)
Inside-Apart s base bytes b (c ∷ cs) (inr h, f) (inl v) = inl (omega arith)
Inside-Apart s base bytes b (c ∷ cs) (h, f) (inr v) = Inside-Apart s base bytes b cs f v

-- The headers that are there lie outside of a fresh piece.
fresh-Clear :
    (s base bytes b : ℕ) (cs : List Chunk)
    → HasHeaders cs
    → IsFresh base bytes cs
    → base ≤ b
    → b + s ≤ base + bytes
    → Clear s cs b
fresh-Clear s base bytes b [] hs f low high = tt
fresh-Clear s base bytes b (c ∷ cs) (p, q, hs) (inl h, f) low high =
    (inl (omega arith), fresh-Clear s base bytes b cs hs f low high)
fresh-Clear s base bytes b (c ∷ cs) (p, q, hs) (inr h, f) low high =
    (inr (omega arith), fresh-Clear s base bytes b cs hs f low high)

fresh-ne :
    (base bytes : ℕ) (cs : List Chunk)
    → 0 < bytes
    → HasHeaders cs
    → IsFresh base bytes cs
    → All (λ x. x ≢ base) (bases cs)
fresh-ne base bytes [] pos hs f = tt
fresh-ne base bytes (c ∷ cs) pos (p, q, hs) (inl h, f) =
    (λ e. absurd (omega arith), fresh-ne base bytes cs pos hs f)
fresh-ne base bytes (c ∷ cs) pos (p, q, hs) (inr h, f) =
    (λ e. absurd (omega arith), fresh-ne base bytes cs pos hs f)

module _ (s : ℕ) (h : Heap) (live : List ℕ) (cs : List Chunk) (base : ℕ) where
  -- `mallocCnt * m_objSize + sizeof(MemBlockNode)`
  abbrev pub piece_bytes : ℕ
  piece_bytes = malloc_cnt h.pool * s + node_size

  abbrev pub piece : Chunk
  piece = record { base = base; bytes = piece_bytes }

  Placed-more : IsFresh base piece_bytes cs → (b : ℕ) → Placed s cs b → Placed s (piece ∷ cs) b
  Placed-more f b (v, w) = (inr v, (part (Inside-Apart s base piece_bytes b cs f v), w))
    where
      part : Apart base piece_bytes b s → (base < b) ⊎ (b + s ≤ base)
      part (inl e) = inl (omega arith)
      part (inr e) = inr e

  link_chunk-Inv :
      0 < base
      → IsFresh base piece_bytes cs
      → Inv s h [] live cs
      → Inv s (link_chunk h base) [] live (piece ∷ cs)
  link_chunk-Inv pos f i =
      let here : (base == base) ≡ true = ground arith in
      let old : (link_chunk h base).next base ≡ h.pool.malloc_list_head = rw here refl in
      record {
        sized = i.sized;
        large = i.large;
        free_chain = i.free_chain;
        chunk_chain = (
          refl,
          pos,
          subst (λ k. Chain (link_chunk h base).next k (bases cs)) (sym old)
              (Chain-store h.next base h.pool.malloc_list_head h.pool.malloc_list_head (bases cs)
                (fresh-ne base piece_bytes cs (omega arith) i.headers f) i.chunk_chain),
        );
        headers = (pos, omega arith, i.headers);
        free_apart = tt;
        live_apart = i.live_apart;
        across = tt;
        free_placed = tt;
        live_placed = All-map live (Placed-more f) i.live_placed;
      }

  pub grow-Inv :
      0 < base
      → IsFresh base piece_bytes cs
      → Inv s h [] live cs
      → (x : ℕ) × (free : List ℕ) × Inv s (grow h base) (x ∷ free) live (piece ∷ cs)
  unfolding grow
  grow-Inv pos f i =
      let n = malloc_cnt h.pool in
      let apart : ApartFrom s base piece_bytes live =
        All-map live (λ b (v : Placed s cs b). Inside-Apart s base piece_bytes b cs f v.0)
          i.live_placed in
      let fits : (b : ℕ)
          → base + node_size ≤ b
          → b + s ≤ base + node_size + n * s
          → Placed s (piece ∷ cs) b =
        λ b low high. (
          inl (omega arith, omega arith),
          (
            inl (omega arith),
            fresh-Clear s base piece_bytes b cs i.headers f (omega arith) (omega arith),
          ),
        ) in
      let (free, j, size) =
        carve-Inv s n (base + node_size) (link_chunk h base) [] live (piece ∷ cs) tt
          (ApartFrom-part s base piece_bytes (base + node_size) (n * s) live (omega arith)
            (omega arith) apart)
          fits (link_chunk-Inv pos f i) in
      first free (omega arith) j
    where
      first :
          (free : List ℕ)
          → 0 < length free
          → Inv s
              (carve (malloc_cnt h.pool) (base + node_size) (link_chunk h base))
              free
              live
              (piece ∷ cs)
          → (x : ℕ) × (free : List ℕ) × Inv s
              (count_malloc (carve (malloc_cnt h.pool) (base + node_size) (link_chunk h base)))
              (x ∷ free)
              live
              (piece ∷ cs)
      first [] pos j = absurd (omega arith)
      first (x ∷ free) pos j = (
        x,
        free,
        record {
          sized = j.sized;
          large = j.large;
          free_chain = j.free_chain;
          chunk_chain = j.chunk_chain;
          headers = j.headers;
          free_apart = j.free_apart;
          live_apart = j.live_apart;
          across = j.across;
          free_placed = j.free_placed;
          live_placed = j.live_placed;
        },
      )
