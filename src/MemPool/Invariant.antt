-- ===== src/MemPool/Invariant.antt =====
-- What holds of a pool: the two linked lists, and where the blocks lie.
use corpc.Base.{
  ℕ, ◌+◌, ◌≤◌, ◌<◌, ◌≡◌, ◌≢◌, refl, ◌⊎◌, inl, inr, true, false, List, [], ◌∷◌, ◌==◌, arith, ==_iff,
}
use corpc.MemPool.{Memory, store, Heap, node_size, push_free}
use corpc.MemPool.Regions.{All, All-map, Apart, ApartFrom, AllApart, Across}

-- A piece of memory that malloc returned.
pub record Chunk : Type 0 where
  pub base : ℕ
  pub bytes : ℕ

-- The linked list from `head` on.
abbrev pub Chain : Memory → ℕ → List ℕ → Type 0
Chain next head [] = head ≡ 0
Chain next head (x ∷ xs) = (head ≡ x) × (0 < x) × Chain next (next x) xs

-- The block lies in a piece, behind its header.
abbrev pub Inside : ℕ → List Chunk → ℕ → Type 0
Inside s [] b = ⊥
Inside s (c ∷ cs) b = ((c.base + node_size ≤ b) × (b + s ≤ c.base + c.bytes)) ⊎ Inside s cs b

-- The block covers no header.
abbrev pub Clear : ℕ → List Chunk → ℕ → Type 0
Clear s [] b = Unit
Clear s (c ∷ cs) b = ((c.base < b) ⊎ (b + s ≤ c.base)) × Clear s cs b

abbrev pub Placed : ℕ → List Chunk → ℕ → Type 0
Placed s cs b = Inside s cs b × Clear s cs b

abbrev pub HasHeaders : List Chunk → Type 0
HasHeaders [] = Unit
HasHeaders (c ∷ cs) = (0 < c.base) × (node_size ≤ c.bytes) × HasHeaders cs

-- What malloc promises: a piece that overlaps no other.
abbrev pub IsFresh : ℕ → ℕ → List Chunk → Type 0
IsFresh base bytes [] = Unit
IsFresh base bytes (c ∷ cs) =
    ((c.base + c.bytes ≤ base) ⊎ (base + bytes ≤ c.base)) × IsFresh base bytes cs

abbrev pub bases : List Chunk → List ℕ
bases [] = []
bases (c ∷ cs) = c.base ∷ bases cs

pub record Inv (s : ℕ) (h : Heap) (free live : List ℕ) (cs : List Chunk) : Type 0 where
  pub sized : h.pool.obj_size ≡ s
  pub large : node_size ≤ s
  pub free_chain : Chain h.next h.pool.free_list_head free
  pub chunk_chain : Chain h.next h.pool.malloc_list_head (bases cs)
  pub headers : HasHeaders cs
  pub free_apart : AllApart s free
  pub live_apart : AllApart s live
  pub across : Across s free live
  pub free_placed : All (Placed s cs) free
  pub live_placed : All (Placed s cs) live

pub Chain-store :
    (next : Memory) (a v head : ℕ) (xs : List ℕ)
    → All (λ x. x ≢ a) xs
    → Chain next head xs
    → Chain (store next a v) head xs
Chain-store next a v head [] w e = e
Chain-store next a v head (x ∷ xs) (ne, w) (e, p, c) =
    let other : (x == a) ≡ false = ground arith in
    (e, p, rw other (Chain-store next a v (next x) xs w c))

ApartFrom-ne :
    (s b k a : ℕ) (xs : List ℕ)
    → 0 < s
    → b ≤ a
    → a < b + k
    → ApartFrom s b k xs
    → All (λ x. x ≢ a) xs
ApartFrom-ne s b k a xs pos low high = All-map xs part
  where
    part : (x : ℕ) → Apart b k x s → x ≢ a
    part x (inl h) e = absurd (omega arith)
    part x (inr h) e = absurd (omega arith)

Clear-ne :
    (s b a : ℕ) (cs : List Chunk) → b ≤ a → a < b + s → Clear s cs b → All (λ x. x ≢ a) (bases cs)
Clear-ne s b a [] low high v = tt
Clear-ne s b a (c ∷ cs) low high (inl h, v) =
    (λ e. absurd (omega arith), Clear-ne s b a cs low high v)
Clear-ne s b a (c ∷ cs) low high (inr h, v) =
    (λ e. absurd (omega arith), Clear-ne s b a cs low high v)

pub Inside-pos : (s b : ℕ) (cs : List Chunk) → Inside s cs b → 0 < b
Inside-pos s b [] v = absurd v
Inside-pos s b (c ∷ cs) (inl v) = omega arith
Inside-pos s b (c ∷ cs) (inr v) = Inside-pos s b cs v

-- A write into a block that is no free one changes neither list.
pub store-Inv :
    (s : ℕ) (h : Heap) (free live : List ℕ) (cs : List Chunk) (b a v : ℕ)
    → ApartFrom s b s free
    → Clear s cs b
    → b ≤ a
    → a < b + s
    → Inv s h free live cs
    → Inv s (record h { next = store h.next a v }) free live cs
store-Inv s h free live cs b a v apart clear low high i = record {
  sized = i.sized;
  large = i.large;
  free_chain =
      Chain-store h.next a v _ free
        (ApartFrom-ne s b s a free (omega (arith, i.large)) low high apart) i.free_chain;
  chunk_chain =
      Chain-store h.next a v _ (bases cs) (Clear-ne s b a cs low high clear) i.chunk_chain;
  headers = i.headers;
  free_apart = i.free_apart;
  live_apart = i.live_apart;
  across = i.across;
  free_placed = i.free_placed;
  live_placed = i.live_placed;
}

pub push_free-Inv :
    (s : ℕ) (h : Heap) (free live : List ℕ) (cs : List Chunk) (b : ℕ)
    → ApartFrom s b s free
    → ApartFrom s b s live
    → Placed s cs b
    → Inv s h free live cs
    → Inv s (push_free h b) (b ∷ free) live cs
push_free-Inv s h free live cs b apart apart' placed i =
    let written =
      store-Inv s h free live cs b b h.pool.free_list_head apart placed.1 (omega arith)
        (omega (arith, i.large)) i in
    let here : (b == b) ≡ true = (==_iff b b).1 refl in
    record {
      sized = i.sized;
      large = i.large;
      free_chain = (refl, Inside-pos s b cs placed.0, rw here written.free_chain);
      chunk_chain = written.chunk_chain;
      headers = i.headers;
      free_apart = (apart, i.free_apart);
      live_apart = i.live_apart;
      across = (apart', i.across);
      free_placed = (placed, i.free_placed);
      live_placed = i.live_placed;
    }
