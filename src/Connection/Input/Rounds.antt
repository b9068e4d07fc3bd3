-- ===== src/Connection/Input/Rounds.antt =====
-- The loop of `TcpConnection::input` keeps what arrives.
use corpc.Base.{
  ℕ, zero, suc, ◌+◌, ◌-◌, ◌*◌, ◌≤◌, ◌<◌, ◌≡◌, refl, sym, ap, ◌∙◌, inl, inr, true, false, Option,
  none, some, List, [], ◌∷◌, ◌++◌, append_assoc, append-nil, arith, length, length-take, take_all,
  ltb, ◌^◌, ◌⊎◌, subst, ◌==◌, Bool-cases,
}
use corpc.Buffer.{TcpBuffer, write_able, get_size}
use corpc.Buffer.Invariant.{IsValid, contents, length-contents}
use corpc.Buffer.Refine.{resize_buffer-Leaves}
use corpc.Buffer.Fill.{fill-Leaves}
use corpc.Buffer.Growth.{resize_buffer-write_index, fill-write_index}
use corpc.Connection.Socket.{Read, got, empty, ReadResult, waits, returned, read}
use corpc.Connection.Input.{Received, prepend, make_room, after_read, input_loop}

-- A result of the loop that holds what the buffer held and then what arrived.
unfoldable pub Holds : List ℕ → Option Received → Type 0
Holds bytes r =
    (s : Received) × (r ≡ some s) × IsValid s.buffer × (contents s.buffer ≡ bytes ++ s.bytes)

-- A fault, where faults are allowed, or a result that holds what the buffer held and what arrived.
Kept : Type 0 → List ℕ → Option Received → Type 0
Kept fault bytes r = (fault × (r ≡ none)) ⊎ Holds bytes r

-- The bytes of the kernel's answers.
abbrev pub arriving : List Read → ℕ
arriving [] = 0
arriving (got bytes ∷ reads) = length bytes + arriving reads
arriving (empty ∷ reads) = arriving reads

-- So few bytes that twice the size of the buffer fits an int.
abbrev Bounded : Type 0 → TcpBuffer → List Read → Type 0
Bounded fault b reads = fault ⊎ (b.write_index + arriving reads < 2 ^ 30)

-- A buffer with the same bytes, which the write index has not passed.
abbrev Roomy : TcpBuffer → Option TcpBuffer → Type 0
Roomy b r =
    (b' : TcpBuffer) × (r ≡ some b')
    × IsValid b'
    × (contents b' ≡ contents b)
    × (b'.write_index ≤ b.write_index)

make_room-Roomy :
    (fault : Type 0) (b : TcpBuffer) (reads : List Read)
    → IsValid b
    → Bounded fault b reads
    → (fault × (make_room b ≡ none)) ⊎ Roomy b (make_room b)
unfolding make_room
make_room-Roomy fault b reads v few = elim (Bool-cases (write_able b == 0)) [
  | inl full ↦ elim (Bool-cases (ltb (2 * get_size b) (2 ^ 31))) [
    | inl fits ↦
        let size = length-contents b v in
        let (roomy, made, v', kept) = resize_buffer-Leaves b (2 * get_size b) v in
        rw (full, fits)
          (inr (
            roomy,
            made,
            v',
            kept ∙ take_all (contents b) (2 * get_size b) (omega (arith, v.write_in_buffer)),
            resize_buffer-write_index b (2 * get_size b) made,
          ))
    | inr over ↦ rw (full, over) (inl (allowed few full over, refl))
  ]
  | inr room ↦ rw room (inr (b, refl, v, refl, omega arith))
]
  where
    no_both : true ≡ false → ⊥
    no_both e = cc

    allowed :
        Bounded fault b reads
        → (write_able b == 0) ≡ true
        → ltb (2 * get_size b) (2 ^ 31) ≡ false
        → fault
    allowed (inl fault) full over = fault
    allowed (inr bound) full over =
        let all : get_size b ≤ b.write_index = ground arith in
        let fits : ltb (2 * get_size b) (2 ^ 31) ≡ true = ground arith in
        absurd (no_both (sym fits ∙ over))

prepend-Kept :
    (fault : Type 0) (old bytes : List ℕ) (r : Option Received)
    → Kept fault (old ++ bytes) r
    → Kept fault old (prepend bytes r)
unfolding Kept Holds
prepend-Kept fault old bytes r (inl (f, e)) = inl (f, ap (prepend bytes) e)
prepend-Kept fault old bytes r (inr (s, e, v, kept)) = inr (
  record s { bytes = bytes ++ s.bytes },
  ap (prepend bytes) e,
  v,
  kept ∙ append_assoc old bytes s.bytes,
)

-- An answer of `read` gives at most the bytes that were asked for, and leaves fewer answers, which bring
-- the rest of the bytes.
Answered : ℕ → List Read → ReadResult → Type 0
Answered count reads waits = Unit
Answered count reads (returned bytes later) =
    (length bytes ≤ count)
    × (length later < length reads)
    × (length bytes + arriving later ≤ arriving reads)

read-Answered : (reads : List Read) (count : ℕ) → Answered count reads (read reads count)
unfolding Answered read
read-Answered [] count = tt
read-Answered (got bytes ∷ later) count =
    let size = length-take count bytes in (omega (arith, size), omega arith, omega (arith, size))
read-Answered (empty ∷ []) count = tt
read-Answered (empty ∷ (got bytes ∷ later)) count =
    let size = length-take count bytes in (omega (arith, size), omega arith, omega (arith, size))
read-Answered (empty ∷ (empty ∷ later)) count = (omega arith, omega arith, omega arith)

-- The rounds that follow a read keep what the read gave.
after_read-Kept :
    (fault : Type 0) (again : TcpBuffer → List Read → Option Received) (roomy : TcpBuffer)
    (reads : List Read) (late : ℕ) (r : ReadResult)
    → IsValid roomy
    → Answered (write_able roomy) reads r
    → ((b : TcpBuffer) (later : List Read)
        → IsValid b
        → length later < length reads
        → b.write_index + arriving later ≤ roomy.write_index + arriving reads
        → Kept fault (contents b) (again b later))
    → Kept fault (contents roomy) (after_read again roomy late r)
unfolding after_read Kept Holds Answered
after_read-Kept fault again roomy reads late waits v h next =
    inr (_, refl, v, sym (append-nil (contents roomy)))
after_read-Kept fault again roomy reads late (returned [] later) v h next =
    inr (_, refl, v, sym (append-nil (contents roomy)))
after_read-Kept fault again roomy reads late (returned (byte ∷ rest) later) v (few, fewer, fed)
      next =
    let bytes = byte ∷ rest in
    let (filled, stored, v', kept) = fill-Leaves roomy bytes v few in
    let moved = fill-write_index roomy bytes stored in
    let more =
      prepend-Kept fault (contents roomy) bytes (again filled later)
        (rw (← kept) (next filled later v' fewer (omega (arith, moved)))) in
    rw stored (elim (Bool-cases (late == 0)) [
      | inl flag ↦ rw flag (inr (_, refl, v', kept))
      | inr on_time ↦ rw on_time (elim (Bool-cases (length bytes == write_able roomy)) [
        | inl whole ↦ rw whole more
        | inr part ↦ rw part (inr (_, refl, v', kept))
      ])
    ])

-- With a round for each answer of the kernel the loop ends, or the size overflows.
input_loop-Kept :
    (fault : Type 0) (fuel : ℕ) (b : TcpBuffer) (reads : List Read) (late : ℕ)
    → length reads < fuel
    → IsValid b
    → Bounded fault b reads
    → Kept fault (contents b) (input_loop fuel b reads late)
unfolding input_loop Kept
input_loop-Kept fault zero b reads late enough v few = absurd (omega arith)
input_loop-Kept fault (suc fuel) b reads late enough v few =
    elim (make_room-Roomy fault b reads v few) [
      | inl (f, over) ↦ rw over (inl (f, refl))
      | inr (roomy, made, v', kept, moved) ↦
          rw (made, ← kept)
            (after_read-Kept fault (λ filled later. input_loop fuel filled later (late - 1)) roomy
              reads late (read reads (write_able roomy)) v' (read-Answered reads (write_able roomy))
              (λ filled later w fewer fed.
                input_loop-Kept fault fuel filled later (late - 1) (omega arith) w
                  (still few filled later (omega (arith, moved, fed)))))
    ]
  where
    still :
        Bounded fault b reads
        → (b' : TcpBuffer) (later : List Read)
        → b'.write_index + arriving later ≤ b.write_index + arriving reads
        → Bounded fault b' later
    still (inl f) b' later h = inl f
    still (inr bound) b' later h = inr (omega arith)

-- So few bytes that no int overflows.
pub input_loop-Holds :
    (b : TcpBuffer) (reads : List Read) (late : ℕ)
    → IsValid b
    → b.write_index + arriving reads < 2 ^ 30
    → Holds (contents b) (input_loop (suc (length reads)) b reads late)
unfolding Kept
input_loop-Holds b reads late v bound =
    held (input_loop-Kept ⊥ (suc (length reads)) b reads late (omega arith) v (inr bound))
  where
    held :
        Kept ⊥ (contents b) (input_loop (suc (length reads)) b reads late)
        → Holds (contents b) (input_loop (suc (length reads)) b reads late)
    held (inl (f, _)) = absurd f
    held (inr h) = h

-- Any result holds what the buffer held and then what arrived.
pub input_loop-keeps :
    (b : TcpBuffer) (reads : List Read) (late : ℕ) (r : Received)
    → IsValid b
    → input_loop (suc (length reads)) b reads late ≡ some r
    → IsValid r.buffer × (contents r.buffer ≡ contents b ++ r.bytes)
unfolding Kept Holds
input_loop-keeps b reads late r v e =
    held (input_loop-Kept Unit (suc (length reads)) b reads late (omega arith) v (inl tt))
  where
    none_some : none ≡ some r → ⊥
    none_some e = cc

    held :
        Kept Unit (contents b) (input_loop (suc (length reads)) b reads late)
        → IsValid r.buffer × (contents r.buffer ≡ contents b ++ r.bytes)
    held (inl (_, over)) = absurd (none_some (sym over ∙ e))
    held (inr (s, made, v', kept)) =
        let same : s ≡ r = cc in
        (
          subst (λ (s : Received). IsValid s.buffer) same v',
          subst (λ (s : Received). contents s.buffer ≡ contents b ++ s.bytes) same kept,
        )
