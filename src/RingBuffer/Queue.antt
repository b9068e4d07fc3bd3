-- ===== src/RingBuffer/Queue.antt =====
-- Used by one thread a ring is a queue of at most `capacity - 1` items.
use corpc.Base.{
  ℕ, suc, ◌+◌, ◌^◌, ◌≤◌, ◌<◌, ◌≡◌, refl, ap, ap₂, ◌∙◌, inl, inr, Bool, true, false, Option, none,
  some, List, [], ◌∷◌, ◌++◌, arith, length, set, length-set, get_elem?-set_self, ◌==◌,
  if◌then◌else◌, Bool-cases,
}
use corpc.RingBuffer.{Ring, capacity, push, pop}
use corpc.RingBuffer.Window.{
  next, distance, window, increment_pos-next, window-set, window-suc, distance-next,
  distance-next_to, length-window,
}

pub record IsValid (r : Ring) : Type 0 where
  pub small : capacity r ≤ 2 ^ 63
  pub read_in : r.read_pos < capacity r
  pub write_in : r.write_pos < capacity r

-- The items in the ring, oldest first.
abbrev pub contents : Ring → List (Option ℕ)
contents r = window r.buffer r.read_pos (distance (capacity r) r.read_pos r.write_pos)

-- The queue's own push and pop.
abbrev pub queue_push : ℕ → List (Option ℕ) → ℕ → List (Option ℕ) × Bool
queue_push n q item = if length q + 1 == n then (q, false) else (q ++ (some item ∷ []), true)

abbrev pub queue_pop : List (Option ℕ) → List (Option ℕ) × Option ℕ
queue_pop [] = ([], none)
queue_pop (x ∷ q) = (q, x)

-- What `push` leaves when there is room.
pub pushed-contents :
    (r : Ring) (item : ℕ)
    → IsValid r
    → (next (capacity r) r.write_pos == r.read_pos) ≡ false
    → window
        (set r.buffer r.write_pos item)
        r.read_pos
        (distance (capacity r) r.read_pos (next (capacity r) r.write_pos))
      ≡ contents r ++ (some item ∷ [])
pushed-contents r item v room =
    ap (window buffer' r.read_pos) longer
    ∙ window-suc buffer' r.write_pos held r.read_pos
        (rw (length-set r.buffer r.write_pos item) v.read_in)
        (rw (length-set r.buffer r.write_pos item) v.write_in)
        (rw (length-set r.buffer r.write_pos item))
    ∙ ap₂ (λ q x. q ++ (x ∷ []))
        (window-set r.buffer r.write_pos item held r.read_pos v.read_in v.write_in (omega arith))
        (get_elem?-set_self r.buffer r.write_pos item v.write_in)
  where
    buffer' : List ℕ
    buffer' = set r.buffer r.write_pos item

    held : ℕ
    held = distance (capacity r) r.read_pos r.write_pos

    longer : distance (capacity r) r.read_pos (next (capacity r) r.write_pos) ≡ suc held
    longer =
        distance-next_to (capacity r) r.read_pos r.write_pos v.read_in v.write_in (ground arith)

-- `push` refuses an item exactly when `capacity - 1` are held, and puts it last otherwise.
pub push_refines :
    (r : Ring) (item : ℕ)
    → IsValid r
    → let (r', done) = push r item in
      IsValid r' × ((contents r', done) ≡ queue_push (capacity r) (contents r) item)
unfolding push
push_refines r item v =
    rw (increment_pos-next r r.write_pos v.small v.write_in)
      (elim (Bool-cases (next (capacity r) r.write_pos == r.read_pos)) [
        | inl full ↦
            let refused : (length (contents r) + 1 == capacity r) ≡ true =
              rw (length-window r.buffer r.read_pos held) (ground arith) in
            rw (full, refused) (v, refl)
        | inr room ↦
            let taken : (length (contents r) + 1 == capacity r) ≡ false =
              rw (length-window r.buffer r.read_pos held) (ground arith) in
            rw (room, taken)
              (
                record {
                  small = rw (length-set r.buffer r.write_pos item) v.small;
                  read_in = rw (length-set r.buffer r.write_pos item) v.read_in;
                  write_in = rw (length-set r.buffer r.write_pos item) (ground arith);
                },
                rw (length-set r.buffer r.write_pos item)
                    (ap (λ q. (q, true)) (pushed-contents r item v room)),
              )
      ])
  where
    held : ℕ
    held = distance (capacity r) r.read_pos r.write_pos

-- `pop` takes the oldest item, and fails on the empty ring only.
pub pop_refines :
    (r : Ring)
    → IsValid r
    → let (r', out) = pop r in IsValid r' × ((contents r', out) ≡ queue_pop (contents r))
unfolding pop
pop_refines r v =
    rw (increment_pos-next r r.read_pos v.small v.read_in)
      (elim (Bool-cases (r.read_pos == r.write_pos)) [
        | inl empty ↦ let nothing : held ≡ 0 = ground arith in rw (empty, nothing) (v, refl)
        | inr something ↦
            let one_more : held
                ≡ suc (distance (capacity r) (next (capacity r) r.read_pos) r.write_pos) =
              distance-next (capacity r) r.read_pos r.write_pos v.read_in v.write_in
                (ground arith) in
            rw (something, one_more)
              (record { small = v.small; read_in = ground arith; write_in = v.write_in }, refl)
      ])
  where
    held : ℕ
    held = distance (capacity r) r.read_pos r.write_pos
