-- ===== src/RingBuffer/Steps/Safety.antt =====
-- What holds in every state that one producer and one consumer can reach.
use corpc.Base.{ℕ, ◌^◌, ◌≤◌, ◌<◌, ◌≡◌, ◌≢◌, sym, ◌∙◌, ◌++◌, length}
use corpc.RingBuffer.{Ring, capacity}
use corpc.RingBuffer.Window.{length-window, distance, distance-lt}
use corpc.RingBuffer.Queue.{contents}
use corpc.RingBuffer.Steps.{
  System, Producer, idle, loaded, has_room, stored, Consumer, has_item, taken, Reach,
}
use corpc.RingBuffer.Steps.Invariant.{Reach-Inv, ProducerKnows, ConsumerKnows}

-- First in, first out, with nothing lost or doubled: what was sent is what was received, then what
-- the ring holds, which is less than its capacity.
pub fifo :
    {n : ℕ} {s : System}
    → 0 < n
    → n ≤ 2 ^ 63
    → Reach n s
    → (s.sent ≡ s.got ++ contents s.ring) × (length (contents s.ring) < capacity s.ring)
fifo {s = s} h small r =
    let inv = Reach-Inv h small r in
    (
      inv.history,
      rw
          (length-window s.ring.buffer s.ring.read_pos
            (distance (capacity s.ring) s.ring.read_pos s.ring.write_pos))
          (distance-lt (capacity s.ring) s.ring.read_pos s.ring.write_pos inv.valid.read_in
            inv.valid.write_in),
    )

-- The producer is about to write slot `w`, or has written it and not yet published it.
abbrev pub Writes : Producer → ℕ → Type 0
Writes (has_room item w) slot = w ≡ slot
Writes (stored item w) slot = w ≡ slot
Writes _ slot = ⊥

-- The consumer is about to read slot `at`, or has read it and not yet released it.
abbrev pub Reads : Consumer → ℕ → Type 0
Reads (has_item at) slot = at ≡ slot
Reads (taken at x) slot = at ≡ slot
Reads _ slot = ⊥

Writes-write_pos :
    (r : Ring) (p : Producer) (slot : ℕ) → ProducerKnows r p → Writes p slot → slot ≡ r.write_pos
Writes-write_pos r idle slot k h = absurd h
Writes-write_pos r (loaded item w) slot k h = absurd h
Writes-write_pos r (has_room item w) slot k h = sym h ∙ k.0
Writes-write_pos r (stored item w) slot k h = sym h ∙ k.0

Reads-ne_write_pos :
    (r : Ring) (c : Consumer) (slot : ℕ) → ConsumerKnows r c → Reads c slot → slot ≢ r.write_pos
Reads-ne_write_pos r idle slot k h = absurd h
Reads-ne_write_pos r (loaded at) slot k h = absurd h
Reads-ne_write_pos r (has_item at) slot k h = λ e. k.1 (h ∙ e)
Reads-ne_write_pos r (taken at x) slot k h = λ e. k.1 (h ∙ e)

-- No data race: the two threads are never at work on the same slot.
pub no_race :
    {n written red : ℕ} {s : System}
    → 0 < n
    → n ≤ 2 ^ 63
    → Reach n s
    → Writes s.producer written
    → Reads s.consumer red
    → written ≢ red
no_race {written = written} {red} {s} h small r writing reading e =
    let inv = Reach-Inv h small r in
    Reads-ne_write_pos s.ring s.consumer red inv.consumer_knows reading
      (sym e ∙ Writes-write_pos s.ring s.producer written inv.producer_knows writing)
