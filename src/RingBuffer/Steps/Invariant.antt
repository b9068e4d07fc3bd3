-- ===== src/RingBuffer/Steps/Invariant.antt =====
-- The locals of the two threads stay true, and the ring holds what was sent and not yet received.
use corpc.Base.{
  ℕ, ◌^◌, ◌≤◌, ◌<◌, ◌≡◌, ◌≢◌, refl, sym, ap, ◌∙◌, Option, some, List, [], ◌∷◌, ◌++◌, append_assoc,
  append-nil, arith, get_elem?, length-set, length-replicate, get_elem?-set_self, get_elem?-set_ne,
}
use corpc.RingBuffer.{Ring, capacity, create}
use corpc.RingBuffer.Steps.{
  Producer, idle, loaded, has_room, stored, Consumer, has_item, taken, System, Produce, load, full,
  room, store, publish, Consume, empty, nonempty, read, release, Step, produce, consume, start,
  Reach, begin, later,
}
use corpc.RingBuffer.Window.{
  next, distance, window, increment_pos-next, window-set, window-suc, next-injective, distance-next,
  distance-next_to,
}
use corpc.RingBuffer.Queue.{IsValid, contents}

-- What the producer's locals say about the ring.
abbrev pub ProducerKnows : Ring → Producer → Type 0
ProducerKnows r idle = Unit
ProducerKnows r (loaded item w) = w ≡ r.write_pos
ProducerKnows r (has_room item w) = (w ≡ r.write_pos) × (next (capacity r) w ≢ r.read_pos)
ProducerKnows r (stored item w) =
    (w ≡ r.write_pos) × (next (capacity r) w ≢ r.read_pos) × (get_elem? r.buffer w ≡ some item)

abbrev pub ConsumerKnows : Ring → Consumer → Type 0
ConsumerKnows r idle = Unit
ConsumerKnows r (loaded at) = at ≡ r.read_pos
ConsumerKnows r (has_item at) = (at ≡ r.read_pos) × (at ≢ r.write_pos)
ConsumerKnows r (taken at x) = (at ≡ r.read_pos) × (at ≢ r.write_pos) × (get_elem? r.buffer at ≡ x)

pub record Inv (s : System) : Type 0 where
  pub valid : IsValid s.ring
  pub history : s.sent ≡ s.got ++ contents s.ring
  pub producer_knows : ProducerKnows s.ring s.producer
  pub consumer_knows : ConsumerKnows s.ring s.consumer

module _ (r : Ring) (v : IsValid r) where
  Produce-IsValid :
      {p p' : Producer} {r' : Ring} {out : List (Option ℕ)}
      → Produce r p r' p' out
      → ProducerKnows r p
      → IsValid r'
  Produce-IsValid (load item) k = v
  Produce-IsValid (full h) k = v
  Produce-IsValid (room h) k = v
  Produce-IsValid (store {item} {w}) k = record {
    small = rw (length-set r.buffer w item) v.small;
    read_in = rw (length-set r.buffer w item) v.read_in;
    write_in = rw (length-set r.buffer w item) v.write_in;
  }
  Produce-IsValid (publish {item} {w}) k = record {
    small = v.small;
    read_in = v.read_in;
    write_in =
        rw (k.0, increment_pos-next r r.write_pos v.small v.write_in) (ground (arith, v.write_in));
  }

  Produce-contents :
      {p p' : Producer} {r' : Ring} {out : List (Option ℕ)}
      → Produce r p r' p' out
      → ProducerKnows r p
      → contents r' ≡ contents r ++ out
  Produce-contents (load item) k = sym (append-nil _)
  Produce-contents (full h) k = sym (append-nil _)
  Produce-contents (room h) k = sym (append-nil _)
  Produce-contents (store {item} {w}) k =
      rw (k.0, length-set r.buffer r.write_pos item)
        (window-set r.buffer r.write_pos item (distance (capacity r) r.read_pos r.write_pos)
            r.read_pos v.read_in v.write_in (omega arith)
          ∙ sym (append-nil _))
  Produce-contents (publish {item} {w}) k =
      rw (k.0, increment_pos-next r r.write_pos v.small v.write_in)
        (ap (window r.buffer r.read_pos) (
            distance-next_to (capacity r) r.read_pos r.write_pos v.read_in v.write_in
              (rw k.0 at (k.1)))
          ∙ window-suc r.buffer r.write_pos _ r.read_pos v.read_in v.write_in refl
          ∙ ap (λ x. contents r ++ (x ∷ [])) (rw k.0 at (k.2)))

  Produce-knows :
      {p p' : Producer} {r' : Ring} {out : List (Option ℕ)}
      → Produce r p r' p' out
      → ProducerKnows r p
      → ProducerKnows r' p'
  Produce-knows (load item) k = refl
  Produce-knows (full h) k = tt
  Produce-knows (room {w = w} h) k = (k, rw (← increment_pos-next r w v.small (rw k v.write_in)) h)
  Produce-knows (store {item} {w}) k = (
    k.0,
    rw (length-set r.buffer w item) k.1,
    get_elem?-set_self r.buffer w item (rw k.0 v.write_in),
  )
  Produce-knows publish k = tt

  -- What the consumer relies on: its position, its item and its distance from the producer.
  Kept : Ring → Type 0
  Kept r' =
      (r'.read_pos ≡ r.read_pos)
      × (r.read_pos ≢ r.write_pos → r.read_pos ≢ r'.write_pos)
      × (r.read_pos ≢ r.write_pos → get_elem? r'.buffer r.read_pos ≡ get_elem? r.buffer r.read_pos)

  Produce-Kept :
      {p p' : Producer} {r' : Ring} {out : List (Option ℕ)}
      → Produce r p r' p' out
      → ProducerKnows r p
      → Kept r'
  unfolding Kept
  Produce-Kept (load item) k = (refl, λ h. h, λ h. refl)
  Produce-Kept (full e) k = (refl, λ h. h, λ h. refl)
  Produce-Kept (room e) k = (refl, λ h. h, λ h. refl)
  Produce-Kept (store {item} {w}) k =
      (refl, λ h. h, λ h. get_elem?-set_ne r.buffer item (λ e. h (sym e ∙ k.0)))
  Produce-Kept (publish {item} {w}) k = (
    refl,
    λ h e. k.1 (sym (increment_pos-next r w v.small (rw (k.0) v.write_in)) ∙ sym e),
    λ h. refl,
  )

  Kept-knows : (r' : Ring) → Kept r' → (c : Consumer) → ConsumerKnows r c → ConsumerKnows r' c
  unfolding Kept
  Kept-knows r' k idle h = tt
  Kept-knows r' k (loaded at) h = h ∙ sym k.0
  Kept-knows r' k (has_item at) h =
      (h.0 ∙ sym k.0, λ e. k.1 (λ same. h.1 (h.0 ∙ same)) (sym h.0 ∙ e))
  Kept-knows r' k (taken at x) h = (
    h.0 ∙ sym k.0,
    (λ e. k.1 (λ same. h.1 (h.0 ∙ same)) (sym h.0 ∙ e)),
    rw h.0 (k.2 (λ same. h.1 (h.0 ∙ same))) ∙ rw h.0 at h.2,
  )

  Consume-IsValid :
      {c c' : Consumer} {r' : Ring} {out : List (Option ℕ)}
      → Consume r c r' c' out
      → ConsumerKnows r c
      → IsValid r'
  Consume-IsValid load k = v
  Consume-IsValid (empty e) k = v
  Consume-IsValid (nonempty e) k = v
  Consume-IsValid read k = v
  Consume-IsValid (release {at} {x}) k = record {
    small = v.small;
    read_in =
        rw (k.0, increment_pos-next r r.read_pos v.small v.read_in) (ground (arith, v.read_in));
    write_in = v.write_in;
  }

  Consume-contents :
      {c c' : Consumer} {r' : Ring} {out : List (Option ℕ)}
      → Consume r c r' c' out
      → ConsumerKnows r c
      → contents r ≡ out ++ contents r'
  Consume-contents load k = refl
  Consume-contents (empty e) k = refl
  Consume-contents (nonempty e) k = refl
  Consume-contents read k = refl
  Consume-contents (release {at} {x}) k =
      rw (← k.2, k.0, increment_pos-next r r.read_pos v.small v.read_in)
        (ap (window r.buffer r.read_pos) (
          distance-next (capacity r) r.read_pos r.write_pos v.read_in v.write_in
            (λ e. k.1 (k.0 ∙ e))))

  Consume-knows :
      {c c' : Consumer} {r' : Ring} {out : List (Option ℕ)}
      → Consume r c r' c' out
      → ConsumerKnows r c
      → ConsumerKnows r' c'
  Consume-knows load k = refl
  Consume-knows (empty e) k = tt
  Consume-knows (nonempty e) k = (k, e)
  Consume-knows read k = (k.0, k.1, refl)
  Consume-knows release k = tt

  -- `pop` never makes the ring look full to a producer that has seen room.
  Consume-other :
      {c c' : Consumer} {r' : Ring} {out : List (Option ℕ)}
      → Consume r c r' c' out
      → ConsumerKnows r c
      → (p : Producer) → ProducerKnows r p
      → ProducerKnows r' p
  Consume-other load k p h = h
  Consume-other (empty e) k p h = h
  Consume-other (nonempty e) k p h = h
  Consume-other read k p h = h
  Consume-other (release {at} {x}) k idle h = tt
  Consume-other (release {at} {x}) k (loaded i w) h = h
  Consume-other (release {at} {x}) k (has_room i w) h = (
    h.0,
    rw (k.0, h.0, increment_pos-next r r.read_pos v.small v.read_in)
        (λ e.
          k.1 (
            k.0 ∙ sym (next-injective (capacity r) r.write_pos r.read_pos v.write_in v.read_in e))),
  )
  Consume-other (release {at} {x}) k (stored i w) h = (
    h.0,
    rw (k.0, h.0, increment_pos-next r r.read_pos v.small v.read_in)
        (λ e.
          k.1 (
            k.0 ∙ sym (next-injective (capacity r) r.write_pos r.read_pos v.write_in v.read_in e))),
    h.2,
  )

-- Every step keeps the invariant.
pub Step-Inv : {s t : System} → Step s t → Inv s → Inv t
Step-Inv {s} (produce {r} {p} {out} mv) inv = record {
  valid = Produce-IsValid s.ring inv.valid mv inv.producer_knows;
  history =
      ap (λ l. l ++ out) inv.history
      ∙ append_assoc s.got (contents s.ring) out
      ∙ ap (◌++◌ s.got) (sym (Produce-contents s.ring inv.valid mv inv.producer_knows));
  producer_knows = Produce-knows s.ring inv.valid mv inv.producer_knows;
  consumer_knows =
      Kept-knows s.ring inv.valid r (Produce-Kept s.ring inv.valid mv inv.producer_knows) s.consumer
        inv.consumer_knows;
}
Step-Inv {s} (consume {r} {c} {out} mv) inv = record {
  valid = Consume-IsValid s.ring inv.valid mv inv.consumer_knows;
  history =
      inv.history
      ∙ ap (◌++◌ s.got) (Consume-contents s.ring inv.valid mv inv.consumer_knows)
      ∙ sym (append_assoc s.got out (contents r));
  producer_knows =
      Consume-other s.ring inv.valid mv inv.consumer_knows s.producer inv.producer_knows;
  consumer_knows = Consume-knows s.ring inv.valid mv inv.consumer_knows;
}

start-Inv : (n : ℕ) → 0 < n → n ≤ 2 ^ 63 → Inv (start n)
unfolding create
start-Inv n h small = record {
  valid = record {
    small = rw (length-replicate {A = ℕ} n 0) small;
    read_in = rw (length-replicate {A = ℕ} n 0) h;
    write_in = rw (length-replicate {A = ℕ} n 0) h;
  };
  history = refl;
  producer_knows = tt;
  consumer_knows = tt;
}

pub Reach-Inv : {n : ℕ} {s : System} → 0 < n → n ≤ 2 ^ 63 → Reach n s → Inv s
Reach-Inv {n} h small begin = start-Inv n h small
Reach-Inv h small (later r st) = Step-Inv st (Reach-Inv h small r)
