-- ===== src/RingBuffer/Steps.antt =====
-- One producer and one consumer at once: every interleaving of their loads and stores. An acquire
-- load sees what was stored before the release store that it reads from, so one memory serves.
pub mod Invariant
pub mod Safety
use corpc.Base.{
  ℕ, zero, suc, ◌+◌, ◌-◌, ◌^◌, ◌≤◌, ◌<◌, ◌≡◌, ◌≢◌, refl, sym, ap, ap₂, ◌∙◌, inl, inr, Bool, true,
  false, Option, none, some, List, [], ◌∷◌, ◌++◌, map, append_assoc, append-nil, arith, length,
  get_elem?, set, length-set, get_elem?-set_self, get_elem?-set_ne, leb, ◌==◌, if◌then◌else◌,
  Bool-cases,
}
use mathlib.Core.List.{map-append}
use corpc.RingBuffer.{Ring, capacity, increment_pos, create}
use corpc.RingBuffer.Window.{
  next, distance, window, increment_pos-next, window-set, window-suc, distance-next,
  distance-next_to,
}
use corpc.RingBuffer.Queue.{IsValid, contents, pushed-contents}

-- Where `push` stands: before it, after the load of `m_write_pos`, past the test, and after the
-- write of the slot. The locals are the item and `current_write_pos`.
pub data Producer : Type 0 where
  idle : Producer
  loaded : ℕ → ℕ → Producer
  has_room : ℕ → ℕ → Producer
  stored : ℕ → ℕ → Producer

-- Where `pop` stands: before it, after the load of `m_read_pos`, past the test, and after the
-- read of the slot. The locals are `current_read_pos` and the item.
pub data Consumer : Type 0 where
  idle : Consumer
  loaded : ℕ → Consumer
  has_item : ℕ → Consumer
  taken : ℕ → Option ℕ → Consumer

-- `sent` and `got` are the items of the calls that returned true, oldest first.
pub record System : Type 0 where
  pub ring : Ring
  pub producer : Producer
  pub consumer : Consumer
  pub sent : List (Option ℕ)
  pub got : List (Option ℕ)

-- A step of `push`.
pub data Produce (r : Ring) : Producer → Ring → Producer → List (Option ℕ) → Type 0 where
  load : (item : ℕ) → Produce r idle r (loaded item r.write_pos) []
  full : {item w : ℕ} → increment_pos r w ≡ r.read_pos → Produce r (loaded item w) r idle []
  room :
      {item w : ℕ}
      → increment_pos r w ≢ r.read_pos
      → Produce r (loaded item w) r (has_room item w) []
  store :
      {item w : ℕ}
      → Produce r (has_room item w) (record r { buffer = set r.buffer w item }) (stored item w) []
  publish :
      {item w : ℕ}
      → Produce r (stored item w) (record r { write_pos = increment_pos r w }) idle (some item ∷ [])

-- A step of `pop`.
pub data Consume (r : Ring) : Consumer → Ring → Consumer → List (Option ℕ) → Type 0 where
  load : Consume r idle r (loaded r.read_pos) []
  empty : {at : ℕ} → at ≡ r.write_pos → Consume r (loaded at) r idle []
  nonempty : {at : ℕ} → at ≢ r.write_pos → Consume r (loaded at) r (has_item at) []
  read : {at : ℕ} → Consume r (has_item at) r (taken at (get_elem? r.buffer at)) []
  release :
      {at : ℕ} {x : Option ℕ}
      → Consume r (taken at x) (record r { read_pos = increment_pos r at }) idle (x ∷ [])

pub data Step (s : System) : System → Type 0 where
  produce :
      {r : Ring} {p : Producer} {out : List (Option ℕ)}
      → Produce s.ring s.producer r p out
      → Step s (record s { ring = r; producer = p; sent = s.sent ++ out })
  consume :
      {r : Ring} {c : Consumer} {out : List (Option ℕ)}
      → Consume s.ring s.consumer r c out
      → Step s (record s { ring = r; consumer = c; got = s.got ++ out })

abbrev pub start : ℕ → System
start n = record { ring = create n; producer = idle; consumer = idle; sent = []; got = [] }

pub data Reach (n : ℕ) : System → Type 0 where
  begin : Reach n (start n)
  later : {s t : System} → Reach n s → Step s t → Reach n t
