-- ===== src/TimeWheel.antt =====
-- corpc/net/tcp/tcp_connection_time_wheel.{h,cc} and abstract_slot.h: the wheel that shuts down the
-- connections which have not been refreshed for a full turn.
pub mod Turns
pub mod Lifetime
mod Tests
use corpc.Base.{
  ℕ, zero, suc, ◌+◌, ◌-◌, ◌%◌, Bool, true, false, Option, none, some, List, [], ◌∷◌, ◌++◌, length,
  set, get_or, replicate, ◌==◌, ◌||◌, if◌then◌else◌,
}

-- A slot is a number, the identity of what the shared pointers share. Its callback, which shuts the
-- connection down, runs when the last pointer to it goes, if the connection is still there.
pub record TcpTimeWheel : Type 0 where
  pub bucket_count : ℕ
  pub cur_bucket : ℕ
  pub wheel : List (List ℕ)

unfoldable pub create : ℕ → TcpTimeWheel
create bucket_count = record {
  bucket_count = bucket_count;
  cur_bucket = 0;
  wheel = replicate bucket_count [];
}

unfoldable pub has_slot : ℕ → List ℕ → Bool
has_slot slot [] = false
has_slot slot (x ∷ bucket) = (x == slot) || has_slot slot bucket

unfoldable pub is_held : ℕ → List (List ℕ) → Bool
is_held slot [] = false
is_held slot (bucket ∷ wheel) = has_slot slot bucket || is_held slot wheel

-- `m_wheel[i].emplace_back(slot)`
unfoldable pub put : List (List ℕ) → ℕ → ℕ → List (List ℕ)
put [] i slot = []
put (bucket ∷ wheel) zero slot = (bucket ++ slot ∷ []) ∷ wheel
put (bucket ∷ wheel) (suc i) slot = bucket ∷ put wheel i slot

-- `cur_bucket - 1` is not negative once the number of buckets is added.
unfoldable pub fresh : TcpTimeWheel → ℕ → TcpTimeWheel
fresh w slot = record w {
  wheel = put w.wheel ((w.cur_bucket + w.bucket_count - 1) % w.bucket_count) slot;
}

-- `clear` of a bucket drops its pointers one after the other: the slots whose callback runs are those
-- that neither the rest of the bucket nor another bucket holds, and whose weak pointer can be locked.
unfoldable pub clear : (ℕ → Bool) → List ℕ → List (List ℕ) → List ℕ
clear locks [] others = []
clear locks (slot ∷ bucket) others =
    let expired = clear locks bucket others in
    if has_slot slot bucket || is_held slot others
    then expired
    else (if locks slot then slot ∷ expired else expired)

unfoldable pub loop_func : (ℕ → Bool) → TcpTimeWheel → TcpTimeWheel × List ℕ
loop_func locks w =
    let others = set w.wheel w.cur_bucket [] in
    (
      record w { wheel = others; cur_bucket = (w.cur_bucket + 1) % w.bucket_count },
      clear locks (get_or w.wheel w.cur_bucket []) others,
    )
