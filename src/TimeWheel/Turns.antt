-- ===== src/TimeWheel/Turns.antt =====
-- The wheel, read from the bucket that is cleared next, is a queue of buckets.
use corpc.Base.{
  ℕ, Bool, zero, suc, ◌+◌, ◌%◌, ◌<◌, ◌≡◌, refl, sym, ap, ap₂, ◌∙◌, List, [], ◌∷◌, ◌++◌, append-nil,
  append_assoc, arith, length, length-append, length-set, set, get_or, take, drop, ◌||◌,
}
use native.Mathlib.Nat.{mod-eq_of_lt, mod_self, mod-lt}
use corpc.TimeWheel.{TcpTimeWheel, has_slot, is_held, put, fresh, clear, loop_func}

pub record IsValid (w : TcpTimeWheel) : Type 0 where
  pub size : length w.wheel ≡ w.bucket_count
  pub inside : w.cur_bucket < w.bucket_count

-- The bucket that the next call of `loopFunc` clears comes first.
abbrev pub turns : TcpTimeWheel → List (List ℕ)
turns w = drop w.cur_bucket w.wheel ++ take w.cur_bucket w.wheel

-- The wheel as a queue: a refreshed slot goes into the last bucket.
unfoldable pub put_last : List (List ℕ) → ℕ → List (List ℕ)
put_last [] slot = []
put_last (bucket ∷ []) slot = (bucket ++ slot ∷ []) ∷ []
put_last (bucket ∷ (next ∷ rest)) slot = bucket ∷ put_last (next ∷ rest) slot

-- A turn takes the first bucket away and puts an empty one last.
abbrev pub turn : (ℕ → Bool) → List (List ℕ) → List (List ℕ) × List ℕ
turn locks [] = ([], [])
turn locks (bucket ∷ rest) = (rest ++ [] ∷ [], clear locks bucket rest)

-- What holds where a list is split holds at every index inside.
pub split_induction :
    {A : Type 0} (P : ℕ → List A → Type 0)
    → ((a : List A) (c : A) (b : List A) → P (length a) (a ++ c ∷ b))
    → (i : ℕ) (l : List A) → i < length l
    → P i l
split_induction P h i [] inside = absurd (omega arith)
split_induction P h zero (c ∷ l) inside = h [] c l
split_induction P h (suc i) (x ∷ l) inside =
    split_induction (λ k r. P (suc k) (x ∷ r)) (λ a c b. h (x ∷ a) c b) i l (omega arith)

module _ {A : Type 0} where
  drop_self : (a b : List A) → drop (length a) (a ++ b) ≡ b
  drop_self [] b = refl
  drop_self (x ∷ a) b = drop_self a b

  take_self : (a b : List A) → take (length a) (a ++ b) ≡ a
  take_self [] b = refl
  take_self (x ∷ a) b = ap (λ r. x ∷ r) (take_self a b)

  set_self : (a : List A) (c : A) (b : List A) (v : A) → set (a ++ c ∷ b) (length a) v ≡ a ++ v ∷ b
  set_self [] c b v = refl
  set_self (x ∷ a) c b v = ap (λ r. x ∷ r) (set_self a c b v)

  get_or_self : (a : List A) (c : A) (b : List A) (d : A) → get_or (a ++ c ∷ b) (length a) d ≡ c
  get_or_self [] c b d = refl
  get_or_self (x ∷ a) c b d = get_or_self a c b d

pub put_self :
    (a : List (List ℕ)) (c : List ℕ) (b : List (List ℕ)) (slot : ℕ)
    → put (a ++ c ∷ b) (length a) slot ≡ a ++ (c ++ slot ∷ []) ∷ b
unfolding put
put_self [] c b slot = refl
put_self (x ∷ a) c b slot = ap (λ r. x ∷ r) (put_self a c b slot)

pub put_last-append :
    (a : List (List ℕ)) (c : List ℕ) (slot : ℕ)
    → put_last (a ++ c ∷ []) slot ≡ a ++ (c ++ slot ∷ []) ∷ []
unfolding put_last
put_last-append [] c slot = refl
put_last-append (x ∷ []) c slot = refl
put_last-append (x ∷ (y ∷ a)) c slot = ap (λ r. x ∷ r) (put_last-append (y ∷ a) c slot)

pub is_held-append :
    (slot : ℕ) (a b : List (List ℕ)) → is_held slot (a ++ b) ≡ (is_held slot a || is_held slot b)
unfolding is_held
is_held-append slot [] b = refl
is_held-append slot (x ∷ a) b = ground (arith, is_held-append slot a b)

-- Who is held does not depend on where a turn begins, nor on empty buckets.
is_held_turned :
    (slot : ℕ) (a b : List (List ℕ)) → is_held slot (a ++ [] ∷ b) ≡ is_held slot (b ++ a)
unfolding is_held has_slot
is_held_turned slot a b = ground (arith, is_held-append slot a ([] ∷ b), is_held-append slot b a)

clear_turned :
    (locks : ℕ → Bool) (bucket : List ℕ) (a b : List (List ℕ))
    → clear locks bucket (a ++ [] ∷ b) ≡ clear locks bucket (b ++ a)
unfolding clear
clear_turned locks [] a b = refl
clear_turned locks (slot ∷ bucket) a b =
    rw (is_held_turned slot a b, clear_turned locks bucket a b) refl

turned_end :
    (a b : List (List ℕ))
    → drop (suc (length a)) (a ++ [] ∷ b) ++ take (suc (length a)) (a ++ [] ∷ b)
      ≡ (b ++ a) ++ [] ∷ []
turned_end a b =
    let size : length (a ++ [] ∷ []) ≡ suc (length a) = omega (arith, length-append a ([] ∷ [])) in
    let moved : a ++ [] ∷ b ≡ (a ++ [] ∷ []) ++ b = sym (append_assoc a ([] ∷ []) b) in
    rw (moved, ← size)
      (rw (drop_self (a ++ [] ∷ []) b, take_self (a ++ [] ∷ []) b)
        (sym (append_assoc b a ([] ∷ []))))

abbrev pub wheel_at : ℕ → ℕ → List (List ℕ) → TcpTimeWheel
wheel_at n cur wheel = record { bucket_count = n; cur_bucket = cur; wheel = wheel }

abbrev pub turned : TcpTimeWheel × List ℕ → List (List ℕ) × List ℕ
turned (w, expired) = (turns w, expired)

-- A turn at a wheel that is split at its current bucket.
loop_func-split :
    (locks : ℕ → Bool) (n : ℕ) (a : List (List ℕ)) (c : List ℕ) (b : List (List ℕ))
    → length (a ++ c ∷ b) ≡ n
    → turned (loop_func locks (wheel_at n (length a) (a ++ c ∷ b))) ≡ turn locks (c ∷ (b ++ a))
unfolding loop_func
loop_func-split locks n a c [] e =
    let size = length-append a (c ∷ []) in
    let wraps : (length a + 1) % n ≡ 0 = ap (λ k. k % n) (omega arith) ∙ mod_self n in
    rw (set_self a c [] [], get_or_self a c [] [], wraps)
      (ap₂ (λ q out. (q, out)) (append-nil (a ++ [] ∷ [])) (clear_turned locks c a []))
loop_func-split locks n a c (d ∷ b) e =
    let size = length-append a (c ∷ (d ∷ b)) in
    let stays : (length a + 1) % n ≡ suc (length a) = mod-eq_of_lt (omega arith) ∙ omega arith in
    rw (set_self a c (d ∷ b) [], get_or_self a c (d ∷ b) [], stays)
      (ap₂ (λ q out. (q, out)) (turned_end a (d ∷ b)) (clear_turned locks c a (d ∷ b)))

turns-split :
    (n : ℕ) (a : List (List ℕ)) (c : List ℕ) (b : List (List ℕ))
    → turns (wheel_at n (length a) (a ++ c ∷ b)) ≡ c ∷ (b ++ a)
turns-split n a c b = rw (drop_self a (c ∷ b), take_self a (c ∷ b)) refl

-- `loopFunc` is a turn of the queue.
pub loop_func-turn :
    (locks : ℕ → Bool) (w : TcpTimeWheel)
    → IsValid w
    → turned (loop_func locks w) ≡ turn locks (turns w)
loop_func-turn locks w v =
    split_induction
      (λ cur l.
        length l ≡ w.bucket_count
        → turned (loop_func locks (wheel_at w.bucket_count cur l))
          ≡ turn locks (turns (wheel_at w.bucket_count cur l)))
      (λ a c b e.
        loop_func-split locks w.bucket_count a c b e
        ∙ ap (turn locks) (sym (turns-split w.bucket_count a c b)))
      w.cur_bucket w.wheel (omega (arith, v.size, v.inside)) v.size

pub loop_func-IsValid :
    (locks : ℕ → Bool) (w : TcpTimeWheel) → IsValid w → IsValid (loop_func locks w).0
unfolding loop_func
loop_func-IsValid locks w v = record {
  size = length-set w.wheel w.cur_bucket [] ∙ v.size;
  inside = mod-lt (w.cur_bucket + 1) (omega (arith, v.inside));
}

length-put : (l : List (List ℕ)) (i slot : ℕ) → length (put l i slot) ≡ length l
unfolding put
length-put [] i slot = refl
length-put (x ∷ l) zero slot = refl
length-put (x ∷ l) (suc i) slot = ap suc (length-put l i slot)

pub fresh-IsValid : (w : TcpTimeWheel) (slot : ℕ) → IsValid w → IsValid (fresh w slot)
unfolding fresh
fresh-IsValid w slot v = record { size = length-put w.wheel _ slot ∙ v.size; inside = v.inside }

-- Refreshed behind the bucket `c`, which is the last of the queue.
pub put-split :
    (n slot : ℕ) (a : List (List ℕ)) (c : List ℕ) (b : List (List ℕ))
    → turns (wheel_at n (suc (length a)) (put (a ++ c ∷ b) (length a) slot))
      ≡ put_last (turns (wheel_at n (suc (length a)) (a ++ c ∷ b))) slot
put-split n slot a c b =
    rw (put_self a c b slot, cut c, cut (c ++ slot ∷ []))
      (last ∙ ap (λ q. put_last q slot) (append_assoc b a (c ∷ [])))
  where
    cut : (d : List ℕ) → turns (wheel_at n (suc (length a)) (a ++ d ∷ b)) ≡ b ++ (a ++ d ∷ [])
    cut d =
        let size : length (a ++ d ∷ []) ≡ suc (length a) =
          omega (arith, length-append a (d ∷ [])) in
        let moved : a ++ d ∷ b ≡ (a ++ d ∷ []) ++ b = sym (append_assoc a (d ∷ []) b) in
        rw (moved, ← size) (rw (drop_self (a ++ d ∷ []) b, take_self (a ++ d ∷ []) b) refl)

    last : b ++ (a ++ (c ++ slot ∷ []) ∷ []) ≡ put_last ((b ++ a) ++ c ∷ []) slot
    last = sym (append_assoc b a ((c ++ slot ∷ []) ∷ [])) ∙ sym (put_last-append (b ++ a) c slot)
