-- ===== src/TimeWheel/Lifetime.antt =====
-- How long a slot lives after it was refreshed.
use corpc.Base.{
  ℕ, Bool, zero, suc, ◌+◌, ◌-◌, ◌%◌, ◌≤◌, ◌<◌, ◌≡◌, ◌≢◌, refl, sym, ap, ap₂, subst, ◌∙◌, inl, inr,
  true, false, List, [], ◌∷◌, ◌++◌, append-nil, arith, length, length-append, length-drop,
  length-take, take, drop, ◌==◌, ==_iff, ◌||◌, Bool-cases,
}
use native.Mathlib.Nat.{mod-eq_of_lt, add-mod_right}
use corpc.TimeWheel.{TcpTimeWheel, has_slot, is_held, put, fresh, clear, loop_func}
use corpc.TimeWheel.Turns.{
  IsValid, turns, put_last, turn, loop_func-turn, loop_func-IsValid, fresh-IsValid, split_induction,
  put-split, put_self, put_last-append, wheel_at, is_held-append,
}

-- `fresh` puts the slot into the last bucket of the queue.
fresh-first :
    (n slot : ℕ) (wheel : List (List ℕ))
    → length wheel ≡ n
    → 0 < n
    → put wheel (n - 1) slot ≡ put_last wheel slot
fresh-first n slot wheel e h =
    split_induction (λ i l. length l ≡ suc i → put l i slot ≡ put_last l slot) at_end (n - 1) wheel
      (omega arith) (omega arith)
  where
    at_end :
        (a : List (List ℕ)) (c : List ℕ) (b : List (List ℕ))
        → length (a ++ c ∷ b) ≡ suc (length a)
        → put (a ++ c ∷ b) (length a) slot ≡ put_last (a ++ c ∷ b) slot
    at_end a c [] e = put_self a c [] slot ∙ sym (put_last-append a c slot)
    at_end a c (d ∷ b) e = absurd (omega (arith, length-append a (c ∷ (d ∷ b))))

pub fresh-put_last :
    (n cur slot : ℕ) (wheel : List (List ℕ))
    → IsValid (wheel_at n cur wheel)
    → turns (fresh (wheel_at n cur wheel) slot) ≡ put_last (turns (wheel_at n cur wheel)) slot
unfolding fresh
fresh-put_last n zero slot wheel v =
    let index : (0 + n - 1) % n ≡ n - 1 = mod-eq_of_lt (omega (arith, v.inside)) ∙ omega arith in
    rw index (
      append-nil (put wheel (n - 1) slot)
      ∙ fresh-first n slot wheel v.size v.inside
      ∙ ap (λ q. put_last q slot) (sym (append-nil wheel)))
fresh-put_last n (suc k) slot wheel v =
    let index : (suc k + n - 1) % n ≡ k =
      ap (λ j. j % n) (omega arith) ∙ add-mod_right k n ∙ mod-eq_of_lt (omega (arith, v.inside)) in
    rw index (
      split_induction
        (λ i l.
          turns (wheel_at n (suc i) (put l i slot)) ≡ put_last (turns (wheel_at n (suc i) l)) slot)
        (λ a c b. put-split n slot a c b) k wheel (omega (arith, v.size, v.inside)))

-- The slot is in bucket `k` of the queue, and in no later one.
abbrev Youngest : ℕ → ℕ → List (List ℕ) → Type 0
Youngest slot k [] = ⊥
Youngest slot zero (bucket ∷ rest) = (has_slot slot bucket ≡ true) × (is_held slot rest ≡ false)
Youngest slot (suc k) (bucket ∷ rest) = Youngest slot k rest

has_slot-append : (x : ℕ) (a b : List ℕ) → has_slot x (a ++ b) ≡ (has_slot x a || has_slot x b)
unfolding has_slot
has_slot-append x [] b = refl
has_slot-append x (y ∷ a) b = ground (arith, has_slot-append x a b)

is_held-put_last :
    (x y : ℕ) (queue : List (List ℕ)) → y ≢ x → is_held x (put_last queue y) ≡ is_held x queue
unfolding is_held put_last has_slot
is_held-put_last x y [] ne = refl
is_held-put_last x y (b ∷ []) ne = ground (arith, has_slot-append x b (y ∷ []))
is_held-put_last x y (b ∷ (c ∷ q)) ne =
    ap (λ t. has_slot x b || t) (is_held-put_last x y (c ∷ q) ne)

Youngest-put_last :
    (x y k : ℕ) (queue : List (List ℕ))
    → y ≢ x
    → Youngest x k queue
    → Youngest x k (put_last queue y)
unfolding put_last
Youngest-put_last x y k [] ne v = v
Youngest-put_last x y zero (b ∷ []) ne v =
    (has_slot-append x b (y ∷ []) ∙ ap (λ t. t || has_slot x (y ∷ [])) v.0, v.1)
Youngest-put_last x y (suc k) (b ∷ []) ne v = v
Youngest-put_last x y zero (b ∷ (c ∷ q)) ne v = (v.0, is_held-put_last x y (c ∷ q) ne ∙ v.1)
Youngest-put_last x y (suc k) (b ∷ (c ∷ q)) ne v = Youngest-put_last x y k (c ∷ q) ne v

Youngest-put :
    (x k : ℕ) (queue : List (List ℕ)) → length queue ≡ suc k → Youngest x k (put_last queue x)
unfolding put_last has_slot is_held
Youngest-put x k [] e = absurd (omega arith)
Youngest-put x zero (b ∷ []) e = (ground (arith, has_slot-append x b (x ∷ [])), refl)
Youngest-put x (suc k) (b ∷ []) e = absurd (omega arith)
Youngest-put x zero (b ∷ (c ∷ q)) e = absurd (omega arith)
Youngest-put x (suc k) (b ∷ (c ∷ q)) e = Youngest-put x k (c ∷ q) (omega arith)

Youngest-append :
    (x k : ℕ) (queue : List (List ℕ)) → Youngest x k queue → Youngest x k (queue ++ [] ∷ [])
unfolding is_held has_slot
Youngest-append x k [] v = absurd v
Youngest-append x zero (b ∷ q) v = (v.0, is_held-append x q ([] ∷ []) ∙ ap (λ t. t || false) v.1)
Youngest-append x (suc k) (b ∷ q) v = Youngest-append x k q v

Youngest-is_held : (x k : ℕ) (queue : List (List ℕ)) → Youngest x k queue → is_held x queue ≡ true
unfolding is_held
Youngest-is_held x k [] v = absurd v
Youngest-is_held x zero (b ∷ q) v = ap (λ t. t || is_held x q) v.0
Youngest-is_held x (suc k) (b ∷ q) v = ground (arith, Youngest-is_held x k q v)

clear_held :
    (locks : ℕ → Bool) (x : ℕ) (bucket : List ℕ) (others : List (List ℕ))
    → is_held x others ≡ true
    → has_slot x (clear locks bucket others) ≡ false
unfolding clear has_slot
clear_held locks x [] others h = refl
clear_held locks x (y ∷ bucket) others h = elim (Bool-cases (y == x)) [
  | inl same ↦
      let e : y ≡ x = (==_iff y x).0 same in
      let test : (has_slot y bucket || is_held y others) ≡ true =
        ground (arith, ap (λ z. is_held z others) e ∙ h) in
      rw test (clear_held locks x bucket others h)
  | inr other ↦ ground (arith, other, clear_held locks x bucket others h)
]

clear_absent :
    (locks : ℕ → Bool) (x : ℕ) (bucket : List ℕ) (others : List (List ℕ))
    → has_slot x bucket ≡ false
    → has_slot x (clear locks bucket others) ≡ false
unfolding clear has_slot
clear_absent locks x [] others h = refl
clear_absent locks x (y ∷ bucket) others h =
    let other : (y == x) ≡ false = ground arith in
    let absent : has_slot x bucket ≡ false = ground arith in
    ground (arith, other, clear_absent locks x bucket others absent)

clear_last :
    (locks : ℕ → Bool) (x : ℕ) (bucket : List ℕ) (others : List (List ℕ))
    → has_slot x bucket ≡ true
    → is_held x others ≡ false
    → has_slot x (clear locks bucket others) ≡ locks x
unfolding clear has_slot
clear_last locks x [] others h alone = cc
clear_last locks x (y ∷ bucket) others h alone = elim (Bool-cases (has_slot x bucket)) [
  | inl again ↦ ground (arith, clear_last locks x bucket others again alone)
  | inr only ↦
      let same : (y == x) ≡ true = ground arith in
      let e : y ≡ x = (==_iff y x).0 same in
      let gone : (has_slot y bucket || is_held y others) ≡ false =
        ground
          (arith, ap (λ z. has_slot z bucket) e ∙ only, ap (λ z. is_held z others) e ∙ alone) in
      rw gone (elim (Bool-cases (locks y)) [
        | inl there ↦ rw (there, same) (sym there ∙ ap locks e)
        | inr away ↦
            rw away (clear_absent locks x bucket others only ∙ sym (sym (ap locks e) ∙ away))
      ])
]

pub data Call : Type 0 where
  refresh : ℕ → Call
  tick : (ℕ → Bool) → Call

abbrev pub call : TcpTimeWheel → Call → TcpTimeWheel × List ℕ
call w (refresh slot) = (fresh w slot, [])
call w (tick locks) = loop_func locks w

-- A sequence of calls, with the slots whose callback has run, in order.
unfoldable pub run : TcpTimeWheel → List Call → TcpTimeWheel × List ℕ
run w [] = (w, [])
run w (c ∷ calls) =
    let (w', expired) = call w c in let (w'', later) = run w' calls in (w'', expired ++ later)

abbrev pub ticks : List Call → ℕ
ticks [] = 0
ticks (refresh slot ∷ calls) = ticks calls
ticks (tick locks ∷ calls) = suc (ticks calls)

-- The slot is not refreshed.
abbrev pub IsIdle : ℕ → List Call → Type 0
IsIdle slot [] = Unit
IsIdle slot (refresh other ∷ calls) = (other ≢ slot) × IsIdle slot calls
IsIdle slot (tick locks ∷ calls) = IsIdle slot calls

module _ (x : ℕ) where
  -- One call, for a slot that is in bucket `k` of the queue.
  call-Youngest :
      (w : TcpTimeWheel) (c : Call) (calls : List Call) (k : ℕ)
      → IsValid w
      → IsIdle x (c ∷ calls)
      → ticks (c ∷ calls) ≤ k
      → Youngest x k (turns w)
      → IsValid (call w c).0
        × (has_slot x (call w c).1 ≡ false)
        × ((j : ℕ) × Youngest x j (turns (call w c).0) × (j + ticks (c ∷ calls) ≡ k + ticks calls))
        × IsIdle x calls
  unfolding has_slot
  call-Youngest w (refresh y) calls k v idle enough young = (
    fresh-IsValid w y v,
    refl,
    (
      k,
      subst (Youngest x k) (sym (fresh-put_last w.bucket_count w.cur_bucket y w.wheel v))
          (Youngest-put_last x y k (turns w) idle.0 young),
      refl,
    ),
    idle.1,
  )
  call-Youngest w (tick locks) calls zero v idle enough young = absurd (omega arith)
  call-Youngest w (tick locks) calls (suc k) v idle enough young =
      let e = loop_func-turn locks w v in
      let (out, next) = after (turns w) young in
      (
        loop_func-IsValid locks w v,
        ap (λ p. has_slot x p.1) e ∙ out,
        (k, subst (Youngest x k) (sym (ap (λ p. p.0) e)) next, omega arith),
        idle,
      )
    where
      after :
          (queue : List (List ℕ))
          → Youngest x (suc k) queue
          → (has_slot x (turn locks queue).1 ≡ false) × Youngest x k (turn locks queue).0
      after [] h = absurd h
      after (b ∷ q) h = (clear_held locks x b q (Youngest-is_held x k q h), Youngest-append x k q h)

  run-Youngest :
      (calls : List Call) (w : TcpTimeWheel) (k : ℕ)
      → IsValid w
      → IsIdle x calls
      → ticks calls ≤ k
      → Youngest x k (turns w)
      → IsValid (run w calls).0
        × (has_slot x (run w calls).1 ≡ false)
        × ((j : ℕ) × Youngest x j (turns (run w calls).0) × (j + ticks calls ≡ k))
  unfolding run has_slot
  run-Youngest [] w k v idle enough young = (v, refl, (k, young, omega arith))
  run-Youngest (c ∷ calls) w k v idle enough young =
      let (v', out, (j, young', e), idle') = call-Youngest w c calls k v idle enough young in
      let (v'', out', (i, young'', e')) =
        run-Youngest calls (call w c).0 j v' idle' (omega arith) young' in
      (
        v'',
        has_slot-append x (call w c).1 (run (call w c).0 calls).1 ∙ ap₂ (λ a b. a || b) out out',
        (i, young'', omega arith),
      )

turn_last :
    (locks : ℕ → Bool) (x : ℕ) (queue : List (List ℕ))
    → Youngest x 0 queue
    → has_slot x (turn locks queue).1 ≡ locks x
turn_last locks x [] young = absurd young
turn_last locks x (b ∷ q) young = clear_last locks x b q young.0 young.1

length-turns : (w : TcpTimeWheel) → IsValid w → length (turns w) ≡ suc (w.bucket_count - 1)
length-turns w v = omega (
  arith,
  v.size,
  v.inside,
  length-append (drop w.cur_bucket w.wheel) (take w.cur_bucket w.wheel),
  length-drop w.cur_bucket w.wheel,
  length-take w.cur_bucket w.wheel,
)

-- A slot that is refreshed in a wheel of `n` buckets and not refreshed again is kept for `n - 1`
-- calls of `loopFunc`, whatever else is refreshed meanwhile: its callback does not run. The `n`-th
-- call of `loopFunc` runs it exactly if the slot's weak pointer can be locked then, that is if the
-- connection still is there.
pub fresh_lifetime :
    (w : TcpTimeWheel) (x : ℕ) (calls : List Call) (locks : ℕ → Bool)
    → IsValid w
    → IsIdle x calls
    → suc (ticks calls) ≡ w.bucket_count
    → (has_slot x (run (fresh w x) calls).1 ≡ false)
      × (has_slot x (loop_func locks (run (fresh w x) calls).0).1 ≡ locks x)
fresh_lifetime w x calls locks v idle turn_count =
    let k = ticks calls in
    let young : Youngest x k (turns (fresh w x)) =
      subst (Youngest x k) (sym (fresh-put_last w.bucket_count w.cur_bucket x w.wheel v))
        (Youngest-put x k (turns w) (length-turns w v ∙ omega arith)) in
    let (v', out, (j, young', e)) =
      run-Youngest x calls (fresh w x) k (fresh-IsValid w x v) idle (omega arith) young in
    let w' = (run (fresh w x) calls).0 in
    let none_left : j ≡ 0 = omega arith in
    (
      out,
      ap (λ p. has_slot x p.1) (loop_func-turn locks w' v')
          ∙ turn_last locks x (turns w') (subst (λ i. Youngest x i (turns w')) none_left young'),
    )
