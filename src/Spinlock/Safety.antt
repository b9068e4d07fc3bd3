-- ===== src/Spinlock/Safety.antt =====
-- The lock excludes, and a free lock is taken by whoever tries it first.
use corpc.Base.{
  ℕ, ◌≡◌, ◌≢◌, refl, sym, ap, ◌∙◌, inl, inr, ◌⊎◌, true, false, ◌==◌, ==_iff, Bool-cases,
}
use corpc.Spinlock.{
  compare_exchange, try_lock, ThreadAt, outside, spinning, inside, Threads, move, Step, calls,
  tries, leaves, Reach, begin, later,
}

abbrev pub Nobody : (ℕ → ThreadAt) → Type 0
Nobody at = (t : ℕ) → at t ≢ inside

abbrev pub Only : (ℕ → ThreadAt) → ℕ → Type 0
Only at h = (at h ≡ inside) × ((t : ℕ) → at t ≡ inside → t ≡ h)

-- The word is 1 and nobody is inside, or it is 0 and one thread is.
abbrev pub Inv : Threads → Type 0
Inv u = ((u.sem ≡ 1) × Nobody u.at) ⊎ ((u.sem ≡ 0) × (h : ℕ) × Only u.at h)

spinning_out : spinning ≢ inside
spinning_out = λ e. cc

outside_out : outside ≢ inside
outside_out = λ e. cc

no_both : true ≢ false
no_both = λ e. cc

move-cases :
    (at : ℕ → ThreadAt) (t : ℕ) (place : ThreadAt) (x : ℕ)
    → ((x ≡ t) × (move at t place x ≡ place)) ⊎ ((x ≢ t) × (move at t place x ≡ at x))
move-cases at t place x = elim (Bool-cases (x == t)) [
  | inl same ↦ inl ((==_iff x t).0 same, rw same refl)
  | inr other ↦ inr ((λ e. no_both (sym ((==_iff x t).1 e) ∙ other)), rw other refl)
]

-- Who is inside when a thread moves.
module _ (at : ℕ → ThreadAt) (t : ℕ) where
  Nobody-move : (place : ThreadAt) → place ≢ inside → Nobody at → Nobody (move at t place)
  Nobody-move place out none_in x here = elim (move-cases at t place x) [
    | inl (_, there) ↦ out (sym there ∙ here)
    | inr (_, same) ↦ none_in x (sym same ∙ here)
  ]

  Only-enter : Nobody at → Only (move at t inside) t
  Only-enter none_in = (
    let here : (t == t) ≡ true = (==_iff t t).1 refl in rw here refl,
    λ x e. elim (move-cases at t inside x) [
      | inl (same, _) ↦ same
      | inr (_, same) ↦ absurd (none_in x (sym same ∙ e))
    ],
  )

  Only-move :
      (place : ThreadAt) (h : ℕ)
      → place ≢ inside
      → at t ≢ inside
      → Only at h
      → Only (move at t place) h
  Only-move place h out elsewhere (held, one) = (
    elim (move-cases at t place h) [
      | inl (same, _) ↦ absurd (elsewhere (ap at (sym same) ∙ held))
      | inr (_, same) ↦ same ∙ held
    ],
    λ x e. elim (move-cases at t place x) [
      | inl (_, there) ↦ absurd (out (sym there ∙ e))
      | inr (_, same) ↦ one x (sym same ∙ e)
    ],
  )

  Nobody-leave : (h : ℕ) → at t ≡ inside → Only at h → Nobody (move at t outside)
  Nobody-leave h mine (held, one) x here = elim (move-cases at t outside x) [
    | inl (_, there) ↦ outside_out (sym there ∙ here)
    | inr (other, same) ↦ other (one x (sym same ∙ here) ∙ sym (one t mine))
  ]

try_lock-free : (sem : ℕ) → sem ≡ 1 → try_lock sem ≡ (true, 0)
unfolding try_lock compare_exchange
try_lock-free sem e = rw e refl

try_lock-taken : (sem : ℕ) → sem ≡ 0 → try_lock sem ≡ (false, 0)
unfolding try_lock compare_exchange
try_lock-taken sem e = rw e refl

not_at : (here place : ThreadAt) → here ≡ place → place ≢ inside → here ≢ inside
not_at here place e out mine = out (sym e ∙ mine)

Step-Inv : {u v : Threads} → Step u v → Inv u → Inv v
Step-Inv {u} (calls t e) (inl (sem, none_in)) =
    inl (sem, Nobody-move u.at t spinning spinning_out none_in)
Step-Inv {u} (calls t e) (inr (sem, h, only)) =
    inr (
      sem,
      h,
      Only-move u.at t spinning h spinning_out (not_at (u.at t) outside e outside_out) only,
    )
Step-Inv {u} (tries t e) (inl (sem, none_in)) =
    rw (try_lock-free u.sem sem) (inr (refl, t, Only-enter u.at t none_in))
Step-Inv {u} (tries t e) (inr (sem, h, only)) = rw (try_lock-taken u.sem sem) (
    inr (
      refl,
      h,
      Only-move u.at t spinning h spinning_out (not_at (u.at t) spinning e spinning_out) only,
    ))
Step-Inv {u} (leaves t e) (inl (sem, none_in)) = absurd (none_in t e)
Step-Inv {u} (leaves t e) (inr (sem, h, only)) = inl (refl, Nobody-leave u.at t h e only)

Reach-Inv : {u : Threads} → Reach u → Inv u
Reach-Inv begin = inl (refl, λ t. outside_out)
Reach-Inv (later r step) = Step-Inv step (Reach-Inv r)

-- Whatever the threads do, and in whatever order their atomic operations come: of two threads inside
-- the guards of one lock, both are the same. A thread that tries the lock gets in exactly if nobody is
-- inside, so whoever tries a lock that is free does get it.
pub try_lock-Excludes :
    (u : Threads)
    → Reach u
    → ((s t : ℕ) → u.at s ≡ inside → u.at t ≡ inside → s ≡ t)
      × (((try_lock u.sem).0 ≡ true → Nobody u.at) × (Nobody u.at → (try_lock u.sem).0 ≡ true))
try_lock-Excludes u reach = elim (Reach-Inv reach) [
  | inl (sem, none_in) ↦ (
    λ s t a b. absurd (none_in s a),
    (λ e. none_in, λ free. ap (λ p. p.0) (try_lock-free u.sem sem)),
  )
  | inr (sem, h, (held, one)) ↦ (
    λ s t a b. one s a ∙ sym (one t b),
    (
      λ e. absurd (no_both (sym e ∙ ap (λ p. p.0) (try_lock-taken u.sem sem))),
      λ free. absurd (free h held),
    ),
  )
]
