-- ===== src/MsgReq/Count.antt =====
-- Successive request numbers.
use corpc.Base.{
  ℕ, ◌+◌, ◌%◌, ◌^◌, ◌<◌, ◌≡◌, ◌≢◌, refl, sym, ap, subst, ◌∙◌, ◌⊎◌, inl, inr, true, false, Option,
  none, some, List, [], ◌∷◌, ◌++◌, map, arith, length, length-append, length-map, length-replicate,
  ◌==◌, ◌||◌, Bool-cases, same_text, same_text_sound, same_text_self,
}
use corpc.MsgReq.{
  MsgReq, create, msg_req_len, random_digit, restart, skip_nines, step_at, keep, gen_msg_number,
}
use corpc.MsgReq.Digits.{
  IsDigits, number_from, nines, zeros, last_cases, step_at_last, number_from_step, IsDigits-append,
  append-IsDigits, zeros-IsDigits,
}

-- A thread that has drawn a number.
pub record IsValid (s : MsgReq) : Type 0 where
  pub digits : IsDigits s.msg_req_nu
  pub size : length s.msg_req_nu ≡ msg_req_len
  pub bound : s.max_msg_req_nu ≡ nines msg_req_len

-- The number that a text stands for.
abbrev pub number : List ℕ → ℕ
number t = number_from 0 t

-- A full text of digits that is not all nines steps to the next number.
Steps : List ℕ → Type 0
Steps t =
    (t' : List ℕ) × (step_at t (skip_nines t (length t)) ≡ some t')
    × (number t' ≡ number t + 1)
    × IsDigits t'
    × (length t' ≡ length t)

step_at-last :
    (pre : List ℕ) (d k : ℕ) → d ≢ 57 → IsDigits (pre ++ d ∷ nines k) → Steps (pre ++ d ∷ nines k)
unfolding Steps
step_at-last pre d k other v =
    let (before, (low, high, rest)) = IsDigits-append pre (d ∷ nines k) v in
    let small : d < 57 = omega arith in
    let size : length (pre ++ (d + 1) % 2 ^ 8 ∷ zeros k) ≡ length (pre ++ d ∷ nines k) = omega (
      arith,
      length-append pre ((d + 1) % 2 ^ 8 ∷ zeros k),
      length-append pre (d ∷ nines k),
      length-replicate {A = ℕ} k 57,
      length-replicate {A = ℕ} k 48,
    ) in
    (
      pre ++ (d + 1) % 2 ^ 8 ∷ zeros k,
      step_at_last pre d k other,
      number_from_step pre d k low small,
      append-IsDigits pre ((d + 1) % 2 ^ 8 ∷ zeros k) before
          (omega arith, omega arith, zeros-IsDigits k),
      size,
    )

text-Steps : (t : List ℕ) → IsDigits t → t ≢ nines (length t) → Steps t
text-Steps t v ne = elim (last_cases t) [
  | inl all ↦ absurd (ne all)
  | inr (pre, d, k, e, other) ↦
      subst Steps (sym e) (step_at-last pre d k other (subst IsDigits e v))
]

-- A thread that has drawn a number, and not the largest, draws the next one whatever the random
-- bytes are: its text is read in its bounds, the number is one more, and 20 digits stay 20 digits.
pub gen_msg_number-next :
    (s : MsgReq) (random : Option (List ℕ))
    → IsValid s
    → s.msg_req_nu ≢ s.max_msg_req_nu
    → (t : List ℕ) × (gen_msg_number s random ≡ some (t, record s { msg_req_nu = t }))
      × (number t ≡ number s.msg_req_nu + 1)
      × IsValid (record s { msg_req_nu = t })
unfolding gen_msg_number Steps
gen_msg_number-next s random v ne =
    let full : (length s.msg_req_nu == 0) ≡ false = ap (λ n. n == 0) v.size in
    let not_nines : s.msg_req_nu ≢ nines (length s.msg_req_nu) =
      λ e. ne (e ∙ ap nines v.size ∙ sym v.bound) in
    let (t, stepped, next, digits, size) = text-Steps s.msg_req_nu v.digits not_nines in
    elim (Bool-cases (same_text s.msg_req_nu s.max_msg_req_nu)) [
      | inl same ↦ absurd (ne (same_text_sound s.msg_req_nu s.max_msg_req_nu same))
      | inr other ↦ (
        t,
        rw full (rw other (ap (keep s) stepped)),
        next,
        record { digits = digits; size = size ∙ v.size; bound = v.bound },
      )
    ]

random-IsDigits : (bytes : List ℕ) → IsDigits (map random_digit bytes)
random-IsDigits [] = tt
random-IsDigits (b ∷ bytes) = (omega arith, omega arith, random-IsDigits bytes)

-- The states in which the first branch is taken.
abbrev pub Restarts : MsgReq → Type 0
Restarts s = (s ≡ create) ⊎ (IsValid s × (s.msg_req_nu ≡ s.max_msg_req_nu))

Restarts-same_text :
    (s : MsgReq)
    → Restarts s
    → ((length s.msg_req_nu == 0) || same_text s.msg_req_nu s.max_msg_req_nu) ≡ true
Restarts-same_text s (inl e) =
    subst (λ s. ((length s.msg_req_nu == 0) || same_text s.msg_req_nu s.max_msg_req_nu) ≡ true)
      (sym e) refl
Restarts-same_text s (inr (v, e)) =
    let full : (length s.msg_req_nu == 0) ≡ false = ap (λ n. n == 0) v.size in
    rw full (ap (λ t. same_text s.msg_req_nu t) (sym e) ∙ same_text_self s.msg_req_nu)

-- A new thread, and one that has drawn the largest number, draws 20 random digits; if the random
-- bytes cannot be read it returns the empty text and its state is as before.
pub gen_msg_number-restart :
    (s : MsgReq)
    → Restarts s
    → (gen_msg_number s none ≡ some ([], s))
      × ((bytes : List ℕ)
          → length bytes ≡ msg_req_len
          → (t : List ℕ) × (s' : MsgReq) × (gen_msg_number s (some bytes) ≡ some (t, s'))
            × IsValid s'
            × (s'.msg_req_nu ≡ t))
unfolding gen_msg_number restart
gen_msg_number-restart s h =
    let test = Restarts-same_text s h in
    (
      rw test refl,
      λ bytes size. (
        map random_digit bytes,
        record { msg_req_nu = map random_digit bytes; max_msg_req_nu = nines msg_req_len },
        rw test refl,
        record {
          digits = random-IsDigits bytes;
          size = length-map bytes random_digit ∙ size;
          bound = refl;
        },
        refl,
      ),
    )
