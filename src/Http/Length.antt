-- ===== src/Http/Length.antt =====
-- The Content-Length that a servlet states, and what `atoi` reads from it.
use corpc.Base.{
  ℕ, zero, suc, ◌+◌, ◌-◌, ◌*◌, ◌/◌, ◌%◌, ◌^◌, ◌≤◌, ◌<◌, ◌≡◌, refl, sym, ap, ◌∙◌, inl, inr, true,
  false, some, List, [], ◌∷◌, ◌++◌, append_assoc, append-nil, arith, length, codes, ◌==◌, leb, ltb,
  ◌&&◌, ◌||◌, if◌then◌else◌, Bool-cases, same_text, same_text_self, same_text_sound,
}
use corpc.Base.Int.{pos}
use corpc.Http.{
  HttpResponse, HttpHeader, is_before, assign_field, find_field, digits, to_text, is_digit,
  number_from, skip_spaces, signed, atoi, or_empty,
}
use corpc.Http.Servlet.{set_http_body}

-- Reading the digits of a number, whatever follows them.
number_from-digits :
    (fuel n : ℕ) (t : List ℕ) → n < fuel → number_from 0 (digits fuel n ++ t) ≡ number_from n t
unfolding digits number_from
number_from-digits zero n t h = elim h [ ]
number_from-digits (suc fuel) n t h = elim (Bool-cases (ltb n 10)) [
  | inl small ↦
      let digit : is_digit (48 + n) ≡ true = ground arith in
      let same : 10 * 0 + (48 + n - 48) ≡ n = omega arith in rw small (rw (digit, same) refl)
  | inr large ↦
      let digit : is_digit (48 + n % 10) ≡ true = ground arith in
      let same : 10 * (n / 10) + (48 + n % 10 - 48) ≡ n = omega arith in
      rw large (
        rw
          (
            append_assoc (digits fuel (n / 10)) ((48 + n % 10) ∷ []) t,
            number_from-digits fuel (n / 10) ((48 + n % 10) ∷ t) (ground arith),
          )
          (rw (digit, same) refl))
]

-- The text of a number begins with a digit.
digits_first :
    (fuel n : ℕ) → n < fuel → (c : ℕ) × (t : List ℕ) × (digits fuel n ≡ c ∷ t) × (48 ≤ c) × (c < 58)
unfolding digits
digits_first zero n h = elim h [ ]
digits_first (suc fuel) n h = elim (Bool-cases (ltb n 10)) [
  | inl small ↦ (48 + n, [], rw small refl, omega arith, ground arith)
  | inr large ↦
      let (c, t, e, low, high) = digits_first fuel (n / 10) (ground arith) in
      (c, t ++ ((48 + n % 10) ∷ []), rw large (rw e refl), low, high)
]

atoi-digit :
    (c : ℕ) (t : List ℕ) (n : ℕ)
    → 48 ≤ c
    → c < 58
    → number_from 0 (c ∷ t) ≡ n
    → n < 2 ^ 31
    → atoi (c ∷ t) ≡ some (pos n)
unfolding atoi skip_spaces signed
atoi-digit c t n low high e bound =
    let no_space : ((c == 32) || (leb 9 c && leb c 13)) ≡ false = ground arith in
    let no_minus : (c == 45) ≡ false = ground arith in
    let no_plus : (c == 43) ≡ false = ground arith in
    let fits : ltb n (2 ^ 31) ≡ true = ground arith in
    rw no_space (rw (no_minus, no_plus) (rw e (rw fits refl)))

-- A number below 2^31 is written and read back.
pub atoi-to_text : (n : ℕ) → n < 2 ^ 31 → atoi (to_text n) ≡ some (pos n)
unfolding number_from
atoi-to_text n h =
    let (c, t, e, low, high) = digits_first (suc n) n (omega arith) in
    let read : number_from 0 (digits (suc n) n ++ []) ≡ n =
      number_from-digits (suc n) n [] (omega arith) in
    let read' : number_from 0 (c ∷ t) ≡ n =
      ap (number_from 0) (sym e ∙ sym (append-nil (digits (suc n) n))) ∙ read in
    ap atoi e ∙ atoi-digit c t n low high read' h

module _ (key value : List ℕ) where
  find_field-assign_field :
      (maps : HttpHeader) → find_field (assign_field maps key value) key ≡ some value
  unfolding find_field assign_field
  find_field-assign_field [] = rw (same_text_self key) refl
  find_field-assign_field (f ∷ maps) = elim (Bool-cases (same_text f.key key)) [
    | inl same ↦ rw same (rw (same_text_self key) refl)
    | inr other ↦ elim (Bool-cases (is_before f.key key)) [
      | inl before ↦ rw (other, before) (rw other (find_field-assign_field maps))
      | inr behind ↦ rw (other, behind) (rw (same_text_self key) refl)
    ]
  ]

  find_field-assign_field_ne :
      (maps : HttpHeader) (k : List ℕ)
      → same_text key k ≡ false
      → find_field (assign_field maps key value) k ≡ find_field maps k
  unfolding find_field assign_field
  find_field-assign_field_ne [] k ne = rw ne refl
  find_field-assign_field_ne (f ∷ maps) k ne = elim (Bool-cases (same_text f.key key)) [
    | inl same ↦
        let e : f.key ≡ key = same_text_sound f.key key same in
        rw same (
          rw ne
            (let ne' : same_text f.key k ≡ false = ap (λ x. same_text x k) e ∙ ne in rw ne' refl))
    | inr other ↦ elim (Bool-cases (is_before f.key key)) [
      | inl before ↦
          rw (other, before)
            (ap (λ o. if same_text f.key k then some f.value else o)
              (find_field-assign_field_ne maps k ne))
      | inr behind ↦ rw (other, behind) (rw ne refl)
    ]
  ]

-- `setHttpBody` sets the body and states its length: from the Content-Length of the response `atoi`
-- reads the length of its body, if that is below 2^31, and every other header stays.
pub set_http_body-states :
    (res : HttpResponse) (body k : List ℕ)
    → length body < 2 ^ 31
    → ((set_http_body res body).response_body ≡ body)
      × (atoi (
            or_empty (find_field (set_http_body res body).response_header (codes "Content-Length")))
          ≡ some (pos (length body)))
      × (find_field (set_http_body res body).response_header k ≡ (
          if same_text (codes "Content-Length") k
          then some (to_text (length body))
          else find_field res.response_header k))
set_http_body-states res body k h = (
  refl,
  rw stated (atoi-to_text (length body) h),
  elim (Bool-cases (same_text (codes "Content-Length") k)) [
    | inl same ↦
        let e = same_text_sound (codes "Content-Length") k same in
        rw same (ap (find_field (set_http_body res body).response_header) (sym e) ∙ stated)
    | inr other ↦ rw other (
        find_field-assign_field_ne (codes "Content-Length") (to_text (length body))
          res.response_header k other)
  ],
)
  where
    stated :
        find_field (set_http_body res body).response_header (codes "Content-Length")
        ≡ some (to_text (length body))
    stated =
        find_field-assign_field (codes "Content-Length") (to_text (length body)) res.response_header
