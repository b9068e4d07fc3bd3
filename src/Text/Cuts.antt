-- ===== src/Text/Cuts.antt =====
-- What substr cuts out of a text whose parts are known.
use corpc.Base.{
  ℕ, ◌≤◌, ◌≡◌, ap, ◌∙◌, true, some, List, ◌++◌, arith, length, length-append, take, drop, take_all,
  drop-append_self, take-append_self, leb,
}
use corpc.Text.{substr}

-- `substr` of what stands behind a text, up to its end or longer.
pub substr_behind :
    (x t : List ℕ) (k n : ℕ) → k ≡ length x → length t ≤ n → substr (x ++ t) k n ≡ some t
unfolding substr
substr_behind x t k n e h =
    let size = length-append x t in
    let test : leb k (length (x ++ t)) ≡ true = ground arith in
    rw test (
      ap some (
        ap (λ k. take n (drop k (x ++ t))) e ∙ ap (take n) (drop-append_self x t) ∙ take_all t n h))

-- `substr` of a part in the middle.
pub substr_inside :
    (x y t : List ℕ) (k n : ℕ) → k ≡ length x → n ≡ length y → substr (x ++ (y ++ t)) k n ≡ some y
unfolding substr
substr_inside x y t k n e h =
    let size = length-append x (y ++ t) in
    let test : leb k (length (x ++ (y ++ t))) ≡ true = ground arith in
    rw test (
      ap some (
        ap (λ k. take n (drop k (x ++ (y ++ t)))) e
        ∙ ap (take n) (drop-append_self x (y ++ t))
        ∙ ap (λ n. take n (y ++ t)) h
        ∙ take-append_self y t))
