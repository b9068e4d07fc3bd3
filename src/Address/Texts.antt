-- ===== src/Address/Texts.antt =====
-- Texts of addresses, checked and read.
use corpc.Base.{
  ℕ, zero, suc, ◌+◌, ◌/◌, ◌%◌, ◌^◌, ◌≤◌, ◌<◌, ◌≡◌, refl, sym, ap, ◌∙◌, inl, inr, Bool, true, false,
  not, some, List, [], ◌∷◌, ◌++◌, append_assoc, arith, length, length-append, codes, ltb, leb, ◌==◌,
  ◌&&◌, if◌then◌else◌, Bool-cases,
}
use corpc.Base.Int.{pos}
use corpc.Text.{substr, sub_size, c_str}
use corpc.Text.Words.{substr_front}
use corpc.Text.Cuts.{substr_behind}
use corpc.Text.Pairs.{IsFree, find_first_of-append, append-IsFree, c_str_free}
use corpc.Http.{atoi, digits, to_text}
use corpc.Http.Length.{atoi-to_text}
use corpc.Address.{
  IpAddress, inaddr_none, is_port, port_text, ip_port, check_valid_ip_addr, from_text, to_string,
}

-- A number has no NUL among its digits.
digits-IsFree : (fuel n : ℕ) → IsFree 0 (digits fuel n)
unfolding digits
digits-IsFree zero n = tt
digits-IsFree (suc fuel) n = elim (Bool-cases (ltb n 10)) [
  | inl small ↦ rw small (λ e. absurd (omega arith), tt)
  | inr large ↦ rw large (
      append-IsFree 0 (digits fuel (n / 10)) ((48 + n % 10) ∷ []) (digits-IsFree fuel (n / 10))
        (λ e. absurd (omega arith), tt))
]

-- The text of an IP address and a number.
abbrev pub address_text : List ℕ → ℕ → List ℕ
address_text ip n = ip ++ (codes ":" ++ to_text n)

port_text-digits :
    (ip : List ℕ) (n : ℕ)
    → length (address_text ip n) < 2 ^ 64
    → port_text (address_text ip n) (length ip) ≡ some (to_text n)
port_text-digits ip n bound =
    let size = length-append ip (codes ":" ++ to_text n) in
    let k = sub_size (sub_size (length (address_text ip n)) (length ip)) 1 in
    let long : length (to_text n) ≤ k = omega arith in
    ap (λ t. substr t (length ip + 1) k) (sym (append_assoc ip (codes ":") (to_text n)))
    ∙ substr_behind (ip ++ codes ":") (to_text n) (length ip + 1) k
        (omega (arith, length-append ip (codes ":"))) long

read_port : (n : ℕ) → n < 2 ^ 31 → atoi (c_str (to_text n)) ≡ some (pos n)
read_port n h = ap atoi (c_str_free (to_text n) (digits-IsFree (suc n) n)) ∙ atoi-to_text n h

module _ (inet_addr : List ℕ → ℕ) where
  check_address :
      (ip : List ℕ) (n : ℕ)
      → IsFree 58 ip
      → IsFree 0 ip
      → n < 2 ^ 31
      → length (address_text ip n) < 2 ^ 64
      → check_valid_ip_addr inet_addr (address_text ip n)
        ≡ some (leb n 65536 && not (inet_addr ip == inaddr_none))
  unfolding check_valid_ip_addr
  check_address ip n free ends h bound =
      let test : is_port (pos n) ≡ leb n 65536 = ground arith in
      rw (find_first_of-append 58 ip (to_text n) free) (
        rw (port_text-digits ip n bound) (
          rw (read_port n h) (
            rw (test, substr_front ip (codes ":" ++ to_text n))
              (rw (c_str_free ip ends)
                (branches (leb n 65536) (not (inet_addr ip == inaddr_none)))))))
    where
      branches : (a b : Bool) → (if a then some b else some false) ≡ some (a && b)
      branches true b = refl
      branches false b = refl

  -- The text of an IP address and a port number is accepted exactly if the number is at most 65536 and
  -- the system reads the address; whether or not it is accepted, the constructor keeps the address and
  -- the number modulo 2^16, so that 65536 is accepted and becomes port 0. The address has no colon and
  -- no NUL, and the number is below 2^31.
  pub from_text-address :
      (unset : IpAddress) (ip : List ℕ) (n : ℕ)
      → IsFree 58 ip
      → IsFree 0 ip
      → n < 2 ^ 31
      → length (address_text ip n) < 2 ^ 64
      → (check_valid_ip_addr inet_addr (address_text ip n)
          ≡ some (leb n 65536 && not (inet_addr ip == inaddr_none)))
        × (from_text inet_addr unset (address_text ip n) ≡ some (ip_port inet_addr ip (n % 2 ^ 16)))
  unfolding from_text
  from_text-address unset ip n free ends h bound = (
    check_address ip n free ends h bound,
    rw (find_first_of-append 58 ip (to_text n) free) (
        rw (port_text-digits ip n bound, substr_front ip (codes ":" ++ to_text n))
          (rw (read_port n h) refl)),
  )

  -- An address that was made from an IP address and a port is read back whole from its own text. The
  -- port fits a uint16_t, and the address has no colon and no NUL.
  pub from_text-to_string :
      (unset : IpAddress) (ip : List ℕ) (port : ℕ)
      → IsFree 58 ip
      → IsFree 0 ip
      → port < 2 ^ 16
      → length (to_string (ip_port inet_addr ip port)) < 2 ^ 64
      → from_text inet_addr unset (to_string (ip_port inet_addr ip port))
        ≡ some (ip_port inet_addr ip port)
  unfolding to_string ip_port
  from_text-to_string unset ip port free ends h bound =
      let small : port % 2 ^ 16 ≡ port = omega arith in
      (from_text-address unset ip port free ends (omega arith) bound).1
      ∙ ap (λ p. some (ip_port inet_addr ip p)) small
