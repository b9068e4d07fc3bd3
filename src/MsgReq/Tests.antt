-- ===== src/MsgReq/Tests.antt =====
-- Request numbers of a thread.
use corpc.Base.{arith, get_or, ℕ, ◌+◌, ◌≡◌, ◌≢◌, inl, refl, ap, none, some, List, [], ◌∷◌, length}
use corpc.MsgReq.{MsgReq, create, msg_req_len, gen_msg_number}
use corpc.MsgReq.Digits.{nines, number_from}
use corpc.MsgReq.Count.{IsValid, number, gen_msg_number-next, gen_msg_number-restart}

-- Seventeen zeros, then 4, 9 and 9.
abbrev drawn : MsgReq
drawn = record {
  msg_req_nu =
      48 ∷ 48 ∷ 48 ∷ 48 ∷ 48 ∷ 48 ∷ 48 ∷ 48 ∷ 48 ∷ 48 ∷ 48 ∷ 48 ∷ 48 ∷ 48 ∷ 48 ∷ 48 ∷ 48 ∷ 52 ∷ 57
      ∷ 57 ∷ [];
  max_msg_req_nu = nines msg_req_len;
}

drawn-IsValid : IsValid drawn
drawn-IsValid = record { digits = omega arith; size = refl; bound = refl }

drawn_number : number drawn.msg_req_nu ≡ 499
unfolding number_from
drawn_number = refl

drawn_other : drawn.msg_req_nu ≢ drawn.max_msg_req_nu
drawn_other e = absurd (omega (arith, ap (λ t. get_or t 0 0) e))

gen_msg_number-next_example :
    (t : List ℕ) × (gen_msg_number drawn none ≡ some (t, record drawn { msg_req_nu = t }))
    × (number t ≡ number drawn.msg_req_nu + 1)
    × IsValid (record drawn { msg_req_nu = t })
gen_msg_number-next_example = gen_msg_number-next drawn none drawn-IsValid drawn_other

gen_msg_number-restart_example :
    (gen_msg_number create none ≡ some ([], create))
    × ((bytes : List ℕ)
        → length bytes ≡ msg_req_len
        → (t : List ℕ) × (s' : MsgReq) × (gen_msg_number create (some bytes) ≡ some (t, s'))
          × IsValid s'
          × (s'.msg_req_nu ≡ t))
gen_msg_number-restart_example = gen_msg_number-restart create (inl refl)
