-- ===== src/MsgReq.antt =====
-- corpc/net/comm/msg_req.cc: the numbers that tell the requests of a thread apart, as texts of 20
-- decimal digits. The bytes read from /dev/urandom are an argument.
pub mod Digits
pub mod Count
mod Tests
use corpc.Base.{
  same_text, ℕ, zero, suc, ◌+◌, ◌-◌, ◌%◌, Bool, true, false, Option, none, some, List, [], ◌∷◌, map,
  length, get_elem?, set, replicate, ◌^◌, ◌==◌, ◌&&◌, ◌||◌, if◌then◌else◌,
}

-- The two texts that a thread keeps, `t_msg_req_nu` and `t_max_msg_req_nu`. A character is its code.
pub record MsgReq : Type 0 where
  pub msg_req_nu : List ℕ
  pub max_msg_req_nu : List ℕ

abbrev pub create : MsgReq
create = record { msg_req_nu = []; max_msg_req_nu = [] }

abbrev pub msg_req_len : ℕ
msg_req_len = 20

abbrev pub random_digit : ℕ → ℕ
random_digit byte = byte % 10 + 48

-- The first branch of `genMsgNumber`; `none` stands for a read that gives less than 20 bytes.
unfoldable pub restart : MsgReq → Option (List ℕ) → List ℕ × MsgReq
restart s none = ([], s)
restart s (some bytes) =
    let res = map random_digit bytes in
    (res, record { msg_req_nu = res; max_msg_req_nu = replicate msg_req_len 57 })

-- The loop that looks for the last character that is not a nine, from index `i` down for `suc i`. At
-- index -1 the code reads before the text: `none`. `skip_at` is one round, on the character read.
abbrev pub skip_at : Option ℕ → ℕ → Option ℕ → Option ℕ
skip_at none i rest = none
skip_at (some c) i rest = if c == 57 then rest else some i

unfoldable pub skip_nines : List ℕ → ℕ → Option ℕ
skip_nines t zero = none
skip_nines t (suc i) = skip_at (get_elem? t i) i (skip_nines t i)

-- `t_msg_req_nu[i] += 1`
unfoldable pub add_one_at : List ℕ → ℕ → List ℕ
add_one_at [] i = []
add_one_at (c ∷ t) zero = (c + 1) % 2 ^ 8 ∷ t
add_one_at (c ∷ t) (suc i) = c ∷ add_one_at t i

-- The loop that puts zeros at `count` indices from `j` on.
unfoldable pub zero_from : List ℕ → ℕ → ℕ → List ℕ
zero_from t j zero = t
zero_from t j (suc count) = zero_from (set t j 48) (j + 1) count

abbrev pub step_at : List ℕ → Option ℕ → Option (List ℕ)
step_at t none = none
step_at t (some i) = some (zero_from (add_one_at t i) (i + 1) (length t - (i + 1)))

-- The text returned and the new state, `none` when the code reads outside the text.
abbrev pub keep : MsgReq → Option (List ℕ) → Option (List ℕ × MsgReq)
keep s none = none
keep s (some t) = some (t, record s { msg_req_nu = t })

unfoldable pub gen_msg_number : MsgReq → Option (List ℕ) → Option (List ℕ × MsgReq)
gen_msg_number s random =
    if (length s.msg_req_nu == 0) || same_text s.msg_req_nu s.max_msg_req_nu
    then some (restart s random)
    else keep s (step_at s.msg_req_nu (skip_nines s.msg_req_nu (length s.msg_req_nu)))
