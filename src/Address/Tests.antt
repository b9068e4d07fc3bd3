-- ===== src/Address/Tests.antt =====
-- Addresses on concrete texts.
use corpc.Base.{ℕ, ◌≡◌, refl, List, some, codes, arith, replicate, none, true, false}
use corpc.Address.{
  IpAddress, check_valid_ip_addr, from_text, to_string, ip_port, any_port, from_sockaddr, unix_path,
}
use corpc.Text.{find_first_of, is_one_of, substr, c_str}
use corpc.Http.{atoi, signed, skip_spaces, number_from, digits}
use corpc.Address.Texts.{from_text-address, from_text-to_string}

-- What inet_addr reads 127.0.0.1 as.
abbrev loopback : List ℕ → ℕ
loopback text = 16777343

abbrev home : List ℕ
home = codes "127.0.0.1"

abbrev unset : IpAddress
unset = any_port loopback 1

from_text-address_example :
    (check_valid_ip_addr loopback (codes "127.0.0.1:65536") ≡ some true)
    × (from_text loopback unset (codes "127.0.0.1:65536") ≡ some (ip_port loopback home 0))
unfolding digits
from_text-address_example =
    from_text-address loopback unset home 65536 (omega arith) (omega arith) (omega arith)
      (omega arith)

from_text-to_string_example :
    from_text loopback unset (to_string (ip_port loopback home 8080))
    ≡ some (ip_port loopback home 8080)
unfolding digits to_string ip_port
from_text-to_string_example =
    from_text-to_string loopback unset home 8080 (omega arith) (omega arith) (omega arith)
      (omega arith)

no_colon : check_valid_ip_addr loopback home ≡ some false
unfolding check_valid_ip_addr find_first_of is_one_of
no_colon = refl

negative_port : check_valid_ip_addr loopback (codes "127.0.0.1:-1") ≡ some false
unfolding check_valid_ip_addr find_first_of is_one_of substr atoi signed skip_spaces c_str
    number_from
negative_port = refl

from_accept :
    (from_sockaddr (λ a. home) (record { s_addr = 16777343; sin_port = 36895 })).port ≡ 8080
unfolding from_sockaddr
from_accept = refl

path_too_long : unix_path (replicate 108 97) ≡ none
unfolding unix_path c_str
path_too_long = refl
