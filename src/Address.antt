-- ===== src/Address.antt =====
-- corpc/net/net_address.{h,cc}: addresses and their texts. `inet_addr` and `inet_ntoa` of the system are
-- arguments; the addresses that they give are in network byte order, as numbers.
pub mod Texts
mod Tests
use corpc.Base.{
  ℕ, suc, ◌+◌, ◌-◌, ◌*◌, ◌/◌, ◌%◌, ◌^◌, Bool, true, false, not, Option, none, some, List, [], ◌++◌,
  length, codes, ltb, ◌==◌, if◌then◌else◌, ◌>>=◌,
}
use corpc.Base.Int.{ℤ, pos, negsuc}
use corpc.Text.{substr, sub_size, find_first_of, c_str}
use corpc.Http.{atoi, to_text}

-- `sockaddr_in`
pub record SockAddrIn : Type 0 where
  pub s_addr : ℕ
  pub sin_port : ℕ

pub record IpAddress : Type 0 where
  pub ip : List ℕ
  pub port : ℕ
  pub addr : SockAddrIn

-- htons and ntohs on a machine whose bytes are in the other order.
abbrev pub htons : ℕ → ℕ
htons p = p % 256 * 256 + p / 256

-- INADDR_NONE
abbrev pub inaddr_none : ℕ
inaddr_none = 4294967295

-- An int as a uint16_t.
abbrev pub to_port : ℤ → ℕ
to_port (pos n) = n % 2 ^ 16
to_port (negsuc n) = (2 ^ 16 - suc n % 2 ^ 16) % 2 ^ 16

abbrev pub is_port : ℤ → Bool
is_port (pos n) = not (ltb 65536 n)
is_port (negsuc n) = false

abbrev pub port_text : List ℕ → ℕ → Option (List ℕ)
port_text addr i = substr addr (i + 1) (sub_size (sub_size (length addr) i) 1)

module _ (inet_addr : List ℕ → ℕ) where
  -- The constructor from an IP address and a port.
  unfoldable pub ip_port : List ℕ → ℕ → IpAddress
  ip_port ip port = record {
    ip = ip;
    port = port;
    addr = record { s_addr = inet_addr (c_str ip); sin_port = htons port };
  }

  -- The constructor from a port alone.
  unfoldable pub any_port : ℕ → IpAddress
  any_port port = record {
    ip = [];
    port = port;
    addr = record { s_addr = 0; sin_port = htons port };
  }

  abbrev pub check_at : List ℕ → Option ℕ → Option Bool
  check_at addr none = some false
  check_at addr (some i) = port_text addr i >>= λ digits. atoi (c_str digits) >>= λ port.
      (let checked = substr addr 0 i >>= λ ip. some (not (inet_addr (c_str ip) == inaddr_none)) in
        if is_port port then checked else some false)

  unfoldable pub check_valid_ip_addr : List ℕ → Option Bool
  check_valid_ip_addr addr = check_at addr (find_first_of addr (codes ":"))

  abbrev pub read_at_colon : List ℕ → IpAddress → Option ℕ → Option IpAddress
  read_at_colon addr unset none = some (record unset { ip = [] })
  read_at_colon addr unset (some i) = substr addr 0 i >>= λ ip. port_text addr i >>= λ digits.
      atoi (c_str digits) >>= λ port. some (ip_port ip (to_port port))

  -- The constructor from a text; without a colon the other members stay as the memory has them.
  unfoldable pub from_text : IpAddress → List ℕ → Option IpAddress
  from_text unset addr = read_at_colon addr unset (find_first_of addr (codes ":"))

-- The constructor from what `accept` gives.
unfoldable pub from_sockaddr : (ℕ → List ℕ) → SockAddrIn → IpAddress
from_sockaddr inet_ntoa addr = record {
  ip = inet_ntoa addr.s_addr;
  port = htons addr.sin_port;
  addr = addr;
}

unfoldable pub to_string : IpAddress → List ℕ
to_string a = a.ip ++ (codes ":" ++ to_text a.port)

pub record UnixDomainAddress : Type 0 where
  pub path : List ℕ

-- `strcpy` into `sun_path`, which has 108 bytes; `none` is a write behind it.
unfoldable pub unix_path : List ℕ → Option UnixDomainAddress
unix_path path = if ltb (length (c_str path)) 108 then some (record { path = path }) else none
