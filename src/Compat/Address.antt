-- ===== src/Compat/Address.antt =====
-- `struct sockaddr_in` as the wrappers of src/sock_wrap.c read and write it.
use esp_smoltcp.Common.{ℕ, Bool, false, Option, none, some, ◌+◌, ◌*◌, ◌/◌, ◌%◌, leb}

-- `is_inet` is `sa_family == AF_INET`; port and address are in network byte order.
pub record SockAddr : Type 0 where
  pub is_inet : Bool
  pub port_be : ℕ
  pub addr_be : ℕ

-- `ntohs` and `htons` on the little-endian target.
abbrev pub swap16 : ℕ → ℕ
swap16 x = x % 256 * 256 + x / 256

abbrev pub sizeof_sockaddr_in : ℕ
sizeof_sockaddr_in = 16

-- `addr && alen && *alen >= sizeof(struct sockaddr_in)`: `none` is a NULL in either.
abbrev pub has_room : Option ℕ → Bool
has_room none = false
has_room (some n) = leb sizeof_sockaddr_in n
