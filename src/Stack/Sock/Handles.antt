-- ===== src/Stack/Sock/Handles.antt =====
-- Socket numbers of src/esp_smoltcp_sock.c: the interface above, the core's id below.
use esp_smoltcp.Common.{ℕ, ◌+◌, ◌*◌, ◌^◌, ◌<◌, ◌≡◌, ◌≢◌, arith, true}
use esp_smoltcp.Types.{iface_max}
use esp_smoltcp.Net.{net_sock_valid}
use esp_smoltcp.Stack.Sock.{encode, iface_of, local_of, to_socket}
use esp_smoltcp.Stack.Glue.{Base}

-- A socket made from an interface and an id below 2^24 names both again, is valid if the id is
-- not 0, and fits 32 bits.
encode_fields :
    (base : Base) (iface id : ℕ)
    → iface < iface_max
    → id < 2 ^ 24
    → id ≢ 0
    → let s = to_socket base iface id in
      (iface_of s ≡ iface) × (local_of s ≡ id) × (net_sock_valid s ≡ true) × (s < 2 ^ 32)
unfolding encode iface_of local_of
encode_fields base iface id h k n = ground arith

-- An id of 2^24 or more is cut: the socket for `id + k * 2^24`, with `id` below 2^24, names `id`,
-- and on the Ethernet interface the socket for `k * 2^24`, `k` not 0, is the invalid one.
pub encode_truncates :
    (base : Base) (iface id k : ℕ)
    → iface < iface_max
    → id < 2 ^ 24
    → k ≢ 0
    → (local_of (encode iface (id + k * 2 ^ 24)) ≡ id) × (to_socket base 0 (k * 2 ^ 24) ≡ 0)
unfolding encode local_of
encode_truncates base iface id k h l n = ground arith
