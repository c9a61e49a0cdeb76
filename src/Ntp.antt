-- ===== src/Ntp.antt =====
-- components/esp_smoltcp/src/ntp.c: the SNTP packet, and one round of the client's loop. A packet
-- is its 48 bytes on the wire; `sntp_pkt_t` is packed, the target is little-endian, and its time_t has
-- 64 bits.
pub mod Clock
pub mod Task
mod Tests
use esp_smoltcp.Common.{
  ℕ, ℤ, pos, negsuc, ◌+◌, ◌-◌, ◌*◌, ◌/◌, ◌%◌, ◌^◌, Option, none, some, List, ◌∷◌, if◌then◌else◌,
  ltb, get_or, replicate,
}

abbrev pub sizeof_sntp_pkt : ℕ
sizeof_sntp_pkt = 48

-- NTP_UNIX_OFFSET
abbrev pub ntp_unix_offset : ℕ
ntp_unix_offset = 2208988800

-- `req`: LI = 0, VN = 4, mode = client, and zeros.
unfoldable pub request : List ℕ
request = (0 * 2 ^ 6 + 4 * 2 ^ 3 + 3) ∷ replicate 47 0

-- `rsp.tx_ts & 0xFFFFFFFF`: the first four bytes of the field at offset 40, lowest first.
unfoldable pub tx_ts_low : List ℕ → ℕ
tx_ts_low p =
    get_or p 40 0 + get_or p 41 0 * 2 ^ 8 + get_or p 42 0 * 2 ^ 16 + get_or p 43 0 * 2 ^ 24

-- `__builtin_bswap32`
unfoldable pub bswap32 : ℕ → ℕ
bswap32 x =
    x % 256 * 2 ^ 24 + x / 2 ^ 8 % 256 * 2 ^ 16 + x / 2 ^ 16 % 256 * 2 ^ 8 + x / 2 ^ 24 % 256

-- `secs - NTP_UNIX_OFFSET` in 64 bits
unfoldable pub unix_secs : List ℕ → ℕ
unfolding bswap32 tx_ts_low
unix_secs p = (bswap32 (tx_ts_low p) + 2 ^ 64 - ntp_unix_offset) % 2 ^ 64

-- `(time_t)unix_secs`, where time_t has 64 bits and a sign
abbrev pub as_time_t : ℕ → ℤ
as_time_t n = if ltb n (2 ^ 63) then pos n else negsuc (2 ^ 64 - 1 - n)

-- What a round sets the clock to, from the result of net_udp_recvfrom and the bytes stored.
unfoldable pub ntp_round : ℤ → List ℕ → Option ℤ
ntp_round (negsuc n) p = none
ntp_round (pos n) p = if ltb n sizeof_sntp_pkt then none else some (as_time_t (unix_secs p))
