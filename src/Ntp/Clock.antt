-- ===== src/Ntp/Clock.antt =====
-- The time that the SNTP client of ntp.c sets.
use esp_smoltcp.Common.{
  ℕ, pos, negsuc, ◌+◌, ◌-◌, ◌*◌, ◌/◌, ◌%◌, ◌^◌, ◌≤◌, ◌<◌, ◌≡◌, some, List, get_or, arith,
}
use esp_smoltcp.Ntp.{ntp_unix_offset, tx_ts_low, bswap32, unix_secs, ntp_round}

-- The transmit timestamp of the packet is `secs` in network byte order.
pub record Carries (p : List ℕ) (secs : ℕ) : Type 0 where
  pub byte0 : get_or p 40 0 ≡ secs / 2 ^ 24
  pub byte1 : get_or p 41 0 ≡ secs / 2 ^ 16 % 256
  pub byte2 : get_or p 42 0 ≡ secs / 2 ^ 8 % 256
  pub byte3 : get_or p 43 0 ≡ secs % 256

bswap_bytes :
    (a b c d : ℕ)
    → a < 256
    → b < 256
    → c < 256
    → d < 256
    → bswap32 (a + b * 2 ^ 8 + c * 2 ^ 16 + d * 2 ^ 24) ≡ a * 2 ^ 24 + b * 2 ^ 16 + c * 2 ^ 8 + d
unfolding bswap32
bswap_bytes a b c d ha hb hc hd = omega arith

-- The swap of the low half of the little-endian field reads the seconds.
bswap32-tx_ts_low :
    (p : List ℕ) (secs : ℕ) → secs < 2 ^ 32 → Carries p secs → bswap32 (tx_ts_low p) ≡ secs
unfolding tx_ts_low
bswap32-tx_ts_low p secs h c = omega (
  arith,
  c.byte0,
  bswap_bytes (get_or p 40 0) (get_or p 41 0) (get_or p 42 0) (get_or p 43 0) (omega arith)
      (omega arith) (omega arith) (omega arith),
)

-- An answer of full length whose transmit timestamp is a time from 1970 on, before the 32-bit
-- seconds of NTP run out in February 2036, sets the clock to exactly that time.
pub ntp_round_exact :
    (n : ℕ) (p : List ℕ) (t : ℕ)
    → 48 ≤ n
    → t + ntp_unix_offset < 2 ^ 32
    → Carries p (t + ntp_unix_offset)
    → ntp_round (pos n) p ≡ some (pos t)
unfolding ntp_round unix_secs
ntp_round_exact n p t h b c = ground (arith, bswap32-tx_ts_low p (t + ntp_unix_offset))

-- An answer of full length with a timestamp of `t` seconds in the next NTP era (2036 on), and below
-- the offset to 1970, sets the clock to `t - 2208988800`, which is negative: a time before 1970, one
-- era of 2^32 seconds too early.
pub ntp_round_next_era :
    (n : ℕ) (p : List ℕ) (t : ℕ)
    → 48 ≤ n
    → t < ntp_unix_offset
    → Carries p t
    → ntp_round (pos n) p ≡ some (negsuc (ntp_unix_offset - 1 - t))
unfolding ntp_round unix_secs
ntp_round_next_era n p t h b c = ground (arith, bswap32-tx_ts_low p t)
