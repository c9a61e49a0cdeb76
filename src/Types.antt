-- ===== src/Types.antt =====
-- Result codes and constants that the components share: `esp_err_t`, the `errno` values that the
-- socket wrappers set, and the interface numbers of include/esp_smoltcp.h.
use esp_smoltcp.Common.{ℕ, ℤ, pos, negsuc, Bool, true, false, if◌then◌else◌, ltb, ◌-◌, ◌%◌, ◌^◌}

-- `esp_err_t`, the codes that the sources use.
pub data EspErr : Type 0 where
  ok fail no_mem invalid_arg invalid_state not_found timeout : EspErr

-- `r == ESP_OK`
abbrev pub is_ok : EspErr → Bool
is_ok ok = true
is_ok fail = false
is_ok no_mem = false
is_ok invalid_arg = false
is_ok invalid_state = false
is_ok not_found = false
is_ok timeout = false

-- `errno`, the values that the wrappers set. `unset` is the value before the call.
pub data Errno : Type 0 where
  unset eafnosupport eprotonosupport enfile enobufs einval eaddrinuse ebadf enomem ewouldblock
        etimedout enotconn eopnotsupp :
      Errno

-- NET_IFACE_ETH, NET_IFACE_WIFI and NET_IFACE_MAX
abbrev pub iface_eth : ℕ
iface_eth = 0

abbrev pub iface_wifi : ℕ
iface_wifi = 1

abbrev pub iface_max : ℕ
iface_max = 2

abbrev pub u32_mod : ℕ
u32_mod = 2 ^ 32

abbrev pub u16_mod : ℕ
u16_mod = 2 ^ 16

-- `(int)n` in C, and `n as c_int` in Rust: the lower 32 bits, with a sign.
abbrev pub as_c_int : ℕ → ℤ
as_c_int n = let r = n % u32_mod in if ltb r (2 ^ 31) then pos r else negsuc (u32_mod - 1 - r)
