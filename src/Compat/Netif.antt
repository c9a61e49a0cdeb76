-- ===== src/Compat/Netif.antt =====
-- src/esp_netif_shim.c: the two synthetic esp_netif handles. `none` is a NULL handle.
use Prim.Native.String.{String}
use text.Mathlib.Text.{◌==◌ as str_eq}
use esp_smoltcp.Common.{ℕ, Bool, false, not, Option, none, some, if◌then◌else◌, ◌==◌, List}
use esp_smoltcp.Types.{EspErr, ok, invalid_arg, iface_eth, iface_wifi}

-- `&s_netif_eth` and `&s_netif_wifi`
pub data Netif : Type 0 where
  netif_eth netif_wifi : Netif

-- The members of `struct shim_netif`.
abbrev pub iface_of : Netif → ℕ
iface_of netif_eth = iface_eth
iface_of netif_wifi = iface_wifi

abbrev pub key_of : Netif → String
key_of netif_eth = "ETH_DEF"
key_of netif_wifi = "WIFI_STA_DEF"

-- CONFIG_NETSTACK_MODE_DUAL, CONFIG_NETSTACK_MODE_ETH, CONFIG_NETSTACK_MODE_WIFI, or none of them.
pub data Mode : Type 0 where
  dual eth_only wifi_only no_mode : Mode

unfoldable pub get_handle_from_ifkey : Option String → Option Netif
get_handle_from_ifkey none = none
get_handle_from_ifkey (some k) =
    if str_eq k "ETH_DEF"
    then some netif_eth
    else if str_eq k "WIFI_STA_DEF"
    then some netif_wifi
    else none

unfoldable pub next_unsafe : Mode → Option Netif → Option Netif
next_unsafe dual none = some netif_eth
next_unsafe dual (some netif_eth) = some netif_wifi
next_unsafe dual (some netif_wifi) = none
next_unsafe eth_only none = some netif_eth
next_unsafe eth_only (some n) = none
next_unsafe wifi_only none = some netif_wifi
next_unsafe wifi_only (some n) = none
next_unsafe no_mode prev = none

-- `esp_netif_ip_info_t`
pub record IpInfo : Type 0 where
  pub ip : ℕ
  pub gw : ℕ
  pub netmask : ℕ

unfoldable pub get_ifkey : Option Netif → String
get_ifkey none = ""
get_ifkey (some n) = key_of n

-- The three queries are net_stack_get_ipv4, net_stack_get_gateway and net_stack_get_netmask.
unfoldable pub get_ip_info : (ℕ → ℕ) → (ℕ → ℕ) → (ℕ → ℕ) → Option Netif → EspErr × Option IpInfo
get_ip_info ipv4 gateway netmask none = (invalid_arg, none)
get_ip_info ipv4 gateway netmask (some n) = (
  ok,
  some (record {
    ip = ipv4 (iface_of n);
    gw = gateway (iface_of n);
    netmask = netmask (iface_of n);
  }),
)

unfoldable pub is_netif_up : (ℕ → ℕ) → Option Netif → Bool
is_netif_up ipv4 none = false
is_netif_up ipv4 (some n) = not (ipv4 (iface_of n) == 0)

-- `read_mac` is esp_read_mac, for ESP_MAC_ETH or else for ESP_MAC_WIFI_STA; `has_mac` tells that
-- the argument is not NULL. The result, and what is stored in `mac`.
unfoldable pub get_mac :
    (Bool → EspErr × Option (List ℕ)) → Option Netif → Bool → EspErr × Option (List ℕ)
get_mac read_mac none has_mac = (invalid_arg, none)
get_mac read_mac (some n) has_mac =
    if has_mac then read_mac (iface_of n == iface_eth) else (invalid_arg, none)

-- CONFIG_APP_HOSTNAME is `name`; `has_out` tells that the argument is not NULL.
unfoldable pub get_hostname : String → Option Netif → Bool → EspErr × Option String
get_hostname name n has_out = if has_out then (ok, some name) else (invalid_arg, none)

unfoldable pub set_hostname : Option Netif → Option String → EspErr
set_hostname n name = ok
