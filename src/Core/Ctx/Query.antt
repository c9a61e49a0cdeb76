-- ===== src/Core/Ctx/Query.antt =====
-- components/esp_smoltcp_glue/src/lib.rs: the queries of an interface. A handle is `none` for NULL.
use esp_smoltcp.Common.{
  ℕ, ℤ, pos, minus_one, Bool, false, Option, none, some, List, [], ◌∷◌, length,
}
use esp_smoltcp.Core.Crate.{Crate, IpCidr, ipv4, ipv6}
use esp_smoltcp.Core.Ctx.{IfaceCtx, ipv4_to_be}

-- The loop of smoltcp_iface_get_ipv6.
unfoldable pub first_ipv6 : List IpCidr → Option (List ℕ)
first_ipv6 [] = none
first_ipv6 (ipv4 c ∷ cs) = first_ipv6 cs
first_ipv6 (ipv6 c ∷ cs) = some c.octets

module _ (crate : Crate) where
  open crate use {poll_delay, ipv4_addr, ip_addrs}

  unfoldable pub iface_poll_delay_us : ℕ → Option (IfaceCtx crate) → ℤ
  iface_poll_delay_us now none = minus_one
  iface_poll_delay_us now (some x) = elim (poll_delay now x.iface x.sockets) [
    | some d ↦ pos d
    | none ↦ minus_one
  ]

  unfoldable pub iface_has_ip : Option (IfaceCtx crate) → Bool
  iface_has_ip none = false
  iface_has_ip (some x) = x.has_ip

  unfoldable pub iface_socket_count : Option (IfaceCtx crate) → ℕ
  iface_socket_count none = 0
  iface_socket_count (some x) = length x.handles

  unfoldable pub iface_get_ipv4 : Option (IfaceCtx crate) → ℕ
  iface_get_ipv4 none = 0
  iface_get_ipv4 (some x) = elim (ipv4_addr x.iface) [ some a ↦ ipv4_to_be a | none ↦ 0 ]

  -- The 16 bytes stored for the result 1, `none` for the result 0.
  unfoldable pub iface_get_ipv6 : Option (IfaceCtx crate) → Option (List ℕ)
  iface_get_ipv6 none = none
  iface_get_ipv6 (some x) = first_ipv6 (ip_addrs x.iface)

  unfoldable pub iface_get_gw : Option (IfaceCtx crate) → ℕ
  iface_get_gw none = 0
  iface_get_gw (some x) = x.gateway_be

  unfoldable pub iface_get_netmask : Option (IfaceCtx crate) → ℕ
  iface_get_netmask none = 0
  iface_get_netmask (some x) = x.netmask_be
