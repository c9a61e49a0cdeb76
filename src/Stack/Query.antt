-- ===== src/Stack/Query.antt =====
-- src/esp_smoltcp.c: the interface lookups. An interface that is not enabled answers nothing.
use esp_smoltcp.Common.{ℕ, Bool, ltb, Option, none, some, List, if◌then◌else◌, get_elem?}
use esp_smoltcp.Types.{EspErr, ok, invalid_arg, not_found, timeout, iface_max}
use esp_smoltcp.Stack.State.{Iface}
use esp_smoltcp.Stack.Glue.{Base, State}

module _ (base : Base) where
  open base use {Queue, World, iface_ipv4, iface_gw, iface_netmask, iface_ipv6}

  -- `net_iface_get`
  unfoldable pub iface_get : ℕ → List (Iface Queue) → Option (Iface Queue)
  iface_get i xs = elim (get_elem? xs i) [
    | none ↦ none
    | some x ↦ if x.enabled then some x else none
  ]

  -- `handle_for` of esp_smoltcp_sock.c, and net_stack_smoltcp_handle
  unfoldable pub handle_for : ℕ → State base → Option ℕ
  unfolding iface_get
  handle_for i s = elim (iface_get i s.ifaces) [ none ↦ none | some x ↦ x.handle ]

  -- The common shape of net_stack_get_ipv4, net_stack_get_gateway and net_stack_get_netmask.
  abbrev query : (Option ℕ → World → ℕ) → ℕ → State base → ℕ
  query f i s = elim (iface_get i s.ifaces) [ none ↦ 0 | some x ↦ f x.handle s.world ]

  unfoldable pub get_ipv4 : ℕ → State base → ℕ
  unfolding iface_get
  get_ipv4 = query iface_ipv4

  unfoldable pub get_gateway : ℕ → State base → ℕ
  unfolding iface_get
  get_gateway = query iface_gw

  unfoldable pub get_netmask : ℕ → State base → ℕ
  unfolding iface_get
  get_netmask = query iface_netmask

  -- esp_smoltcp_get_ipv6_link_local: the result, and what is stored in `out`. `has_out` tells that
  -- the argument is not NULL.
  unfoldable pub get_ipv6 : ℕ → Bool → State base → EspErr × Option (List ℕ)
  unfolding iface_get
  get_ipv6 i has_out s = elim (iface_get i s.ifaces) [
    | none ↦ (not_found, none)
    | some x ↦
        if has_out
        then elim (iface_ipv6 x.handle s.world) [ none ↦ (not_found, none) | some a ↦ (ok, some a) ]
        else (not_found, none)
  ]

-- `got` is the bit of the interface in what xEventGroupWaitBits returns.
unfoldable pub wait_for_ip : ℕ → Bool → EspErr
wait_for_ip i got = if ltb i iface_max then (if got then ok else timeout) else invalid_arg
