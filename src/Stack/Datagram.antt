-- ===== src/Stack/Datagram.antt =====
-- src/esp_smoltcp_sock.c: the UDP and multicast calls.
use esp_smoltcp.Common.{
  ℕ, zero, suc, ℤ, pos, minus_one, is_positive, Option, none, some, List, [], if◌then◌else◌, leb,
}
use esp_smoltcp.Types.{EspErr, ok, invalid_arg}
use esp_smoltcp.Stack.State.{put_world}
use esp_smoltcp.Stack.Glue.{Base, State}
use esp_smoltcp.Stack.Iface.{kick_poll}
use esp_smoltcp.Stack.Query.{handle_for}
use esp_smoltcp.Stack.Sock.{iface_of, local_of, deadline_after, of_rc}

module _ (base : Base) where
  open base use {
    World, sendto_udp, recvfrom_udp, close_udp, iface_mcast_join, iface_mcast_leave, ticks,
    wait_progress,
  }

  unfoldable pub net_udp_sendto : ℕ → List ℕ → ℕ → ℕ → State base → ℤ × State base
  net_udp_sendto sock buf dst port s = elim (handle_for base (iface_of sock) s) [
    | none ↦ (minus_one, s)
    | some h ↦
        let (n, w) = sendto_udp (some h) (local_of sock) buf dst port s.world in
        (n, if is_positive n then kick_poll base (put_world w s) else put_world w s)
  ]

  -- The loop of `net_udp_recvfrom`: the result, the bytes stored, the source, the new state.
  unfoldable pub recvfrom_loop :
      ℕ → ℕ → ℕ → ℕ → ℕ → State base → Option (ℤ × List ℕ × ℕ × ℕ × State base)
  recvfrom_loop zero h l cap deadline s = none
  recvfrom_loop (suc f) h l cap deadline s =
      let (n, bytes, src, port, w) = recvfrom_udp (some h) l cap s.world in
      let again = recvfrom_loop f h l cap deadline (wait_progress 50 (put_world w s)) in
      if leb (ticks s.world) deadline
      then (if is_positive n then some (n, bytes, src, port, put_world w s) else again)
      else some (pos 0, [], 0, 0, s)

  unfoldable pub net_udp_recvfrom :
      ℕ → ℕ → ℕ → ℕ → State base → Option (ℤ × List ℕ × ℕ × ℕ × State base)
  net_udp_recvfrom fuel sock cap timeout_ms s = elim (handle_for base (iface_of sock) s) [
    | none ↦ some (minus_one, [], 0, 0, s)
    | some h ↦ recvfrom_loop fuel h (local_of sock) cap (deadline_after base timeout_ms s.world) s
  ]

  unfoldable pub net_udp_close : ℕ → State base → EspErr × State base
  net_udp_close sock s = elim (handle_for base (iface_of sock) s) [
    | none ↦ (invalid_arg, s)
    | some h ↦ (ok, put_world (close_udp (some h) (local_of sock) s.world) s)
  ]

  unfoldable pub net_mcast_join : ℕ → ℕ → State base → EspErr × State base
  net_mcast_join iface group s = elim (handle_for base iface s) [
    | none ↦ (invalid_arg, s)
    | some h ↦ (
      of_rc base (iface_mcast_join (some h) group s.world).0,
      put_world (iface_mcast_join (some h) group s.world).1 s,
    )
  ]

  unfoldable pub net_mcast_leave : ℕ → ℕ → State base → EspErr × State base
  net_mcast_leave iface group s = elim (handle_for base iface s) [
    | none ↦ (invalid_arg, s)
    | some h ↦ (
      of_rc base (iface_mcast_leave (some h) group s.world).0,
      put_world (iface_mcast_leave (some h) group s.world).1 s,
    )
  ]
