-- ===== src/Stack/Sock.antt =====
-- src/esp_smoltcp_sock.c: the socket calls, each of which finds the interface in the upper 8 bits
-- of the socket and calls the core under the lock. Loops run on fuel; `none`: it ran out.
pub mod Handles
pub mod Send
pub mod Waits
use esp_smoltcp.Common.{
  ℕ, zero, suc, ℤ, pos, negsuc, minus_one, is_positive, is_zero, to_ℕ, ◌+◌, ◌*◌, ◌/◌, ◌%◌, ◌^◌,
  Bool, true, false, not, Option, none, some, List, [], if◌then◌else◌, ltb, leb, ◌==◌, length, drop,
}
use esp_smoltcp.Types.{EspErr, ok, fail, invalid_arg, timeout, u32_mod, as_c_int}
use esp_smoltcp.Stack.State.{Stack, put_world}
use esp_smoltcp.Stack.Glue.{Base, State}
use esp_smoltcp.Stack.Iface.{kick_poll}
use esp_smoltcp.Stack.Query.{handle_for}

-- `((uint32_t)iface << 24) | (id & 0x00FFFFFF)`, for an interface below 256.
unfoldable pub encode : ℕ → ℕ → ℕ
encode iface id = iface * 2 ^ 24 + id % 2 ^ 24

-- IFACE(s) and LOCAL(s)
unfoldable pub iface_of : ℕ → ℕ
iface_of s = s / 2 ^ 24 % 256

unfoldable pub local_of : ℕ → ℕ
local_of s = s % 2 ^ 24

module _ (base : Base) where
  open base use {
    World, open_tcp, connect_tcp, listen_tcp, send_tcp, recv_tcp, is_active, is_connected,
    recv_queue, send_capacity, close_tcp, open_udp, sendto_udp, recvfrom_udp, close_udp,
    iface_mcast_join, iface_mcast_leave, ticks, ms_to_ticks, sleep, wait_progress,
  }

  -- `xTaskGetTickCount() + pdMS_TO_TICKS(timeout_ms)`
  abbrev pub deadline_after : ℕ → World → ℕ
  deadline_after timeout_ms w = (ticks w + ms_to_ticks timeout_ms) % u32_mod

  -- `if (id) r.id = …`
  abbrev pub to_socket : ℕ → ℕ → ℕ
  to_socket iface id = if id == 0 then 0 else encode iface id

  unfoldable pub net_tcp_open : ℕ → State base → ℕ × State base
  net_tcp_open iface s = elim (handle_for base iface s) [
    | none ↦ (0, s)
    | some h ↦
        (to_socket iface (open_tcp (some h) s.world).0, put_world (open_tcp (some h) s.world).1 s)
  ]

  unfoldable pub net_udp_open : ℕ → ℕ → State base → ℕ × State base
  net_udp_open iface port s = elim (handle_for base iface s) [
    | none ↦ (0, s)
    | some h ↦ (
      to_socket iface (open_udp (some h) port s.world).0,
      put_world (open_udp (some h) port s.world).1 s,
    )
  ]

  unfoldable pub connect_loop : ℕ → ℕ → ℕ → ℕ → State base → Option (EspErr × State base)
  connect_loop zero h l deadline s = none
  connect_loop (suc f) h l deadline s =
      let rest = connect_loop f h l deadline (sleep (ms_to_ticks 20) s) in
      if ltb (ticks s.world) deadline
      then (if is_active (some h) l s.world then some (ok, s) else rest)
      else some (timeout, s)

  unfoldable pub net_tcp_connect : ℕ → ℕ → ℕ → ℕ → ℕ → State base → Option (EspErr × State base)
  net_tcp_connect fuel sock ip port timeout_ms s = elim (handle_for base (iface_of sock) s) [
    | none ↦ some (invalid_arg, s)
    | some h ↦
        let (rc, w) = connect_tcp (some h) (local_of sock) ip port s.world in
        if is_zero rc
        then connect_loop fuel h (local_of sock) (deadline_after timeout_ms w) (put_world w s)
        else some (fail, put_world w s)
  ]

  -- `rc == 0 ? ESP_OK : ESP_FAIL`
  abbrev pub of_rc : ℤ → EspErr
  of_rc rc = if is_zero rc then ok else fail

  unfoldable pub net_tcp_listen : ℕ → ℕ → State base → EspErr × State base
  net_tcp_listen sock port s = elim (handle_for base (iface_of sock) s) [
    | none ↦ (invalid_arg, s)
    | some h ↦
        let (rc, w) = listen_tcp (some h) (local_of sock) port s.world in (of_rc rc, put_world w s)
  ]

  -- The loop of `net_tcp_send`: how many bytes the core has taken.
  unfoldable pub send_loop : ℕ → ℕ → ℕ → List ℕ → ℕ → ℕ → State base → Option (ℕ × State base)
  send_loop zero h l buf deadline total s = none
  send_loop (suc f) h l buf deadline total s =
      let (n, w) = send_tcp (some h) l (drop total buf) s.world in
      let more = send_loop f h l buf deadline (total + to_ℕ n) (kick_poll base (put_world w s)) in
      let again =
        send_loop f h l buf deadline total (wait_progress 50 (kick_poll base (put_world w s))) in
      if ltb total (length buf)
      then (if is_positive n
          then more
          else if leb deadline (ticks w)
          then some (total, put_world w s)
          else again)
      else some (total, s)

  -- `total ? (int)total : -1`
  abbrev pub sent_result : ℕ → ℤ
  sent_result total = if total == 0 then minus_one else as_c_int total

  unfoldable pub net_tcp_send : ℕ → ℕ → List ℕ → ℕ → State base → Option (ℤ × State base)
  net_tcp_send fuel sock buf timeout_ms s = elim (handle_for base (iface_of sock) s) [
    | none ↦ some (minus_one, s)
    | some h ↦ elim (send_loop fuel h (local_of sock) buf (deadline_after timeout_ms s.world) 0 s) [
      | none ↦ none
      | some (total, t) ↦ some (sent_result total, t)
    ]
  ]

  -- The loop of `net_tcp_recv`: the result and the bytes stored.
  unfoldable pub recv_loop : ℕ → ℕ → ℕ → ℕ → ℕ → State base → Option (ℤ × List ℕ × State base)
  recv_loop zero h l cap deadline s = none
  recv_loop (suc f) h l cap deadline s =
      let (n, bytes, w) = recv_tcp (some h) l cap s.world in
      let again = recv_loop f h l cap deadline (wait_progress 50 (put_world w s)) in
      if leb (ticks s.world) deadline
      then (if is_positive n then some (n, bytes, kick_poll base (put_world w s)) else again)
      else some (pos 0, [], s)

  unfoldable pub net_tcp_recv : ℕ → ℕ → ℕ → ℕ → State base → Option (ℤ × List ℕ × State base)
  net_tcp_recv fuel sock cap timeout_ms s = elim (handle_for base (iface_of sock) s) [
    | none ↦ some (minus_one, [], s)
    | some h ↦ recv_loop fuel h (local_of sock) cap (deadline_after timeout_ms s.world) s
  ]

  unfoldable pub net_tcp_close : ℕ → State base → EspErr × State base
  net_tcp_close sock s = elim (handle_for base (iface_of sock) s) [
    | none ↦ (invalid_arg, s)
    | some h ↦ (ok, put_world (close_tcp (some h) (local_of sock) s.world) s)
  ]

  -- net_tcp_is_active, net_tcp_is_connected
  abbrev ask_bool : (Option ℕ → ℕ → World → Bool) → ℕ → State base → Bool
  ask_bool f sock s = elim (handle_for base (iface_of sock) s) [
    | none ↦ false
    | some h ↦ f (some h) (local_of sock) s.world
  ]

  unfoldable pub net_tcp_is_active : ℕ → State base → Bool
  net_tcp_is_active = ask_bool is_active

  unfoldable pub net_tcp_is_connected : ℕ → State base → Bool
  net_tcp_is_connected = ask_bool is_connected

  -- net_tcp_recv_queue, net_tcp_send_capacity
  abbrev ask_size : (Option ℕ → ℕ → World → ℕ) → ℕ → State base → ℕ
  ask_size f sock s = elim (handle_for base (iface_of sock) s) [
    | none ↦ 0
    | some h ↦ f (some h) (local_of sock) s.world
  ]

  unfoldable pub net_tcp_recv_queue : ℕ → State base → ℕ
  net_tcp_recv_queue = ask_size recv_queue

  unfoldable pub net_tcp_send_capacity : ℕ → State base → ℕ
  net_tcp_send_capacity = ask_size send_capacity
