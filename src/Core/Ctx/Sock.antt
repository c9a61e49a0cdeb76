-- ===== src/Core/Ctx/Sock.antt =====
-- components/esp_smoltcp_glue/src/lib.rs: the table of socket ids, and the calls on sockets. A call
-- on the id of a socket of another kind panics in the crate's `get_mut`.
pub mod Table
pub mod Closed
use Prim.Native.Nat.{bit_and}
use esp_smoltcp.Common.{
  ℕ, ◌+◌, ◌-◌, ◌*◌, ◌%◌, ◌^◌, ℤ, pos, negsuc, minus_one, Bool, true, false, ◌||◌, Option, none,
  some, List, [], ◌∷◌, ltb, ◌==◌, if◌then◌else◌, length,
}
use esp_smoltcp.Types.{as_c_int, u32_mod, u16_mod}
use esp_smoltcp.Core.Outcome.{Outcome, value, panic}
use esp_smoltcp.Core.Crate.{
  Crate, ipv4, ipv6, SocketKind, dhcp_kind, tcp_kind, udp_kind, tcp_socket, udp_socket,
}
use esp_smoltcp.Core.Ctx.{IfaceCtx, ipv4_from_be, ipv4_to_be}

-- TCP_RX and TCP_TX
abbrev pub tcp_rx : ℕ
tcp_rx = 16 * 1024

abbrev pub tcp_tx : ℕ
tcp_tx = 48 * 1024

-- A port of the dynamic range: `49152u16.wrapping_add((rand & 0x3FFF) as u16)`.
abbrev pub dynamic_port : ℕ → ℕ
dynamic_port rand = (49152 + bit_and rand 0x3FFF) % u16_mod

-- `next_id.wrapping_add(1).max(1)`
unfoldable pub next_after : ℕ → ℕ
next_after id = if (id + 1) % u32_mod == 0 then 1 else (id + 1) % u32_mod

-- `get`, `remove` and `insert` of the BTreeMap.
module _ {A : Type 0} where
  unfoldable pub get_handle : ℕ → List (ℕ × A) → Option A
  get_handle id [] = none
  get_handle id ((k, h) ∷ m) = if k == id then some h else get_handle id m

  unfoldable pub remove_handle : ℕ → List (ℕ × A) → List (ℕ × A)
  remove_handle id [] = []
  remove_handle id ((k, h) ∷ m) =
      if k == id then remove_handle id m else (k, h) ∷ remove_handle id m

  unfoldable pub insert_handle : ℕ → A → List (ℕ × A) → List (ℕ × A)
  insert_handle id h m = (id, h) ∷ remove_handle id m

abbrev pub same_kind : SocketKind → SocketKind → Bool
same_kind tcp_kind tcp_kind = true
same_kind udp_kind udp_kind = true
same_kind dhcp_kind dhcp_kind = true
same_kind _ _ = false

module _ (crate : Crate) where
  open crate use {
    Sockets, Handle, add, remove, kind_of, can_bind, tcp_connect, tcp_listen, tcp_send, tcp_recv,
    is_active, may_recv, may_send, can_send, recv_queue, send_capacity, send_queue, close, udp_send,
    udp_recv,
  }

  abbrev pub Ctx : Type 0
  Ctx = IfaceCtx crate

  unfoldable pub alloc_id : Handle → Ctx → ℕ × Ctx
  alloc_id h x = (
    x.next_id,
    record x { next_id = next_after x.next_id; handles = insert_handle x.next_id h x.handles },
  )

  -- What a call returns, and the context after it; the context is `none` for a NULL handle.
  abbrev pub Result : Type 0 → Type 0
  Result R = Outcome (R × Option Ctx)

  -- `if h.is_null() { return fail; }`, `let Some(sh) = ctx.lookup(id) else { return fail; }`, then `get_mut` of the kind.
  unfoldable pub on_socket :
      {R : Type 0} → SocketKind → ℕ → R → (Handle → Ctx → R × Ctx) → Option Ctx → Result R
  on_socket kind id fail body none = value (fail, none)
  on_socket kind id fail body (some x) = elim (get_handle id x.handles) [
    | none ↦ value (fail, some x)
    | some h ↦
        let (r, y) = body h x in
        if same_kind (kind_of h x.sockets) kind then value (r, some y) else panic
  ]

  unfoldable pub tcp_open : Option Ctx → ℕ × Option Ctx
  tcp_open none = (0, none)
  tcp_open (some x) =
      let (h, sockets) = add (tcp_socket tcp_rx tcp_tx) x.sockets in
      let (id, y) = alloc_id h (record x { sockets = sockets }) in (id, some y)

  -- `rand` is what smoltcp_glue_rand32 returns.
  unfoldable pub connect_tcp : ℕ → ℕ → ℕ → ℕ → ℕ → Option Ctx → Result ℤ
  connect_tcp rand id dst_be dst_port local_port = on_socket tcp_kind id minus_one (λ h x.
      let local = if local_port == 0 then dynamic_port rand else local_port in
      let (ok, iface, sockets) =
        tcp_connect h (ipv4_from_be dst_be) dst_port local x.iface x.sockets in
      (if ok then pos 0 else minus_one, record x { iface = iface; sockets = sockets }))

  unfoldable pub listen_tcp : ℕ → ℕ → Option Ctx → Result ℤ
  listen_tcp id port = on_socket tcp_kind id minus_one (λ h x.
      let (ok, sockets) = tcp_listen h port x.sockets in
      (if ok then pos 0 else minus_one, record x { sockets = sockets }))

  unfoldable pub send_tcp : ℕ → Option (List ℕ) → Option Ctx → Result ℤ
  send_tcp id none x = value (minus_one, x)
  send_tcp id (some buf) x =
      on_socket tcp_kind id minus_one
        (λ h x.
          let (n, sockets) = tcp_send h buf x.sockets in
          (elim n [ some k ↦ as_c_int k | none ↦ minus_one ], record x { sockets = sockets }))
        x

  -- The result, and what is stored in the buffer of `cap` bytes, `none` for a NULL buffer.
  unfoldable pub recv_tcp : ℕ → Option ℕ → Option Ctx → Result (ℤ × List ℕ)
  recv_tcp id none x = value ((minus_one, []), x)
  recv_tcp id (some cap) x =
      on_socket tcp_kind id (minus_one, [])
        (λ h x.
          let (got, sockets) = tcp_recv h cap x.sockets in
          (
            elim got [ some b ↦ (as_c_int (length b), b) | none ↦ (minus_one, []) ],
            record x { sockets = sockets },
          ))
        x

  unfoldable pub tcp_is_active : ℕ → Option Ctx → Result Bool
  tcp_is_active id = on_socket tcp_kind id false (λ h x. (is_active h x.sockets, x))

  unfoldable pub tcp_is_connected : ℕ → Option Ctx → Result Bool
  tcp_is_connected id =
      on_socket tcp_kind id false (λ h x. (may_recv h x.sockets || may_send h x.sockets, x))

  unfoldable pub tcp_recv_queue : ℕ → Option Ctx → Result ℕ
  tcp_recv_queue id = on_socket tcp_kind id 0 (λ h x. (recv_queue h x.sockets, x))

  unfoldable pub tcp_send_capacity : ℕ → Option Ctx → Result ℕ
  tcp_send_capacity id = on_socket tcp_kind id 0 (λ h x.
      ((if can_send h x.sockets then send_capacity h x.sockets - send_queue h x.sockets else 0), x))

  -- The body that smoltcp_tcp_close and smoltcp_udp_close share.
  abbrev pub forget : ℕ → Handle → Ctx → Unit {0} × Ctx
  forget id h x = (
    tt,
    record x { sockets = remove h (close h x.sockets); handles = remove_handle id x.handles },
  )

  unfoldable pub close_tcp : ℕ → Option Ctx → Result (Unit {0})
  close_tcp id = on_socket tcp_kind id tt (forget id)

  unfoldable pub udp_open : ℕ → Option Ctx → ℕ × Option Ctx
  udp_open local_port none = (0, none)
  udp_open local_port (some x) =
      let (h, sockets) = add (udp_socket local_port) x.sockets in
      let (id, y) = alloc_id h (record x { sockets = sockets }) in
      if local_port == 0
      then (id, some y)
      else if can_bind local_port
      then (id, some y)
      else (0, some x)

  unfoldable pub sendto_udp : ℕ → Option (List ℕ) → ℕ → ℕ → Option Ctx → Result ℤ
  sendto_udp id none dst_be dst_port x = value (minus_one, x)
  sendto_udp id (some buf) dst_be dst_port x =
      on_socket udp_kind id minus_one
        (λ h x.
          let (ok, sockets) = udp_send h buf (ipv4_from_be dst_be) dst_port x.sockets in
          (if ok then as_c_int (length buf) else minus_one, record x { sockets = sockets }))
        x

  -- The result, the bytes, and what is stored as the sender's address, where it is, and port.
  abbrev pub Received : Type 0
  Received = ℤ × List ℕ × Option ℕ × Option ℕ

  unfoldable pub recvfrom_udp : ℕ → Option ℕ → Option Ctx → Result Received
  recvfrom_udp id none x = value ((minus_one, [], none, none), x)
  recvfrom_udp id (some cap) x =
      on_socket udp_kind id (minus_one, [], none, none)
        (λ h x.
          let (got, sockets) = udp_recv h cap x.sockets in
          (
            elim got [
              | none ↦ (minus_one, [], none, none)
              | some (b, from, port) ↦ (
                as_c_int (length b),
                b,
                elim from [ ipv4 a ↦ some (ipv4_to_be a.octets) | ipv6 a ↦ none ],
                some port,
              )
            ],
            record x { sockets = sockets },
          ))
        x

  unfoldable pub close_udp : ℕ → Option Ctx → Result (Unit {0})
  close_udp id = on_socket udp_kind id tt (forget id)
