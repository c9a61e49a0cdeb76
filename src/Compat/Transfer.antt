-- ===== src/Compat/Transfer.antt =====
-- src/sock_wrap.c: send, recv, sendto, recvfrom, and read and write on a socket's descriptor.
pub mod RoundTrip
use esp_smoltcp.Common.{
  ℕ, ℤ, pos, minus_one, is_positive, is_zero, Bool, true, false, not, ◌&&◌, ◌||◌, Option, none,
  some, List, [], if◌then◌else◌, ltb, ◌==◌, min, length, take, QueueApi,
}
use esp_smoltcp.Types.{enotconn, ebadf, einval, ewouldblock}
use esp_smoltcp.Compat.State.{Msg, is_tcp, is_udp, Entry, put_entry, put_net}
use esp_smoltcp.Compat.Env.{Env, State}
use esp_smoltcp.Compat.Loopback.{is_loopback_ip, lo_deliver}
use esp_smoltcp.Compat.Fd.{fd_get, fd_is_socket}
use esp_smoltcp.Compat.Address.{SockAddr, swap16, sizeof_sockaddr_in, has_room}
use esp_smoltcp.Compat.Socket.{refuse, timeout_or}

-- The result, the bytes stored in the buffer, and what is stored in `*from`.
pub record Received (S : Type 0) : Type 0 where
  pub result : ℤ
  pub bytes : List ℕ
  pub source : Option SockAddr
  pub state : S

abbrev pub nothing : {S : Type 0} → ℤ × S → Received S
nothing r = record { result = r.0; bytes = []; source = none; state = r.1 }

module _ (env : Env) where
  open env use {config, queue, Queue, Net, tcp_send, tcp_recv, udp_sendto, udp_recvfrom, receive}

  unfoldable pub send : ℤ → List ℕ → State env → ℤ × State env
  send fd buf s = elim (fd_get config fd s.table) [
    | none ↦ refuse env enotconn s
    | some (i, r) ↦
        if not r.connected
        then refuse env enotconn s
        else if is_tcp r.kind
        then (
          (tcp_send r.sock buf (timeout_or r.snd_timeout_ms 5000) s.net).0,
          put_net (tcp_send r.sock buf (timeout_or r.snd_timeout_ms 5000) s.net).1 s,
        )
        else if is_udp r.kind
        then (
          (udp_sendto r.sock buf r.local_ipv4_be r.local_port s.net).0,
          put_net (udp_sendto r.sock buf r.local_ipv4_be r.local_port s.net).1 s,
        )
        else refuse env ebadf s
  ]

  -- The waiting time of the receiving calls.
  abbrev pub rcv_wait : Entry Queue → ℕ
  rcv_wait r = if r.nonblocking then 0 else timeout_or r.rcv_timeout_ms 30000

  -- `if (n == 0 && e->nonblocking) { SET_ERRNO(EWOULDBLOCK); return -1; }`
  unfoldable pub unless_empty : Entry Queue → ℤ → List ℕ → State env → Received (State env)
  unless_empty r n bytes s =
      if is_zero n && r.nonblocking
      then nothing (refuse env ewouldblock s)
      else record { result = n; bytes = bytes; source = none; state = s }

  unfoldable pub recv : ℤ → ℕ → State env → Received (State env)
  recv fd cap s = elim (fd_get config fd s.table) [
    | none ↦ nothing (refuse env ebadf s)
    | some (i, r) ↦
        let (n, bytes, m) = tcp_recv r.sock cap (rcv_wait r) s.net in
        let (n', bytes', src, sp, m') = udp_recvfrom r.sock cap (rcv_wait r) s.net in
        if is_tcp r.kind
        then unless_empty r n bytes (put_net m s)
        else if is_udp r.kind
        then unless_empty r n' bytes' (put_net m' s)
        else nothing (refuse env ebadf s)
  ]

  -- `mem_ok` tells that `malloc` succeeds. Buffer and destination are not NULL.
  unfoldable pub sendto : ℤ → List ℕ → SockAddr → ℕ → Bool → State env → ℤ × State env
  sendto fd buf to tolen mem_ok s = elim (fd_get config fd s.table) [
    | none ↦ refuse env ebadf s
    | some (i, r) ↦
        if not (is_udp r.kind)
        then refuse env ebadf s
        else if ltb tolen sizeof_sockaddr_in
        then refuse env einval s
        else if is_loopback_ip to.addr_be
        then lo_deliver queue (swap16 to.port_be) r.local_ipv4_be r.local_port (some buf) mem_ok s
        else (
          (udp_sendto r.sock buf to.addr_be (swap16 to.port_be) s.net).0,
          put_net (udp_sendto r.sock buf to.addr_be (swap16 to.port_be) s.net).1 s,
        )
  ]

  -- `n > 0 && from && fromlen && *fromlen >= sizeof(struct sockaddr_in)`
  abbrev pub source_of : ℤ → Option ℕ → ℕ → ℕ → Option SockAddr
  source_of n fromlen src_be sp =
      if is_positive n && has_room fromlen
      then some (record { is_inet = true; port_be = swap16 sp; addr_be = src_be })
      else none

  -- A datagram copied out of the loopback queue, which stays as `q`.
  unfoldable pub copy_out : ℕ → ℕ → Option ℕ → Msg → Queue → State env → Received (State env)
  copy_out i cap fromlen m q s =
      let copy = if ltb m.len cap then m.len else cap in
      record {
        result = pos copy;
        bytes = take copy m.bytes;
        source = source_of (pos copy) fromlen m.src_be m.src_port;
        state = put_entry i (λ x. record x { lo_rx = some q }) s;
      }

  -- `late` is the datagram that another task queues while the call waits, if one does.
  unfoldable pub recv_loopback :
      ℕ → Entry Queue → Queue → ℕ → Option ℕ → Option Msg → State env → Received (State env)
  recv_loopback i r q cap fromlen late s = elim (receive q) [
    | some (m, q') ↦ copy_out i cap fromlen m q' s
    | none ↦ elim (if rcv_wait r == 0 then none else late) [
      | some m ↦ copy_out i cap fromlen m q s
      | none ↦
          if r.nonblocking
          then nothing (refuse env ewouldblock s)
          else record { result = pos 0; bytes = []; source = none; state = s }
    ]
  ]

  unfoldable pub recv_net : Entry Queue → ℕ → Option ℕ → State env → Received (State env)
  recv_net r cap fromlen s =
      let (n, bytes, src, sp, m) = udp_recvfrom r.sock cap (rcv_wait r) s.net in
      record { result = n; bytes = bytes; source = source_of n fromlen src sp; state = put_net m s }

  unfoldable pub recvfrom : ℤ → ℕ → Option ℕ → Option Msg → State env → Received (State env)
  recvfrom fd cap fromlen late s = elim (fd_get config fd s.table) [
    | none ↦ nothing (refuse env ebadf s)
    | some (i, r) ↦
        if not (is_udp r.kind)
        then nothing (refuse env ebadf s)
        else if r.loopback
        then elim r.lo_rx [
          | some q ↦ recv_loopback i r q cap fromlen late s
          | none ↦ recv_net r cap fromlen s
        ]
        else recv_net r cap fromlen s
  ]

  -- `real` is the file system's call, for a descriptor that is no socket.
  unfoldable pub read :
      ℤ → ℕ → (State env → Received (State env)) → State env → Received (State env)
  read fd cap real s = if fd_is_socket config fd s.table then recv fd cap s else real s

  unfoldable pub write : ℤ → List ℕ → (State env → ℤ × State env) → State env → ℤ × State env
  write fd buf real s = if fd_is_socket config fd s.table then send fd buf s else real s
