-- ===== src/Compat/Socket.antt =====
-- src/sock_wrap.c: socket, bind, listen, connect. The addresses that a caller passes are not NULL.
pub mod Stale
pub mod Listen
use esp_smoltcp.Common.{
  ℕ, zero, suc, ℤ, pos, negsuc, minus_one, is_positive, to_ℕ, Bool, true, false, not, ◌||◌, Option,
  none, some, List, [], ◌∷◌, if◌then◌else◌, ltb, ◌==◌, replicate, QueueApi,
}
use esp_smoltcp.Types.{
  EspErr, is_ok, Errno, eafnosupport, eprotonosupport, enfile, enobufs, einval, eaddrinuse, ebadf,
  enomem, etimedout,
}
use esp_smoltcp.Net.{net_sock_valid}
use esp_smoltcp.Compat.State.{
  Kind, tcp, udp, tcp_listen, is_tcp, is_udp, Entry, Compat, Config, put_entry, put_net, set_errno,
}
use esp_smoltcp.Compat.Env.{Env, State}
use esp_smoltcp.Compat.Loopback.{is_loopback_ip, lo_bind}
use esp_smoltcp.Compat.Fd.{fd_get, fd_alloc, fd_free}
use esp_smoltcp.Compat.Address.{SockAddr, swap16, sizeof_sockaddr_in}

-- `type & 0xFF`
pub data SockType : Type 0 where
  sock_stream sock_dgram other_type : SockType

-- What `listen` does for one socket of the pool after the other: the error if one fails, and the
-- array, whose later places are still zero then.
pub data Armed (N : Type 0) : Type 0 where
  armed : Option Errno → List ℕ → N → Armed N

abbrev pub cons_armed : {N : Type 0} → ℕ → Armed N → Armed N
cons_armed x (armed e xs n) = armed e (x ∷ xs) n

-- `t ? t : d`
abbrev pub timeout_or : ℕ → ℕ → ℕ
timeout_or t d = if t == 0 then d else t

module _ (env : Env) where
  open env use {
    config, queue, Net, Queue, listener_pool, tcp_open, tcp_listen as net_listen, tcp_connect,
    udp_open, udp_close,
  }

  -- `SET_ERRNO(e); return -1;`
  abbrev pub refuse : Errno → State env → ℤ × State env
  refuse e s = (minus_one, set_errno e s)

  -- A write through the pointer that `fd_get` returns for a descriptor.
  unfoldable pub put_fd : ℤ → (Entry Queue → Entry Queue) → State env → State env
  put_fd fd f s = elim (fd_get config fd s.table) [ none ↦ s | some (i, r) ↦ put_entry i f s ]

  -- The parts of `socket` behind `fd_alloc`, on the new entry `r` at `i`.
  unfoldable pub open_udp : ℤ → ℕ → Entry Queue → State env → ℤ × State env
  open_udp fd i r s =
      let (id, n) = udp_open r.iface 0 s.net in
      let t = put_entry i (λ x. record x { nonblocking = false; sock = id }) (put_net n s) in
      if net_sock_valid id then (fd, t) else refuse enobufs (fd_free env fd t)

  unfoldable pub socket_opened : Kind → ℤ → State env → ℤ × State env
  socket_opened k fd s = elim (fd_get config fd s.table) [
    | none ↦ (fd, s)
    | some (i, r) ↦
        if is_udp k
        then open_udp fd i r s
        else (fd, put_entry i (λ x. record x { nonblocking = false }) s)
  ]

  unfoldable pub socket_of : Kind → State env → ℤ × State env
  socket_of k s =
      let (fd, t) = fd_alloc env k s in
      elim fd [ negsuc _ ↦ refuse enfile t | pos n ↦ socket_opened k (pos n) t ]

  -- `is_inet` is `domain == AF_INET`.
  unfoldable pub socket : Bool → SockType → State env → ℤ × State env
  socket false ty s = refuse eafnosupport s
  socket true sock_stream s = socket_of tcp s
  socket true sock_dgram s = socket_of udp s
  socket true other_type s = refuse eprotonosupport s

  -- The re-opening of a UDP socket on the port that `bind` has stored in the entry `r` at `i`.
  unfoldable pub reopen_udp : ℕ → Entry Queue → State env → ℤ × State env
  reopen_udp i r s =
      let closed = if net_sock_valid r.sock then udp_close r.sock s.net else s.net in
      let (id, n) = udp_open r.iface r.local_port closed in
      let t = put_entry i (λ x. record x { sock = id }) (put_net n s) in
      if net_sock_valid id then (pos 0, t) else refuse eaddrinuse t

  -- The part of `bind` behind the stores, for a UDP socket.
  unfoldable pub bind_udp : ℕ → Entry Queue → Option Queue → State env → ℤ × State env
  bind_udp i r created s =
      if is_loopback_ip r.local_ipv4_be
      then bound (lo_bind queue r.local_port (some i) created s)
      else reopen_udp i r s
    where
      bound : EspErr × State env → ℤ × State env
      bound r = (if is_ok r.0 then pos 0 else minus_one, r.1)

  -- `created` is what xQueueCreate returns if `lo_bind` calls it.
  unfoldable pub bind : ℤ → SockAddr → ℕ → Option Queue → State env → ℤ × State env
  bind fd addr alen created s = elim (fd_get config fd s.table) [
    | none ↦ refuse einval s
    | some (i, r) ↦
        let stored = λ (x : Entry Queue). record x {
          local_ipv4_be = addr.addr_be;
          local_port = swap16 addr.port_be;
        } in
        if ltb alen sizeof_sockaddr_in || not addr.is_inet
        then refuse einval s
        else if is_udp r.kind
        then bind_udp i (stored r) created (put_entry i stored s)
        else (pos 0, put_entry i stored s)
  ]

  unfoldable pub pool_size : ℤ → ℕ
  pool_size backlog =
      let n = if is_positive backlog then to_ℕ backlog else listener_pool in
      if ltb listener_pool n then listener_pool else n

  -- The loop of `listen`, on the rounds left.
  unfoldable pub arm : ℕ → ℕ → ℕ → Net → Armed Net
  arm zero iface port n = armed none [] n
  arm (suc k) iface port n =
      let (id, opened) = tcp_open iface n in
      let (e, listening) = net_listen id port opened in
      let rest = cons_armed id (arm k iface port listening) in
      if net_sock_valid id
      then if is_ok e then rest else armed (some eaddrinuse) (id ∷ replicate k 0) listening
      else armed (some enobufs) (id ∷ replicate k 0) opened

  -- The entry once the pool is there, and the result of the loop.
  abbrev pub listening : ℕ → Entry Queue → ℕ → List ℕ → State env → State env
  listening i r size xs s =
      put_entry i
        (λ x. record x {
          pool = some xs;
          pool_len = size;
          pool_next = 0;
          port = r.local_port;
          kind = tcp_listen;
        })
        s

  unfoldable pub listen_armed : ℕ → Entry Queue → ℕ → Armed Net → State env → ℤ × State env
  listen_armed i r size (armed none xs n) s = (pos 0, listening i r size xs (put_net n s))
  listen_armed i r size (armed (some e) xs n) s = refuse e (listening i r size xs (put_net n s))

  -- `mem_ok` tells that `calloc` succeeds.
  unfoldable pub listen : ℤ → ℤ → Bool → State env → ℤ × State env
  listen fd backlog mem_ok s = elim (fd_get config fd s.table) [
    | none ↦ refuse ebadf s
    | some (i, r) ↦
        if not (is_tcp r.kind)
        then refuse ebadf s
        else if r.local_port == 0
        then refuse einval s
        else if mem_ok
        then listen_armed i r (pool_size backlog)
            (arm (pool_size backlog) r.iface r.local_port s.net) s
        else refuse enomem s
  ]

  unfoldable pub connect_tcp : ℕ → Entry Queue → SockAddr → State env → ℤ × State env
  connect_tcp i r addr s =
      let (id, opened) = tcp_open r.iface s.net in
      let (e, n) =
        tcp_connect id addr.addr_be (swap16 addr.port_be) (timeout_or r.snd_timeout_ms 30000)
          opened in
      if net_sock_valid id
      then if is_ok e
        then (pos 0, put_entry i (λ x. record x { sock = id; connected = true }) (put_net n s))
        else refuse etimedout (put_entry i (λ x. record x { sock = id }) (put_net n s))
      else refuse enobufs (put_entry i (λ x. record x { sock = id }) (put_net opened s))

  unfoldable pub connect : ℤ → SockAddr → ℕ → State env → ℤ × State env
  connect fd addr alen s = elim (fd_get config fd s.table) [
    | none ↦ refuse einval s
    | some (i, r) ↦
        if ltb alen sizeof_sockaddr_in
        then refuse einval s
        else if is_tcp r.kind
        then connect_tcp i r addr s
        else if is_udp r.kind
        then (
          pos 0,
          put_entry i
              (λ x. record x {
                local_ipv4_be = addr.addr_be;
                local_port = swap16 addr.port_be;
                connected = true;
              })
              s,
        )
        else refuse ebadf s
  ]
