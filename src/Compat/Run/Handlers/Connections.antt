-- ===== src/Compat/Run/Handlers/Connections.antt =====
-- socket, bind and connect of src/sock_wrap.c keep every entry of the table sound.
use esp_smoltcp.Common.{
  ℕ, ℤ, pos, ◌≢◌, Bool, true, false, not, ◌||◌, Option, ltb, arith, modify, Bool-cases,
  Option-cases, inl, inr, if◌then◌else◌, ℤ-cases,
}
use esp_smoltcp.Types.{is_ok}
use esp_smoltcp.Net.{net_sock_valid}
use esp_smoltcp.Compat.State.{Kind, tcp, udp, tcp_listen, Entry, is_tcp, is_udp, put_entry, put_net}
use esp_smoltcp.Compat.Env.{Env, State}
use esp_smoltcp.Compat.Address.{SockAddr, sizeof_sockaddr_in, swap16}
use esp_smoltcp.Compat.Loopback.{is_loopback_ip}
use esp_smoltcp.Compat.Fd.{fd_get, fd_alloc}
use esp_smoltcp.Compat.Socket.{
  SockType, sock_stream, sock_dgram, other_type, open_udp, socket_opened, socket_of, socket,
  reopen_udp, bind_udp, bind, connect_tcp, connect, timeout_or,
}
use esp_smoltcp.Compat.Run.{AllSound}
use esp_smoltcp.Compat.Run.Table.{fd_alloc-AllSound, fd_free-AllSound, lo_bind-AllSound}
use esp_smoltcp.Compat.Run.Handlers.{kept}

module _ (env : Env) where
  open env use {config, queue, Queue, Net, listener_pool, udp_open as core_udp_open}

  open_udp-AllSound :
      (fd : ℤ) (i : ℕ) (r : Entry Queue) (s : State env)
      → AllSound env s.table
      → AllSound env (open_udp env fd i r s).1.table
  unfolding open_udp
  open_udp-AllSound fd i r s v =
      let id = (core_udp_open r.iface 0 s.net).0 in
      let f : Entry Queue → Entry Queue = λ x. record x { nonblocking = false; sock = id } in
      let t : State env = put_entry i f (put_net (core_udp_open r.iface 0 s.net).1 s) in
      let w : AllSound env t.table =
        kept env f (λ x u. record { pool_there = u.pool_there; queue_there = u.queue_there }) i
          s.table v in
      elim (Bool-cases (net_sock_valid id)) [
        | inl k ↦ rw (k, open_udp) w
        | inr k ↦ rw (k, open_udp) (fd_free-AllSound env fd t w)
      ]

  socket_opened-AllSound :
      (k : Kind) (fd : ℤ) (s : State env)
      → AllSound env s.table
      → AllSound env (socket_opened env k fd s).1.table
  unfolding socket_opened
  socket_opened-AllSound k fd s v = elim (Option-cases (fd_get config fd s.table)) [
    | inl e ↦ rw (e, socket_opened) v
    | inr ((i, r), e) ↦ elim (Bool-cases (is_udp k)) [
      | inl u ↦ rw (e, socket_opened) (rw u (open_udp-AllSound fd i r s v))
      | inr u ↦
          rw (e, socket_opened)
            (rw u (
              kept env (λ x. record x { nonblocking = false })
                (λ x u. record { pool_there = u.pool_there; queue_there = u.queue_there }) i s.table
                v))
    ]
  ]

  socket_of-AllSound :
      (k : Kind) (s : State env)
      → k ≢ tcp_listen
      → AllSound env s.table
      → AllSound env (socket_of env k s).1.table
  unfolding socket_of
  socket_of-AllSound k s n v =
      let w = fd_alloc-AllSound env k s n v in
      elim (ℤ-cases (fd_alloc env k s).0) [
        | inl (m, e) ↦ rw (e, socket_of) (socket_opened-AllSound k (pos m) (fd_alloc env k s).1 w)
        | inr (m, e) ↦ rw (e, socket_of) w
      ]

  pub socket-AllSound :
      (inet : Bool) (ty : SockType) (s : State env)
      → AllSound env s.table
      → AllSound env (socket env inet ty s).1.table
  unfolding socket
  socket-AllSound false ty s v = v
  socket-AllSound true sock_stream s v = socket_of-AllSound tcp s (λ e. ground (arith, e)) v
  socket-AllSound true sock_dgram s v = socket_of-AllSound udp s (λ e. ground (arith, e)) v
  socket-AllSound true other_type s v = v

  reopen_udp-AllSound :
      (i : ℕ) (r : Entry Queue) (s : State env)
      → AllSound env s.table
      → AllSound env (reopen_udp env i r s).1.table
  unfolding reopen_udp
  reopen_udp-AllSound i r s v =
      let closed = if net_sock_valid r.sock then env.udp_close r.sock s.net else s.net in
      let id = (core_udp_open r.iface r.local_port closed).0 in
      let f : Entry Queue → Entry Queue = λ x. record x { sock = id } in
      let w : AllSound env (modify s.table i f) =
        kept env f (λ x u. record { pool_there = u.pool_there; queue_there = u.queue_there }) i
          s.table v in
      elim (Bool-cases (net_sock_valid id)) [
        | inl k ↦ rw (k, reopen_udp) w
        | inr k ↦ rw (k, reopen_udp) w
      ]

  bind_udp-AllSound :
      (i : ℕ) (r : Entry Queue) (created : Option Queue) (s : State env)
      → AllSound env s.table
      → AllSound env (bind_udp env i r created s).1.table
  unfolding bind_udp
  bind_udp-AllSound i r created s v = elim (Bool-cases (is_loopback_ip r.local_ipv4_be)) [
    | inl lo ↦ rw (lo, bind_udp) (lo_bind-AllSound env r.local_port i created s v)
    | inr lo ↦ rw (lo, bind_udp) (reopen_udp-AllSound i r s v)
  ]

  pub bind-AllSound :
      (fd : ℤ) (addr : SockAddr) (alen : ℕ) (created : Option Queue) (s : State env)
      → AllSound env s.table
      → AllSound env (bind env fd addr alen created s).1.table
  unfolding bind
  bind-AllSound fd addr alen created s v = elim (Option-cases (fd_get config fd s.table)) [
    | inl e ↦ rw (e, bind) v
    | inr ((i, r), e) ↦ elim (Bool-cases (ltb alen sizeof_sockaddr_in || not addr.is_inet)) [
      | inl l ↦ rw (e, bind) (rw l v)
      | inr l ↦
          let stored : Entry Queue → Entry Queue =
            λ x. record x { local_ipv4_be = addr.addr_be; local_port = swap16 addr.port_be } in
          let w : AllSound env (modify s.table i stored) =
            kept env stored
              (λ x u. record { pool_there = u.pool_there; queue_there = u.queue_there }) i s.table
              v in
          elim (Bool-cases (is_udp r.kind)) [
            | inl k ↦
                rw (e, bind)
                  (rw l (rw k (bind_udp-AllSound i (stored r) created (put_entry i stored s) w)))
            | inr k ↦ rw (e, bind) (rw l (rw k w))
          ]
    ]
  ]

  connect_tcp-AllSound :
      (i : ℕ) (r : Entry Queue) (addr : SockAddr) (s : State env)
      → AllSound env s.table
      → AllSound env (connect_tcp env i r addr s).1.table
  unfolding connect_tcp
  connect_tcp-AllSound i r addr s v =
      let id = (env.tcp_open r.iface s.net).0 in
      let opened = (env.tcp_open r.iface s.net).1 in
      let got =
        env.tcp_connect id addr.addr_be (swap16 addr.port_be) (timeout_or r.snd_timeout_ms 30000)
          opened in
      let w : AllSound env (modify s.table i (λ x. record x { sock = id })) =
        kept env (λ x. record x { sock = id })
          (λ x u. record { pool_there = u.pool_there; queue_there = u.queue_there }) i s.table v in
      elim (Bool-cases (net_sock_valid id)) [
        | inr k ↦ rw (k, connect_tcp) w
        | inl k ↦ elim (Bool-cases (is_ok got.0)) [
          | inr o ↦ rw (k, connect_tcp) (rw o w)
          | inl o ↦
              rw (k, connect_tcp)
                (rw o (
                  kept env (λ x. record x { sock = id; connected = true })
                    (λ x u. record { pool_there = u.pool_there; queue_there = u.queue_there }) i
                    s.table v))
        ]
      ]

  pub connect-AllSound :
      (fd : ℤ) (addr : SockAddr) (alen : ℕ) (s : State env)
      → AllSound env s.table
      → AllSound env (connect env fd addr alen s).1.table
  unfolding connect
  connect-AllSound fd addr alen s v = elim (Option-cases (fd_get config fd s.table)) [
    | inl e ↦ rw (e, connect) v
    | inr ((i, r), e) ↦ elim (Bool-cases (ltb alen sizeof_sockaddr_in)) [
      | inl l ↦ rw (e, connect) (rw l v)
      | inr l ↦ elim (Bool-cases (is_tcp r.kind)) [
        | inl k ↦ rw (e, connect) (rw (l, k) (connect_tcp-AllSound i r addr s v))
        | inr k ↦ elim (Bool-cases (is_udp r.kind)) [
          | inr u ↦ rw (e, connect) (rw (l, k, u) v)
          | inl u ↦
              rw (e, connect)
                (rw (l, k, u)
                  (kept env
                    (λ x. record x {
                      local_ipv4_be = addr.addr_be;
                      local_port = swap16 addr.port_be;
                      connected = true;
                    })
                    (λ x y. record { pool_there = y.pool_there; queue_there = y.queue_there }) i
                    s.table v))
        ]
      ]
    ]
  ]
