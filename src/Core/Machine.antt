-- ===== src/Core/Machine.antt =====
-- The glue of components/esp_smoltcp_glue/src/lib.rs under components/esp_smoltcp: it fills the
-- interface Glue of Stack. A panic of the glue aborts the device, after which nothing is observed.
pub mod Reports
pub mod Burst
use esp_smoltcp.Common.{
  ℕ, ℤ, pos, minus_one, Bool, false, Option, none, some, List, [], ◌∷◌, get_elem?, set, ◌++◌,
}
use esp_smoltcp.Types.{EspErr, fail}
use esp_smoltcp.Stack.Glue.{Glue}
use esp_smoltcp.Core.Outcome.{Outcome, value, stop, panic, hang}
use esp_smoltcp.Core.Device.{TxPool}
use esp_smoltcp.Core.Crate.{Crate}
use esp_smoltcp.Core.Ctx.{IfaceCtx, ctx_poll, iface_rx, set_link_up, mcast_join, mcast_leave}
use esp_smoltcp.Core.Ctx.Query.{
  iface_poll_delay_us, iface_has_ip, iface_socket_count, iface_get_ipv4, iface_get_ipv6,
  iface_get_gw, iface_get_netmask,
}
use esp_smoltcp.Core.Ctx.Sock.{
  Ctx, tcp_open, connect_tcp, listen_tcp, send_tcp, recv_tcp, tcp_is_active, tcp_is_connected,
  tcp_recv_queue, tcp_send_capacity, close_tcp, udp_open, sendto_udp, recvfrom_udp, close_udp,
  Received,
}

-- The Ethernet driver, esp_timer_get_time, esp_random, the FreeRTOS clock.
pub record Board : Type 1 where
  pub Driver : Type 0
  pub transmit : List ℕ → Driver → EspErr × Driver
  pub now_us : Driver → ℕ
  pub random : Driver → ℕ × Driver
  pub ticks : Driver → ℕ
  pub ms_to_ticks : ℕ → ℕ

-- The contexts that smoltcp_iface_new made, by handle, the pool of transmit buffers that they
-- share, and the board.
pub record Machine (crate : Crate) (D : Type 0) : Type 0 where
  pub ctxs : List (IfaceCtx crate)
  pub pool : TxPool
  pub driver : D

module _ (crate : Crate) (board : Board) where
  open board use {Driver, transmit, now_us, random, ticks, ms_to_ticks}

  abbrev pub Running : Type 0
  Running = Machine crate Driver

  abbrev pub ctx_at : Option ℕ → Running → Option (Ctx crate)
  ctx_at none m = none
  ctx_at (some h) m = get_elem? m.ctxs h

  abbrev pub put_ctx : Option ℕ → Option (Ctx crate) → Running → Running
  put_ctx (some h) (some x) m = record m { ctxs = set m.ctxs h x }
  put_ctx _ _ m = m

  -- After an abort there is no machine: a call answers `d`, which nothing reads.
  abbrev pub on_machine :
      {R : Type 0} → R → (Running → R × Option Running) → Option Running → R × Option Running
  on_machine d f none = (d, none)
  on_machine d f (some m) = f m

  abbrev pub finished :
      {R : Type 0} → R → Option ℕ → Running → Outcome (R × Option (Ctx crate)) → R × Option Running
  finished d h m (value (r, x)) = (r, some (put_ctx h x m))
  finished d h m stop = (d, none)
  finished d h m panic = (d, none)
  finished d h m hang = (d, none)

  -- A call on the context of a handle.
  abbrev pub on_ctx :
      {R : Type 0}
      → R
      → (Option (Ctx crate) → Outcome (R × Option (Ctx crate)))
      → Option ℕ
      → Option Running
      → R × Option Running
  on_ctx d f h = on_machine d (λ m. finished d h m (f (ctx_at h m)))

  -- A query, which changes nothing.
  abbrev pub ask_ctx : {R : Type 0} → R → (Option (Ctx crate) → R) → Option ℕ → Option Running → R
  ask_ctx d f h none = d
  ask_ctx d f h (some m) = f (ctx_at h m)

  -- A change of the context of a handle that is not NULL.
  abbrev pub change_ctx : (Ctx crate → Ctx crate) → Option ℕ → Option Running → Option Running
  change_ctx f h w =
      (on_ctx tt (λ x. elim x [ none ↦ value (tt, none) | some c ↦ value (tt, some (f c)) ]) h w).1

  -- The frames in the order of the calls of smoltcp_glue_tx_cb.
  abbrev pub in_order : List (ℕ × List ℕ) → List (ℕ × List ℕ)
  in_order [] = []
  in_order (f ∷ fs) = in_order fs ++ f ∷ []

  abbrev pub polled_machine :
      Option ℕ
      → Running
      → Outcome (IfaceCtx crate × TxPool × List (ℕ × List ℕ))
      → List (ℕ × List ℕ) × Option Running
  polled_machine h m (value (x, pool, sent)) =
      (in_order sent, some (put_ctx h (some x) (record m { pool = pool })))
  polled_machine h m stop = ([], none)
  polled_machine h m panic = ([], none)
  polled_machine h m hang = ([], none)

  abbrev pub poll_machine : Option ℕ → Running → List (ℕ × List ℕ) × Option Running
  poll_machine h m = elim (ctx_at h m) [
    | none ↦ ([], some m)
    | some x ↦ polled_machine h m (ctx_poll crate (now_us m.driver) m.pool x)
  ]

  abbrev pub connect_machine : Option ℕ → ℕ → ℕ → ℕ → Option Running → ℤ × Option Running
  connect_machine h id ip port = on_machine minus_one (λ m.
      let (rand, d) = random m.driver in
      finished minus_one h (record m { driver = d })
        (connect_tcp crate rand id ip port 0 (ctx_at h m)))

  abbrev pub transmit_machine : List ℕ → Running → EspErr × Option Running
  transmit_machine frame m =
      let (r, d) = transmit frame m.driver in (r, some (record m { driver = d }))

  abbrev pub result_of : {R : Type 0} → R → Outcome (R × Option (Ctx crate)) → R
  result_of d (value (r, x)) = r
  result_of d stop = d
  result_of d panic = d
  result_of d hang = d

  -- The driver of a running machine.
  abbrev pub on_driver : {R : Type 0} → R → (Driver → R) → Option Running → R
  on_driver d f none = d
  on_driver d f (some m) = f m.driver

  abbrev pub flat : ℤ × List ℕ → Option Running → ℤ × List ℕ × Option Running
  flat r w = (r.0, r.1, w)

  abbrev pub or_zero : Option ℕ → ℕ
  or_zero none = 0
  or_zero (some n) = n

  abbrev pub flat_from : Received crate × Option Running → ℤ × List ℕ × ℕ × ℕ × Option Running
  flat_from r = (r.0.0, r.0.1, or_zero r.0.2, or_zero r.0.3, r.1)

  -- The C code asks for no local port; what is not stored in the sender's address reads as 0, its value before the call.
  abbrev pub core_glue : Glue
  core_glue = record {
    World = Option Running;
    iface_rx = λ h frame. change_ctx (iface_rx crate frame) h;
    iface_poll = λ h. on_machine [] (poll_machine h);
    poll_delay_us = λ h w. ask_ctx minus_one (iface_poll_delay_us crate (on_driver 0 now_us w)) h w;
    set_link_up = λ h up. change_ctx (set_link_up crate up) h;
    has_ip = ask_ctx false (iface_has_ip crate);
    iface_ipv4 = ask_ctx 0 (iface_get_ipv4 crate);
    iface_gw = ask_ctx 0 (iface_get_gw crate);
    iface_netmask = ask_ctx 0 (iface_get_netmask crate);
    iface_ipv6 = ask_ctx none (iface_get_ipv6 crate);
    socket_count = ask_ctx 0 (iface_socket_count crate);
    iface_mcast_join = λ h g. on_ctx minus_one (λ x. value (mcast_join crate g x)) h;
    iface_mcast_leave = λ h g. on_ctx minus_one (λ x. value (mcast_leave crate g x)) h;
    open_tcp = on_ctx 0 (λ x. value (tcp_open crate x));
    connect_tcp = connect_machine;
    listen_tcp = λ h id port. on_ctx minus_one (listen_tcp crate id port) h;
    send_tcp = λ h id buf. on_ctx minus_one (send_tcp crate id (some buf)) h;
    recv_tcp = λ h id cap w.
        let r = on_ctx (minus_one, []) (recv_tcp crate id (some cap)) h w in flat r.0 r.1;
    is_active = λ h id. ask_ctx false (λ x. result_of false (tcp_is_active crate id x)) h;
    is_connected = λ h id. ask_ctx false (λ x. result_of false (tcp_is_connected crate id x)) h;
    recv_queue = λ h id. ask_ctx 0 (λ x. result_of 0 (tcp_recv_queue crate id x)) h;
    send_capacity = λ h id. ask_ctx 0 (λ x. result_of 0 (tcp_send_capacity crate id x)) h;
    close_tcp = λ h id w. (on_ctx tt (close_tcp crate id) h w).1;
    open_udp = λ h port. on_ctx 0 (λ x. value (udp_open crate port x)) h;
    sendto_udp = λ h id buf ip port. on_ctx minus_one (sendto_udp crate id (some buf) ip port) h;
    recvfrom_udp = λ h id cap w.
        flat_from (on_ctx (minus_one, [], none, none) (recvfrom_udp crate id (some cap)) h w);
    close_udp = λ h id w. (on_ctx tt (close_udp crate id) h w).1;
    transmit = λ frame. on_machine fail (transmit_machine frame);
    ticks = on_driver 0 ticks;
    ms_to_ticks = ms_to_ticks;
  }
