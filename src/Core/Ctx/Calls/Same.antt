-- ===== src/Core/Ctx/Calls/Same.antt =====
-- components/esp_smoltcp_glue/src/lib.rs and src/dns.rs: these calls leave an interface's addresses.
use Prim.Native.Nat.{bit_and}
use esp_smoltcp.Common.{
  ◌==◌, ℕ, suc, zero, ℤ, ◌≡◌, refl, sym, ◌∙◌, ap, ◌&&◌, Option, none, some, List, inl, inr,
  Option-cases, Bool-cases, leb, arith,
}
use esp_smoltcp.Compat.Inet.{Text}
use esp_smoltcp.Core.Outcome.{value, then_inverse, value_eq}
use esp_smoltcp.Core.Device.{TxPool}
use esp_smoltcp.Core.Crate.{Crate, SocketKind, udp_socket}
use esp_smoltcp.Core.Ctx.{IfaceCtx, iface_rx, set_link_up, mcast_join, mcast_leave, ipv4_from_be}
use esp_smoltcp.Core.Ctx.Sock.{
  get_handle, on_socket, same_kind, tcp_open, connect_tcp, listen_tcp, send_tcp, recv_tcp,
  close_tcp, udp_open, sendto_udp, recvfrom_udp, close_udp, alloc_id, Received, dynamic_port,
}
use esp_smoltcp.Core.Dns.{build_query}
use esp_smoltcp.Core.Resolve.{
  Probe, probe, resolve_loop, Resolved, conclude, ask, smoltcp_resolve, parse_quad, read_reply,
}
use esp_smoltcp.Core.Ctx.Calls.{
  Call, received, linked, joined, left, opened_tcp, opened_udp, connects, listens, sends, recvs,
  closes, sends_to, recvs_from, closes_udp, resolves,
}

module _ (crate : Crate) where
  open crate use {ip_addrs, Handle}

  -- The addresses, and what is kept of them.
  pub record Same (x y : IfaceCtx crate) : Type 0 where
    pub addrs : ip_addrs y.iface ≡ ip_addrs x.iface
    pub has_ip : y.has_ip ≡ x.has_ip
    pub netmask : y.netmask_be ≡ x.netmask_be

  same : (x : IfaceCtx crate) → Same x x
  same x = record { addrs = refl; has_ip = refl; netmask = refl }

  on_socket-Same :
      {R : Type 0} (kind : SocketKind) (id : ℕ) (fail r : R)
      (body : Handle → IfaceCtx crate → R × IfaceCtx crate) (x y : IfaceCtx crate)
      → ((h : Handle) → Same x (body h x).1)
      → on_socket crate kind id fail body (some x) ≡ value (r, some y)
      → Same x y
  unfolding on_socket
  on_socket-Same kind id fail r body x y keeps e = elim (Option-cases (get_handle id x.handles)) [
    | inl g ↦ let z : x ≡ y = ground arith in rw (← z) (same x)
    | inr (h, g) ↦ elim (Bool-cases (same_kind (crate.kind_of h x.sockets) kind)) [
      | inl k ↦ let z : (body h x).1 ≡ y = ground arith in rw (← z) (keeps h)
      | inr k ↦ absurd (ground arith)
    ]
  ]

  some-Same : (x y z : IfaceCtx crate) → Same x z → Option.some z ≡ some y → Same x y
  some-Same x y z k e = let q : z ≡ y = ground arith in rw (← q) k

  probe_addrs :
      (now : ℕ) (h : Handle) (id : ℕ) (s : Probe crate) (r : Option (List ℕ) × Probe crate)
      → probe crate now h id s ≡ value r
      → ip_addrs r.1.iface ≡ ip_addrs s.iface
  unfolding probe
  probe_addrs now h id s r e =
      let (polled, ran, f) = then_inverse _ _ _ e in
      let (got, sockets) = crate.udp_recv h 512 polled.0.1 in
      let after : Probe crate = record { iface = polled.0.0; sockets = sockets; phy = polled.1 } in
      let (found, read, g) =
        then_inverse (read_reply (elim got [ none ↦ none | some (pkt, _, _) ↦ some pkt ]) id)
          (λ found. value (found, after)) r f in
      ap (λ (p : Option (List ℕ) × Probe crate). ip_addrs p.1.iface) (sym (value_eq g))
      ∙ crate.addrs_poll now s.iface polled.0.0 s.sockets polled.0.1 s.phy polled.1 ran

  resolve_loop_addrs :
      (n : ℕ) (clock : ℕ → ℕ) (t deadline : ℕ) (h : Handle) (id : ℕ) (s : Probe crate)
      (r : Option (List ℕ) × Probe crate)
      → resolve_loop crate n clock t deadline h id s ≡ value r
      → ip_addrs r.1.iface ≡ ip_addrs s.iface
  unfolding resolve_loop
  resolve_loop_addrs zero clock t deadline h id s r e = absurd (ground arith)
  resolve_loop_addrs (suc n) clock t deadline h id s r e =
      let ((got, u), ran, f) = then_inverse _ _ _ e in
      let here = probe_addrs (clock t) h id s (got, u) ran in
      elim (Option-cases got) [
        | inr (addr, g) ↦ let z : u ≡ r.1 = ground arith in rw (← z) here
        | inl g ↦ elim (Bool-cases (leb deadline (clock (suc t)))) [
          | inl late ↦ let z : u ≡ r.1 = ground arith in rw (← z) here
          | inr early ↦
              let again : resolve_loop crate n clock (suc (suc t)) deadline h id u ≡ value r =
                ground arith in
              resolve_loop_addrs n clock (suc (suc t)) deadline h id u r again ∙ here
        ]
      ]

  resolved-Same : (x : IfaceCtx crate) (r s : Resolved crate) → Same x s.ctx → s ≡ r → Same x r.ctx
  resolved-Same x r s k e = rw (← e) k

  ask-Same :
      (fuel : ℕ) (clock : ℕ → ℕ) (local id : ℕ) (query : List ℕ) (server timeout_ms : ℕ)
      (x : IfaceCtx crate) (pool : TxPool) (r : Resolved crate)
      → ask crate fuel clock local id query server timeout_ms x pool ≡ value r
      → Same x r.ctx
  unfolding ask conclude
  ask-Same fuel clock local id query server timeout_ms x pool r e =
      let (got, ran, f) = then_inverse _ _ _ e in
      resolved-Same x r _
        (record {
          addrs = resolve_loop_addrs fuel clock 1 _ _ id _ got ran;
          has_ip = refl;
          netmask = refl;
        })
        (value_eq f)

  smoltcp_resolve-Same :
      (fuel : ℕ) (clock : ℕ → ℕ) (id_rand port_rand : ℕ) (name : Text) (server timeout_ms : ℕ)
      (x : IfaceCtx crate) (pool : TxPool) (r : Resolved crate)
      → smoltcp_resolve crate fuel clock id_rand port_rand name server timeout_ms x pool ≡ value r
      → Same x r.ctx
  unfolding smoltcp_resolve
  smoltcp_resolve-Same fuel clock id_rand port_rand name server timeout_ms x pool r e =
      elim (Option-cases (parse_quad name)) [
        | inr (octets, q) ↦ let z : x ≡ r.ctx = ground arith in rw (← z) (same x)
        | inl q ↦ elim (Option-cases (build_query (bit_and id_rand 0xFFFF) name)) [
          | inl b ↦ let z : x ≡ r.ctx = ground arith in rw (← z) (same x)
          | inr (query, b) ↦
              elim (Bool-cases (
                crate.can_bind (dynamic_port port_rand)
                && crate.can_send_to query (ipv4_from_be server))) [
                  | inr cannot ↦ let z : x ≡ r.ctx = ground arith in rw (← z) (same x)
                  | inl can ↦
                      ask-Same fuel clock (dynamic_port port_rand) (bit_and id_rand 0xFFFF) query
                        server timeout_ms x pool r (ground arith)
                ]
        ]
      ]

  pub Call-Same : (x y : IfaceCtx crate) → Call crate x y → Same x y
  unfolding iface_rx set_link_up mcast_join mcast_leave tcp_open udp_open alloc_id connect_tcp
      listen_tcp send_tcp recv_tcp close_tcp sendto_udp recvfrom_udp close_udp
  Call-Same _ _ (received frame x) = record { addrs = refl; has_ip = refl; netmask = refl }
  Call-Same _ _ (linked up x) = record { addrs = refl; has_ip = refl; netmask = refl }
  Call-Same _ _ (joined group r x y e) =
      some-Same x y _ (record { addrs = crate.addrs_join _ _; has_ip = refl; netmask = refl })
        (ap (λ (p : ℤ × Option (IfaceCtx crate)). p.1) e)
  Call-Same _ _ (left group r x y e) =
      some-Same x y _ (record { addrs = crate.addrs_leave _ _; has_ip = refl; netmask = refl })
        (ap (λ (p : ℤ × Option (IfaceCtx crate)). p.1) e)
  Call-Same _ _ (opened_tcp id x y e) =
      some-Same x y _ (record { addrs = refl; has_ip = refl; netmask = refl })
        (ap (λ (p : ℕ × Option (IfaceCtx crate)). p.1) e)
  Call-Same _ _ (opened_udp port id x y e) =
      let (h, sockets) = crate.add (udp_socket port) x.sockets in
      let t : IfaceCtx crate = (alloc_id crate h (record x { sockets = sockets })).1 in
      elim (Bool-cases (port == 0)) [
        | inl z ↦
            some-Same x y t (record { addrs = refl; has_ip = refl; netmask = refl }) (ground arith)
        | inr nz ↦ elim (Bool-cases (crate.can_bind port)) [
          | inl b ↦
              some-Same x y t (record { addrs = refl; has_ip = refl; netmask = refl })
                (ground arith)
          | inr b ↦ some-Same x y x (same x) (ground arith)
        ]
      ]
  Call-Same _ _ (connects rand id dst port local r x y e) =
      on_socket-Same _ id _ r _ x y
        (λ h. record { addrs = crate.addrs_connect _ _ _ _ _ _; has_ip = refl; netmask = refl }) e
  Call-Same _ _ (listens id port r x y e) =
      on_socket-Same _ id _ r _ x y (λ h. record { addrs = refl; has_ip = refl; netmask = refl }) e
  Call-Same _ _ (sends id none r x y e) =
      some-Same x y x (same x) (ap (λ (p : ℤ × Option (IfaceCtx crate)). p.1) (value_eq e))
  Call-Same _ _ (sends id (some buf) r x y e) =
      on_socket-Same _ id _ r _ x y (λ h. record { addrs = refl; has_ip = refl; netmask = refl }) e
  Call-Same _ _ (recvs id none r x y e) =
      some-Same x y x (same x)
        (ap (λ (p : (ℤ × List ℕ) × Option (IfaceCtx crate)). p.1) (value_eq e))
  Call-Same _ _ (recvs id (some size) r x y e) =
      on_socket-Same _ id _ r _ x y (λ h. record { addrs = refl; has_ip = refl; netmask = refl }) e
  Call-Same _ _ (closes id x y e) =
      on_socket-Same _ id _ _ _ x y (λ h. record { addrs = refl; has_ip = refl; netmask = refl }) e
  Call-Same _ _ (sends_to id none dst port r x y e) =
      some-Same x y x (same x) (ap (λ (p : ℤ × Option (IfaceCtx crate)). p.1) (value_eq e))
  Call-Same _ _ (sends_to id (some buf) dst port r x y e) =
      on_socket-Same _ id _ r _ x y (λ h. record { addrs = refl; has_ip = refl; netmask = refl }) e
  Call-Same _ _ (recvs_from id none r x y e) =
      some-Same x y x (same x)
        (ap (λ (p : Received crate × Option (IfaceCtx crate)). p.1) (value_eq e))
  Call-Same _ _ (recvs_from id (some size) r x y e) =
      on_socket-Same _ id _ r _ x y (λ h. record { addrs = refl; has_ip = refl; netmask = refl }) e
  Call-Same _ _ (closes_udp id x y e) =
      on_socket-Same _ id _ _ _ x y (λ h. record { addrs = refl; has_ip = refl; netmask = refl }) e
  Call-Same _ _ (resolves fuel clock id_rand port_rand name server timeout_ms pool x r e) =
      smoltcp_resolve-Same fuel clock id_rand port_rand name server timeout_ms x pool r e
