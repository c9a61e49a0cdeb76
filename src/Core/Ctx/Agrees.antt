-- ===== src/Core/Ctx/Agrees.antt =====
-- components/esp_smoltcp_glue/src/lib.rs: the addresses of an interface and what IfaceCtx keeps of
-- them, over any sequence of calls.
use esp_smoltcp.Common.{
  ℕ, ◌≡◌, ◌≤◌, refl, sym, ◌∙◌, ap, inl, inr, true, false, Option, none, some, List, [], ◌∷◌,
  Bool-cases, Option-cases, ltb, ◌==◌, arith, is_some, ◌%◌,
}
use esp_smoltcp.Core.Outcome.{value, then_inverse, value_eq}
use esp_smoltcp.Core.Device.{TxPool}
use esp_smoltcp.Core.Crate.{Crate, Cidr, ipv4, DhcpEvent, configured, deconfigured, first_ipv4}
use esp_smoltcp.Core.Ctx.Calls.{Call}
use esp_smoltcp.Core.Ctx.Calls.Same.{Call-Same}
use esp_smoltcp.Core.Ctx.{
  IfaceCtx, to_be, cidr_to_mask, link_local, without_ipv4, new_ctx, replace_ipv4, on_lease, on_dhcp,
  after_poll, ctx_poll, set_static, enable_dhcp, ipv4_from_be,
}

module _ (crate : Crate) where
  open crate use {ip_addrs, Interface, add_default_ipv4_route}

  -- The contexts of an interface with the MAC address `mac`.
  pub data Reached (mac : List ℕ) : IfaceCtx crate → Type 0 where
    start : (id : ℕ) → Reached mac (new_ctx crate id mac)
    polled :
        (now : ℕ) (pool : TxPool) (x y : IfaceCtx crate) (out : TxPool × List (ℕ × List ℕ))
        → Reached mac x
        → ctx_poll crate now pool x ≡ value (y, out.0, out.1)
        → Reached mac y
    static :
        (ip prefix gw : ℕ) (x y : IfaceCtx crate)
        → Reached mac x
        → set_static crate ip prefix gw x ≡ value y
        → Reached mac y
    dhcp : (x : IfaceCtx crate) → Reached mac x → Reached mac (enable_dhcp crate x)
    called : (x y : IfaceCtx crate) → Reached mac x → Call crate x y → Reached mac y

  -- The link-local address is the first. There is no other, `has_ip` is false and the mask 0; or one
  -- IPv4 address follows, `has_ip` is true and the mask is that of its prefix.
  pub data Agrees (mac : List ℕ) (x : IfaceCtx crate) : Type 0 where
    without :
        ip_addrs x.iface ≡ link_local mac ∷ [] → x.has_ip ≡ false → x.netmask_be ≡ 0 → Agrees mac x
    with_ipv4 :
        (cidr : Cidr)
        → ip_addrs x.iface ≡ link_local mac ∷ ipv4 cidr ∷ []
        → x.has_ip ≡ true
        → x.netmask_be ≡ to_be (cidr_to_mask cidr.prefix)
        → Agrees mac x

  -- Without its IPv4 addresses, an interface keeps the link-local one.
  Based : List ℕ → Interface → Type 0
  Based mac i = without_ipv4 (ip_addrs i) ≡ link_local mac ∷ []

  Agrees-Based : (mac : List ℕ) (x : IfaceCtx crate) → Agrees mac x → Based mac x.iface
  unfolding Based without_ipv4
  Agrees-Based mac x (without e h m) = rw e refl
  Agrees-Based mac x (with_ipv4 cidr e h m) = rw e refl

  addrs-replace_ipv4 :
      (mac : List ℕ) (cidr : Cidr) (i : Interface)
      → 2 ≤ crate.addr_count
      → Based mac i
      → ip_addrs (replace_ipv4 crate cidr i) ≡ link_local mac ∷ ipv4 cidr ∷ []
  unfolding Based replace_ipv4
  addrs-replace_ipv4 mac cidr i room base =
      crate.addrs_update _ i
      ∙ ap (crate.push_addr (ipv4 cidr)) base
      ∙ crate.push_room (ipv4 cidr) (link_local mac ∷ []) (omega arith)

  on_dhcp-Agrees :
      (mac : List ℕ) (event : Option DhcpEvent) (x : IfaceCtx crate)
      → 2 ≤ crate.addr_count
      → Agrees mac x
      → Agrees mac (on_dhcp crate event x)
  unfolding on_dhcp on_lease Based
  on_dhcp-Agrees mac none x room a = a
  on_dhcp-Agrees mac (some deconfigured) x room a =
      without
        (crate.addrs_remove_route _
          ∙ crate.addrs_update without_ipv4 x.iface
          ∙ Agrees-Based mac x a)
        refl refl
  on_dhcp-Agrees mac (some (configured cidr none)) x room a =
      with_ipv4 cidr (addrs-replace_ipv4 mac cidr x.iface room (Agrees-Based mac x a)) refl refl
  on_dhcp-Agrees mac (some (configured cidr (some gw))) x room a =
      with_ipv4 cidr
        (crate.addrs_add_route gw _
          ∙ addrs-replace_ipv4 mac cidr x.iface room (Agrees-Based mac x a))
        refl refl

  -- The fields that the record is about are those of another context.
  same-Agrees :
      (mac : List ℕ) (x y : IfaceCtx crate)
      → ip_addrs y.iface ≡ ip_addrs x.iface
      → y.has_ip ≡ x.has_ip
      → y.netmask_be ≡ x.netmask_be
      → Agrees mac x
      → Agrees mac y
  same-Agrees mac x y i h m (without e f g) = without (i ∙ e) (h ∙ f) (m ∙ g)
  same-Agrees mac x y i h m (with_ipv4 cidr e f g) = with_ipv4 cidr (i ∙ e) (h ∙ f) (m ∙ g)

  -- Without DHCP, `has_ip` is read off the addresses.
  refreshed-Agrees :
      (mac : List ℕ) (x : IfaceCtx crate)
      → Agrees mac x
      → Agrees mac (record x { has_ip = is_some (crate.ipv4_addr x.iface) })
  refreshed-Agrees mac x (without e f g) =
      without e (ap is_some (crate.addrs_first x.iface ∙ ap first_ipv4 e)) g
  refreshed-Agrees mac x (with_ipv4 cidr e f g) =
      with_ipv4 cidr e (ap is_some (crate.addrs_first x.iface ∙ ap first_ipv4 e)) g

  after_poll_static :
      (x : IfaceCtx crate)
      → x.dhcp ≡ none
      → after_poll crate x ≡ record x { has_ip = is_some (crate.ipv4_addr x.iface) }
  unfolding after_poll
  after_poll_static x e = ground arith

  after_poll_dhcp :
      (x : IfaceCtx crate) (dh : crate.Handle)
      → x.dhcp ≡ some dh
      → after_poll crate x
        ≡ on_dhcp crate
            (crate.dhcp_poll dh x.sockets).0
            (record x { sockets = (crate.dhcp_poll dh x.sockets).1 })
  unfolding after_poll
  after_poll_dhcp x dh e = ground arith

  after_poll-Agrees :
      (mac : List ℕ) (x : IfaceCtx crate)
      → 2 ≤ crate.addr_count
      → Agrees mac x
      → Agrees mac (after_poll crate x)
  after_poll-Agrees mac x room a = elim (Option-cases x.dhcp) [
    | inl e ↦ rw (after_poll_static x e) (refreshed-Agrees mac x a)
    | inr (dh, e) ↦
        rw (after_poll_dhcp x dh e)
          (on_dhcp-Agrees mac _ _ room (same-Agrees mac x _ refl refl refl a))
  ]

  ctx_poll-Agrees :
      (mac : List ℕ) (now : ℕ) (pool : TxPool) (x y : IfaceCtx crate)
      (out : TxPool × List (ℕ × List ℕ))
      → 2 ≤ crate.addr_count
      → Agrees mac x
      → ctx_poll crate now pool x ≡ value (y, out.0, out.1)
      → Agrees mac y
  unfolding ctx_poll
  ctx_poll-Agrees mac now pool x y out room a e =
      let (r, ran, f) = then_inverse _ _ _ e in
      let same = crate.addrs_poll now x.iface r.0.0 x.sockets r.0.1 _ r.1 ran in
      rw (← ap (λ t. t.0) (value_eq f))
        (after_poll-Agrees mac _ room (same-Agrees mac x _ same refl refl a))

  set_static_kept :
      (ip prefix gw : ℕ) (x : IfaceCtx crate)
      → ltb 32 (prefix % 256) ≡ false
      → (gw == 0) ≡ true
      → set_static crate ip prefix gw x
        ≡ value (record x {
          dhcp = none;
          netmask_be = to_be (cidr_to_mask (prefix % 256));
          has_ip = true;
          iface =
              replace_ipv4 crate
                (record { octets = ipv4_from_be ip; prefix = prefix % 256 })
                x.iface;
        })
  unfolding set_static
  set_static_kept ip prefix gw x short z = rw (short, set_static) (rw z refl)

  set_static_routed :
      (ip prefix gw : ℕ) (x : IfaceCtx crate)
      → ltb 32 (prefix % 256) ≡ false
      → (gw == 0) ≡ false
      → set_static crate ip prefix gw x
        ≡ value (record x {
          dhcp = none;
          netmask_be = to_be (cidr_to_mask (prefix % 256));
          has_ip = true;
          iface = add_default_ipv4_route (ipv4_from_be gw) (
              replace_ipv4 crate
                (record { octets = ipv4_from_be ip; prefix = prefix % 256 })
                x.iface);
          gateway_be = gw;
        })
  unfolding set_static
  set_static_routed ip prefix gw x short z = rw (short, set_static) (rw z refl)

  set_static-Agrees :
      (mac : List ℕ) (ip prefix gw : ℕ) (x y : IfaceCtx crate)
      → 2 ≤ crate.addr_count
      → Agrees mac x
      → set_static crate ip prefix gw x ≡ value y
      → Agrees mac y
  unfolding set_static
  set_static-Agrees mac ip prefix gw x y room a e =
      let cidr : Cidr = record { octets = ipv4_from_be ip; prefix = prefix % 256 } in
      let new = addrs-replace_ipv4 mac cidr x.iface room (Agrees-Based mac x a) in
      elim (Bool-cases (ltb 32 (prefix % 256))) [
        | inl long ↦ absurd (ground (arith, e))
        | inr short ↦ elim (Bool-cases (gw == 0)) [
          | inl z ↦
              rw (← value_eq (sym (set_static_kept ip prefix gw x short z) ∙ e))
                (with_ipv4 cidr new refl refl)
          | inr z ↦
              rw (← value_eq (sym (set_static_routed ip prefix gw x short z) ∙ e))
                (with_ipv4 cidr (crate.addrs_add_route _ _ ∙ new) refl refl)
        ]
      ]

  enable_dhcp-Agrees :
      (mac : List ℕ) (x : IfaceCtx crate) → Agrees mac x → Agrees mac (enable_dhcp crate x)
  unfolding enable_dhcp
  enable_dhcp-Agrees mac x a = elim (Option-cases x.dhcp) [
    | inl e ↦ same-Agrees mac x _ (ground arith) (ground arith) (ground arith) a
    | inr (dh, e) ↦ same-Agrees mac x _ (ground arith) (ground arith) (ground arith) a
  ]

  -- After any sequence of polls, static configurations, starts of DHCP, frames received, changes of
  -- the link, joins and leaves of a group, calls on sockets and name resolutions that do not panic, on
  -- an interface with room for two addresses, its first address is the link-local one of its MAC
  -- address; it has one IPv4 address where `has_ip` is true, with the mask of its prefix, and none
  -- where `has_ip` is false, with the mask 0.
  pub Reached-Agrees :
      (mac : List ℕ) (x : IfaceCtx crate) → 2 ≤ crate.addr_count → Reached mac x → Agrees mac x
  unfolding new_ctx
  Reached-Agrees mac _ room (start id) =
      without
        (crate.addrs_update _ _
          ∙ ap (crate.push_addr (link_local mac)) (crate.addrs_new mac)
          ∙ crate.push_room (link_local mac) [] (omega arith))
        refl refl
  Reached-Agrees mac _ room (polled now pool x y out r e) =
      ctx_poll-Agrees mac now pool x y out room (Reached-Agrees mac x room r) e
  Reached-Agrees mac _ room (static ip prefix gw x y r e) =
      set_static-Agrees mac ip prefix gw x y room (Reached-Agrees mac x room r) e
  Reached-Agrees mac _ room (dhcp x r) = enable_dhcp-Agrees mac x (Reached-Agrees mac x room r)
  Reached-Agrees mac _ room (called x y r c) =
      let s = Call-Same crate x y c in
      same-Agrees mac x y s.addrs s.has_ip s.netmask (Reached-Agrees mac x room r)
