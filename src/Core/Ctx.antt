-- ===== src/Core/Ctx.antt =====
-- components/esp_smoltcp_glue/src/lib.rs: IfaceCtx, what the glue keeps of an interface, and the
-- calls that configure and poll it. A handle is `none` for NULL.
pub mod Query
pub mod Sock
pub mod Calls
pub mod Agrees
use Prim.Native.Nat.{bit_xor}
use esp_smoltcp.Common.{
  ℕ, ◌+◌, ◌-◌, ◌*◌, ◌%◌, ◌^◌, ℤ, pos, minus_one, Bool, true, false, Option, none, some, List, [],
  ◌∷◌, ltb, ◌==◌, if◌then◌else◌, get_or, is_some,
}
use esp_smoltcp.Types.{u32_mod}
use esp_smoltcp.Compat.Inet.{bytes_of, from_be_bytes}
use esp_smoltcp.Core.Outcome.{Outcome, value, panic, ◌>>=◌}
use esp_smoltcp.Core.Device.{TxPool, EspDevice, new_device, push_rx, run_calls}
use esp_smoltcp.Core.Crate.{
  Crate, Cidr, IpCidr, ipv4, ipv6, DhcpEvent, configured, deconfigured, dhcp_socket,
}

-- `(!0u32) << (32 - prefix)`, for a prefix of 32 at most.
unfoldable pub cidr_to_mask : ℕ → ℕ
cidr_to_mask prefix = if prefix == 0 then 0 else (u32_mod - 1) * 2 ^ (32 - prefix) % u32_mod

-- `to_be` and `u32::from_le_bytes`, on a little-endian machine
abbrev pub to_be : ℕ → ℕ
to_be v = from_be_bytes (bytes_of v)

abbrev pub from_le_bytes : List ℕ → ℕ
from_le_bytes b =
    get_or b 0 0 + get_or b 1 0 * 2 ^ 8 + get_or b 2 0 * 2 ^ 16 + get_or b 3 0 * 2 ^ 24

abbrev pub ipv4_from_be : ℕ → List ℕ
ipv4_from_be be = bytes_of be

abbrev pub ipv4_to_be : List ℕ → ℕ
ipv4_to_be octets = from_le_bytes octets

-- `addrs.retain(|a| !matches!(a, IpCidr::Ipv4(_)))`
unfoldable pub without_ipv4 : List IpCidr → List IpCidr
without_ipv4 [] = []
without_ipv4 (ipv4 c ∷ cs) = without_ipv4 cs
without_ipv4 (ipv6 c ∷ cs) = ipv6 c ∷ without_ipv4 cs

-- The link-local address of a MAC address.
abbrev pub link_local : List ℕ → IpCidr
link_local mac = ipv6 (record {
  octets =
      0xFE
      ∷ 0x80
      ∷ 0
      ∷ 0
      ∷ 0
      ∷ 0
      ∷ 0
      ∷ 0
      ∷ bit_xor (get_or mac 0 0) 2
      ∷ get_or mac 1 0
      ∷ get_or mac 2 0
      ∷ 0xFF
      ∷ 0xFE
      ∷ get_or mac 3 0
      ∷ get_or mac 4 0
      ∷ get_or mac 5 0
      ∷ [];
  prefix = 64;
})

module _ (crate : Crate) where
  open crate use {
    Interface, Sockets, Handle, new_interface, poll, ipv4_addr, update_ip_addrs, push_addr,
    add_default_ipv4_route, remove_default_ipv4_route, no_sockets, add, dhcp_poll, join_group,
    leave_group,
  }

  pub record IfaceCtx : Type 0 where
    pub iface_id : ℕ
    pub dev : EspDevice
    pub iface : Interface
    pub sockets : Sockets
    pub dhcp : Option Handle
    pub has_ip : Bool
    pub netmask_be : ℕ
    pub gateway_be : ℕ
    -- The BTreeMap, each id once.
    pub handles : List (ℕ × Handle)
    pub next_id : ℕ

  unfoldable pub new_ctx : ℕ → List ℕ → IfaceCtx
  new_ctx id mac = record {
    iface_id = id;
    dev = new_device id;
    iface = update_ip_addrs (push_addr (link_local mac)) (new_interface mac);
    sockets = no_sockets;
    dhcp = none;
    has_ip = false;
    netmask_be = 0;
    gateway_be = 0;
    handles = [];
    next_id = 1;
  }

  unfoldable pub replace_ipv4 : Cidr → Interface → Interface
  replace_ipv4 cidr i = update_ip_addrs (λ cs. push_addr (ipv4 cidr) (without_ipv4 cs)) i

  unfoldable pub on_lease : Cidr → Option (List ℕ) → IfaceCtx → IfaceCtx
  on_lease cidr router x =
      let i = replace_ipv4 cidr x.iface in
      let y = record x { netmask_be = to_be (cidr_to_mask cidr.prefix); has_ip = true } in
      elim router [
        | some gw ↦ record y { iface = add_default_ipv4_route gw i; gateway_be = ipv4_to_be gw }
        | none ↦ record y { iface = i; gateway_be = 0 }
      ]

  unfoldable pub on_dhcp : Option DhcpEvent → IfaceCtx → IfaceCtx
  on_dhcp none x = x
  on_dhcp (some (configured cidr router)) x = on_lease cidr router x
  on_dhcp (some deconfigured) x = record x {
    iface = remove_default_ipv4_route (update_ip_addrs without_ipv4 x.iface);
    netmask_be = 0;
    gateway_be = 0;
    has_ip = false;
  }

  -- The end of `IfaceCtx::poll`.
  unfoldable pub after_poll : IfaceCtx → IfaceCtx
  after_poll x = elim x.dhcp [
    | some dh ↦
        let (event, sockets) = dhcp_poll dh x.sockets in
        on_dhcp event (record x { sockets = sockets })
    | none ↦ record x { has_ip = is_some (ipv4_addr x.iface) }
  ]

  -- `IfaceCtx::poll` at the time `now`, over the pool that all interfaces share, and the frames that
  -- smoltcp_glue_tx_cb was called with, the last first.
  unfoldable pub ctx_poll : ℕ → TxPool → IfaceCtx → Outcome (IfaceCtx × TxPool × List (ℕ × List ℕ))
  ctx_poll now pool x = do
    r ← run_calls (poll now x.iface x.sockets) (record { dev = x.dev; pool = pool; sent = [] })
    value (
      after_poll (record x { iface = r.0.0; sockets = r.0.1; dev = r.1.dev }),
      r.1.pool,
      r.1.sent,
    )

  unfoldable pub iface_rx : List ℕ → IfaceCtx → IfaceCtx
  iface_rx frame x = record x { dev = push_rx frame x.dev }

  unfoldable pub set_link_up : Bool → IfaceCtx → IfaceCtx
  set_link_up up x = record x { dev = record x.dev { link_up = up } }

  -- smoltcp_iface_set_static; `Ipv4Cidr::new` panics on a prefix longer than 32.
  unfoldable pub set_static : ℕ → ℕ → ℕ → IfaceCtx → Outcome IfaceCtx
  set_static ipv4_be prefix_len gw_be x =
      let prefix = prefix_len % 256 in
      let i = replace_ipv4 (record { octets = ipv4_from_be ipv4_be; prefix = prefix }) x.iface in
      let y = record x { dhcp = none; netmask_be = to_be (cidr_to_mask prefix); has_ip = true } in
      if ltb 32 prefix
      then panic
      else if gw_be == 0
      then value (record y { iface = i })
      else value
          (record y { iface = add_default_ipv4_route (ipv4_from_be gw_be) i; gateway_be = gw_be })

  unfoldable pub enable_dhcp : IfaceCtx → IfaceCtx
  enable_dhcp x = elim x.dhcp [
    | some _ ↦ x
    | none ↦
        let (dh, sockets) = add dhcp_socket x.sockets in
        record x { sockets = sockets; dhcp = some dh }
  ]

  -- `Ok(_) => 0, Err(_) => -1`
  abbrev pub code_of : Bool → ℤ
  code_of true = pos 0
  code_of false = minus_one

  unfoldable pub mcast_join : ℕ → Option IfaceCtx → ℤ × Option IfaceCtx
  mcast_join group_be none = (minus_one, none)
  mcast_join group_be (some x) =
      let (ok, i) = join_group (ipv4_from_be group_be) x.iface in
      (code_of ok, some (record x { iface = i }))

  unfoldable pub mcast_leave : ℕ → Option IfaceCtx → ℤ × Option IfaceCtx
  mcast_leave group_be none = (minus_one, none)
  mcast_leave group_be (some x) =
      let (ok, i) = leave_group (ipv4_from_be group_be) x.iface in
      (code_of ok, some (record x { iface = i }))
