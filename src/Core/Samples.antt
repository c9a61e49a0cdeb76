-- ===== src/Core/Samples.antt =====
-- A crate for the examples: an interface is the list of its addresses, and the set of sockets
-- remembers the kinds of the sockets added and the frames that a poll took in.
use esp_smoltcp.Common.{
  ℕ, ◌≡◌, refl, true, Option, none, some, List, [], ◌∷◌, ◌++◌, length, get_or, Option-cases, inl,
  inr, arith,
}
use esp_smoltcp.Compat.Inet.{Text}
use esp_smoltcp.Core.Dns.Wire.{ResourceRecord, pointer, written}
use esp_smoltcp.Core.Outcome.{value}
use esp_smoltcp.Core.Ctx.{IfaceCtx, new_ctx, link_local}
use esp_smoltcp.Core.Device.{Phy, Calls, finish, receives, drops, receive, use_token, run_calls}
use esp_smoltcp.Core.Crate.{
  Crate, ipv4, IpCidr, ipv6, first_ipv4, SocketKind, tcp_kind, udp_kind, dhcp_kind, NewSocket,
  dhcp_socket, tcp_socket, udp_socket, query_socket, configured,
}

pub record SimSockets : Type 0 where
  pub kinds : List SocketKind
  pub heard : List (List ℕ)

abbrev pub kind_sample : NewSocket → SocketKind
kind_sample dhcp_socket = dhcp_kind
kind_sample (tcp_socket rx tx) = tcp_kind
kind_sample (udp_socket port) = udp_kind
kind_sample (query_socket port query to) = udp_kind

abbrev pub add_sample : NewSocket → SimSockets → ℕ × SimSockets
add_sample n s = (length s.kinds, record s { kinds = s.kinds ++ kind_sample n ∷ [] })

-- A poll takes the frame in the inbox, where there is one, and drops the token.
abbrev pub poll_sample : List IpCidr → SimSockets → Calls (List IpCidr × SimSockets)
poll_sample i s =
    receives (finish (i, s)) (λ frame. drops)
      (λ frame. finish (i, record s { heard = frame ∷ s.heard }))

abbrev pub next_heard : List (List ℕ) → Option (List ℕ × IpCidr × ℕ)
next_heard [] = none
next_heard (frame ∷ rest) = some (frame, ipv6 (record { octets = []; prefix = 0 }), 53)

pub addrs_poll_sample :
    (i i' : List IpCidr) (s s' : SimSockets) (p p' : Phy)
    → run_calls (poll_sample i s) p ≡ value ((i', s'), p')
    → i' ≡ i
unfolding run_calls use_token
addrs_poll_sample i i' s s' p p' e = elim (Option-cases (receive p).0) [
  | inl n ↦ ground (arith, e)
  | inr ((frame, t), n) ↦ ground (arith, e)
]

abbrev pub crate_sample : Crate
crate_sample = record {
  Interface = List IpCidr;
  Sockets = SimSockets;
  Handle = ℕ;
  new_interface = λ mac. [];
  poll = λ now. poll_sample;
  poll_delay = λ now i s. some 1000;
  ip_addrs = λ i. i;
  update_ip_addrs = λ f i. f i;
  ipv4_addr = first_ipv4;
  addr_count = 2;
  push_addr = λ c cs. cs ++ c ∷ [];
  add_default_ipv4_route = λ gw i. i;
  remove_default_ipv4_route = λ i. i;
  join_group = λ g i. (true, i);
  leave_group = λ g i. (true, i);
  no_sockets = record { kinds = []; heard = [] };
  add = add_sample;
  remove = λ h s. s;
  kind_of = λ h s. get_or s.kinds h dhcp_kind;
  dhcp_poll = λ h s. (
    some (
        configured (record { octets = 10 ∷ 0 ∷ 0 ∷ 7 ∷ []; prefix = 24 })
          (some (10 ∷ 0 ∷ 0 ∷ 1 ∷ []))),
    s,
  );
  can_bind = λ port. true;
  can_send_to = λ query to. true;
  tcp_connect = λ h dst port local i s. (true, i, s);
  tcp_listen = λ h port s. (true, s);
  tcp_send = λ h buf s. (some (length buf), s);
  tcp_recv = λ h cap s. (some [], s);
  is_active = λ h s. true;
  may_recv = λ h s. true;
  may_send = λ h s. true;
  can_send = λ h s. true;
  recv_queue = λ h s. 0;
  send_capacity = λ h s. 100;
  send_queue = λ h s. 0;
  close = λ h s. s;
  udp_send = λ h buf to port s. (true, s);
  udp_recv = λ h cap s. (next_heard s.heard, record s { heard = [] });
  addrs_new = λ mac. refl;
  addrs_update = λ f i. refl;
  addrs_first = λ i. refl;
  push_room = λ c cs h. refl;
  addrs_poll = λ now. addrs_poll_sample;
  addrs_add_route = λ gw i. refl;
  addrs_remove_route = λ i. refl;
  addrs_connect = λ h dst port local i s. refl;
  addrs_join = λ g i. refl;
  addrs_leave = λ g i. refl;
}

-- "a.b"
abbrev pub name_sample : Text
name_sample = 97 ∷ 46 ∷ 98 ∷ []

abbrev pub query_sample : List ℕ
query_sample =
    18 ∷ 52 ∷ 1 ∷ 0 ∷ 0 ∷ 1 ∷ 0 ∷ 0 ∷ 0 ∷ 0 ∷ 0 ∷ 0 ∷ 1 ∷ 97 ∷ 1 ∷ 98 ∷ 0 ∷ 0 ∷ 1 ∷ 0 ∷ 1 ∷ []

-- The alias of the name, and the address of the alias.
abbrev pub records_sample : List ResourceRecord
records_sample =
    record {
      owner = pointer 0 12;
      rtype = 5;
      class = 1;
      ttl_high = 0;
      ttl_low = 60;
      rdata = 1 ∷ 99 ∷ 0 ∷ [];
    }
    ∷ record {
      owner = written ((99 ∷ []) ∷ []);
      rtype = 1;
      class = 1;
      ttl_high = 0;
      ttl_low = 60;
      rdata = 10 ∷ 0 ∷ 0 ∷ 7 ∷ [];
    }
    ∷ []

abbrev pub mac_sample : List ℕ
mac_sample = 2 ∷ 0 ∷ 0 ∷ 0 ∷ 0 ∷ 1 ∷ []

-- 192.168.1.7, a prefix of 24 and no gateway.
unfoldable pub ctx_static : IfaceCtx crate_sample
ctx_static = record (new_ctx crate_sample 0 mac_sample) {
  iface =
      link_local mac_sample ∷ ipv4 (record { octets = 192 ∷ 168 ∷ 1 ∷ 7 ∷ []; prefix = 24 }) ∷ [];
  has_ip = true;
  netmask_be = 16777215;
}
