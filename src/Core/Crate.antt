-- ===== src/Core/Crate.antt =====
-- The smoltcp crate, which is not in the repository: the interface, the set of sockets and the
-- calls that components/esp_smoltcp_glue/src/lib.rs makes of them, with what their documentation
-- says of an interface's addresses. An IPv4 address is the list of its octets.
use esp_smoltcp.Common.{ℕ, ◌≡◌, Bool, Option, List, [], ◌∷◌, ◌++◌, none, some, ◌<◌, length}
use esp_smoltcp.Core.Outcome.{value}
use esp_smoltcp.Core.Device.{Phy, Calls, run_calls}

-- An address with the length of its prefix.
pub record Cidr : Type 0 where
  pub octets : List ℕ
  pub prefix : ℕ

pub data IpCidr : Type 0 where
  ipv4 : Cidr → IpCidr
  ipv6 : Cidr → IpCidr

abbrev pub first_ipv4 : List IpCidr → Option (List ℕ)
first_ipv4 [] = none
first_ipv4 (ipv4 c ∷ cs) = some c.octets
first_ipv4 (ipv6 c ∷ cs) = first_ipv4 cs

pub data DhcpEvent : Type 0 where
  -- The address and the router of the lease.
  configured : Cidr → Option (List ℕ) → DhcpEvent
  deconfigured : DhcpEvent

pub data SocketKind : Type 0 where
  dhcp_kind tcp_kind udp_kind : SocketKind

-- A socket that is not in the set yet: its buffers, or the port it is bound to, 0 for none.
pub data NewSocket : Type 0 where
  dhcp_socket : NewSocket
  tcp_socket : ℕ → ℕ → NewSocket
  udp_socket : ℕ → NewSocket
  -- A UDP socket bound to a port, with a datagram queued for port 53 of an address.
  query_socket : ℕ → List ℕ → List ℕ → NewSocket

pub record Crate : Type 1 where
  pub Interface : Type 0
  pub Sockets : Type 0
  pub Handle : Type 0
  pub new_interface : List ℕ → Interface
  pub poll : ℕ → Interface → Sockets → Calls (Interface × Sockets)
  pub poll_delay : ℕ → Interface → Sockets → Option ℕ
  pub ip_addrs : Interface → List IpCidr
  pub update_ip_addrs : (List IpCidr → List IpCidr) → Interface → Interface
  pub ipv4_addr : Interface → Option (List ℕ)
  -- The number of addresses that an interface has room for, and `push` on its list of addresses.
  pub addr_count : ℕ
  pub push_addr : IpCidr → List IpCidr → List IpCidr
  pub add_default_ipv4_route : List ℕ → Interface → Interface
  pub remove_default_ipv4_route : Interface → Interface
  pub join_group : List ℕ → Interface → Bool × Interface
  pub leave_group : List ℕ → Interface → Bool × Interface
  pub no_sockets : Sockets
  pub add : NewSocket → Sockets → Handle × Sockets
  pub remove : Handle → Sockets → Sockets
  pub kind_of : Handle → Sockets → SocketKind
  pub dhcp_poll : Handle → Sockets → Option DhcpEvent × Sockets
  -- Whether `udp::Socket::bind` takes the port.
  pub can_bind : ℕ → Bool
  -- Whether `udp::Socket::send_slice` queues a datagram for an address, on a new socket.
  pub can_send_to : List ℕ → List ℕ → Bool
  pub tcp_connect : Handle → List ℕ → ℕ → ℕ → Interface → Sockets → Bool × Interface × Sockets
  pub tcp_listen : Handle → ℕ → Sockets → Bool × Sockets
  -- The number of bytes taken, `none` for an error.
  pub tcp_send : Handle → List ℕ → Sockets → Option ℕ × Sockets
  pub tcp_recv : Handle → ℕ → Sockets → Option (List ℕ) × Sockets
  pub is_active : Handle → Sockets → Bool
  pub may_recv : Handle → Sockets → Bool
  pub may_send : Handle → Sockets → Bool
  pub can_send : Handle → Sockets → Bool
  pub recv_queue : Handle → Sockets → ℕ
  pub send_capacity : Handle → Sockets → ℕ
  pub send_queue : Handle → Sockets → ℕ
  pub close : Handle → Sockets → Sockets
  pub udp_send : Handle → List ℕ → List ℕ → ℕ → Sockets → Bool × Sockets
  -- The bytes, and the address and the port of the sender.
  pub udp_recv : Handle → ℕ → Sockets → Option (List ℕ × IpCidr × ℕ) × Sockets
  -- Only update_ip_addrs changes the addresses, and a new interface has none.
  pub addrs_new : (mac : List ℕ) → ip_addrs (new_interface mac) ≡ []
  pub addrs_update :
      (f : List IpCidr → List IpCidr) (i : Interface)
      → ip_addrs (update_ip_addrs f i) ≡ f (ip_addrs i)
  pub addrs_first : (i : Interface) → ipv4_addr i ≡ first_ipv4 (ip_addrs i)
  pub push_room :
      (c : IpCidr) (cs : List IpCidr) → length cs < addr_count → push_addr c cs ≡ cs ++ c ∷ []
  pub addrs_poll :
      (now : ℕ) (i i' : Interface) (s s' : Sockets) (p p' : Phy)
      → run_calls (poll now i s) p ≡ value ((i', s'), p')
      → ip_addrs i' ≡ ip_addrs i
  pub addrs_add_route :
      (gw : List ℕ) (i : Interface) → ip_addrs (add_default_ipv4_route gw i) ≡ ip_addrs i
  pub addrs_remove_route : (i : Interface) → ip_addrs (remove_default_ipv4_route i) ≡ ip_addrs i
  pub addrs_connect :
      (h : Handle) (dst : List ℕ) (port local : ℕ) (i : Interface) (s : Sockets)
      → ip_addrs (tcp_connect h dst port local i s).1 ≡ ip_addrs i
  pub addrs_join : (g : List ℕ) (i : Interface) → ip_addrs (join_group g i).1 ≡ ip_addrs i
  pub addrs_leave : (g : List ℕ) (i : Interface) → ip_addrs (leave_group g i).1 ≡ ip_addrs i
