-- ===== src/Linked.antt =====
-- The two components linked: the wrappers of components/esp_smoltcp_lwip_compat over the calls of
-- components/esp_smoltcp (include/esp_smoltcp_socket.h). Each blocking call gets the same fuel; a
-- call that runs out of it is given the result of a failed one.
pub mod Stream
mod Tests
use esp_smoltcp.Common.{ℕ, minus_one, Option, none, some, [], QueueApi}
use esp_smoltcp.Types.{timeout}
use esp_smoltcp.Net.{NetApi}
use esp_smoltcp.Stack.State.{put_world}
use esp_smoltcp.Stack.Glue.{Base, State}
use esp_smoltcp.Stack.Query.{get_ipv4}
use esp_smoltcp.Stack.Sock.{
  net_tcp_open, net_tcp_connect, net_tcp_listen, net_tcp_send, net_tcp_recv, net_tcp_close,
  net_tcp_is_connected, net_tcp_recv_queue, net_tcp_send_capacity, net_udp_open,
}
use esp_smoltcp.Stack.Datagram.{
  net_udp_sendto, net_udp_recvfrom, net_udp_close, net_mcast_join, net_mcast_leave,
}
use esp_smoltcp.Compat.State.{Msg, Config}
use esp_smoltcp.Compat.Env.{Env}

-- A result, or that of a failed call.
abbrev pub or_failed {ℓ} : {R : Type ℓ} → Option R → R → R
or_failed none d = d
or_failed (some r) d = r

module _ (base : Base) (fuel : ℕ) where
  abbrev pub stack_api : NetApi
  stack_api = record {
    Net = State base;
    tcp_open = net_tcp_open base;
    tcp_connect =
        λ sock ip port ms s. or_failed (net_tcp_connect base fuel sock ip port ms s) (timeout, s);
    tcp_listen = net_tcp_listen base;
    tcp_send = λ sock buf ms s. or_failed (net_tcp_send base fuel sock buf ms s) (minus_one, s);
    tcp_recv =
        λ sock room ms s. or_failed (net_tcp_recv base fuel sock room ms s) (minus_one, [], s);
    tcp_close = λ sock s. (net_tcp_close base sock s).1;
    tcp_is_connected = net_tcp_is_connected base;
    tcp_recv_queue = net_tcp_recv_queue base;
    tcp_send_capacity = net_tcp_send_capacity base;
    udp_open = net_udp_open base;
    udp_sendto = net_udp_sendto base;
    udp_recvfrom = λ sock room ms s.
        or_failed (net_udp_recvfrom base fuel sock room ms s) (minus_one, [], 0, 0, s);
    udp_close = λ sock s. (net_udp_close base sock s).1;
    mcast_join = net_mcast_join base;
    mcast_leave = net_mcast_leave base;
    get_ipv4 = λ iface s. get_ipv4 base iface s;
    tick_count = λ s. base.ticks s.world;
    delay = base.sleep;
  }

  abbrev pub linked : Config → QueueApi Msg → Env
  linked config queue = record { config = config; queue = queue; api = stack_api }
