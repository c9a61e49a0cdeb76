-- ===== src/Core/Ctx/Calls.antt =====
-- components/esp_smoltcp_glue/src/lib.rs and src/dns.rs: the calls that change an interface's context
-- but neither poll it for the C side nor configure it.
pub mod Same
use esp_smoltcp.Common.{ℕ, ℤ, ◌≡◌, Bool, Option, some, List}
use esp_smoltcp.Compat.Inet.{Text}
use esp_smoltcp.Core.Outcome.{value}
use esp_smoltcp.Core.Device.{TxPool}
use esp_smoltcp.Core.Crate.{Crate}
use esp_smoltcp.Core.Ctx.{IfaceCtx, iface_rx, set_link_up, mcast_join, mcast_leave}
use esp_smoltcp.Core.Ctx.Sock.{
  tcp_open, connect_tcp, listen_tcp, send_tcp, recv_tcp, close_tcp, udp_open, sendto_udp,
  recvfrom_udp, close_udp, Received,
}
use esp_smoltcp.Core.Resolve.{Resolved, smoltcp_resolve}

module _ (crate : Crate) where
  -- One call, from the context before it to that after it.
  pub data Call : IfaceCtx crate → IfaceCtx crate → Type 0 where
    received : (frame : List ℕ) (x : IfaceCtx crate) → Call x (iface_rx crate frame x)
    linked : (up : Bool) (x : IfaceCtx crate) → Call x (set_link_up crate up x)
    joined :
        (group : ℕ) (r : ℤ) (x y : IfaceCtx crate)
        → mcast_join crate group (some x) ≡ (r, some y)
        → Call x y
    left :
        (group : ℕ) (r : ℤ) (x y : IfaceCtx crate)
        → mcast_leave crate group (some x) ≡ (r, some y)
        → Call x y
    opened_tcp : (id : ℕ) (x y : IfaceCtx crate) → tcp_open crate (some x) ≡ (id, some y) → Call x y
    opened_udp :
        (port id : ℕ) (x y : IfaceCtx crate)
        → udp_open crate port (some x) ≡ (id, some y)
        → Call x y
    connects :
        (rand id dst port local : ℕ) (r : ℤ) (x y : IfaceCtx crate)
        → connect_tcp crate rand id dst port local (some x) ≡ value (r, some y)
        → Call x y
    listens :
        (id port : ℕ) (r : ℤ) (x y : IfaceCtx crate)
        → listen_tcp crate id port (some x) ≡ value (r, some y)
        → Call x y
    sends :
        (id : ℕ) (buf : Option (List ℕ)) (r : ℤ) (x y : IfaceCtx crate)
        → send_tcp crate id buf (some x) ≡ value (r, some y)
        → Call x y
    recvs :
        (id : ℕ) (cap : Option ℕ) (r : ℤ × List ℕ) (x y : IfaceCtx crate)
        → recv_tcp crate id cap (some x) ≡ value (r, some y)
        → Call x y
    closes :
        (id : ℕ) (x y : IfaceCtx crate)
        → close_tcp crate id (some x) ≡ value (tt, some y)
        → Call x y
    sends_to :
        (id : ℕ) (buf : Option (List ℕ)) (dst port : ℕ) (r : ℤ) (x y : IfaceCtx crate)
        → sendto_udp crate id buf dst port (some x) ≡ value (r, some y)
        → Call x y
    recvs_from :
        (id : ℕ) (cap : Option ℕ) (r : Received crate) (x y : IfaceCtx crate)
        → recvfrom_udp crate id cap (some x) ≡ value (r, some y)
        → Call x y
    closes_udp :
        (id : ℕ) (x y : IfaceCtx crate)
        → close_udp crate id (some x) ≡ value (tt, some y)
        → Call x y
    resolves :
        (fuel : ℕ) (clock : ℕ → ℕ) (id_rand port_rand : ℕ) (name : Text) (server timeout_ms : ℕ)
        (pool : TxPool) (x : IfaceCtx crate) (r : Resolved crate)
        → smoltcp_resolve crate fuel clock id_rand port_rand name server timeout_ms x pool ≡ value r
        → Call x r.ctx
