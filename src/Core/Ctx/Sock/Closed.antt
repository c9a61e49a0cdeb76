-- ===== src/Core/Ctx/Sock/Closed.antt =====
-- components/esp_smoltcp_glue/src/lib.rs: the calls on an id that is not in the table.
use esp_smoltcp.Common.{ℕ, minus_one, ◌≡◌, refl, false, Option, none, some, List, []}
use esp_smoltcp.Core.Outcome.{value}
use esp_smoltcp.Core.Crate.{Crate, SocketKind}
use esp_smoltcp.Core.Ctx.Sock.{
  Ctx, get_handle, on_socket, connect_tcp, listen_tcp, send_tcp, recv_tcp, tcp_is_active,
  tcp_is_connected, tcp_recv_queue, tcp_send_capacity, close_tcp, sendto_udp, recvfrom_udp,
  close_udp,
}
use esp_smoltcp.Core.Ctx.Sock.Table.{close_tcp-Closes}

module _ (crate : Crate) where
  on_socket_unknown :
      {R : Type 0} (kind : SocketKind) (id : ℕ) (r : R)
      (body : crate.Handle → Ctx crate → R × Ctx crate) (x : Ctx crate)
      → get_handle id x.handles ≡ none
      → on_socket crate kind id r body (some x) ≡ value (r, some x)
  unfolding on_socket
  on_socket_unknown kind id r body x g = rw (g, on_socket) refl

  -- Each call fails on `id`, and changes nothing.
  pub record Rejects (id : ℕ) (x : Ctx crate) : Type 0 where
    pub connects :
        (rand dst port local : ℕ)
        → connect_tcp crate rand id dst port local (some x) ≡ value (minus_one, some x)
    pub listens : (port : ℕ) → listen_tcp crate id port (some x) ≡ value (minus_one, some x)
    pub sends : (buf : Option (List ℕ)) → send_tcp crate id buf (some x) ≡ value (minus_one, some x)
    pub recvs : (cap : Option ℕ) → recv_tcp crate id cap (some x) ≡ value ((minus_one, []), some x)
    pub active : tcp_is_active crate id (some x) ≡ value (false, some x)
    pub connected : tcp_is_connected crate id (some x) ≡ value (false, some x)
    pub queued : tcp_recv_queue crate id (some x) ≡ value (0, some x)
    pub room : tcp_send_capacity crate id (some x) ≡ value (0, some x)
    pub closes : close_tcp crate id (some x) ≡ value (tt, some x)
    pub sends_to :
        (buf : Option (List ℕ)) (dst port : ℕ)
        → sendto_udp crate id buf dst port (some x) ≡ value (minus_one, some x)
    pub recvs_from :
        (cap : Option ℕ)
        → recvfrom_udp crate id cap (some x) ≡ value ((minus_one, [], none, none), some x)
    pub closes_udp : close_udp crate id (some x) ≡ value (tt, some x)

  unknown-Rejects : (id : ℕ) (x : Ctx crate) → get_handle id x.handles ≡ none → Rejects id x
  unfolding connect_tcp listen_tcp send_tcp recv_tcp tcp_is_active tcp_is_connected tcp_recv_queue
      tcp_send_capacity close_tcp sendto_udp recvfrom_udp close_udp
  unknown-Rejects id x g = record {
    connects = λ rand dst port local. on_socket_unknown _ id _ _ x g;
    listens = λ port. on_socket_unknown _ id _ _ x g;
    sends = λ buf. elim buf as (λ b. send_tcp crate id b (some x) ≡ value (minus_one, some x)) [
      | none ↦ refl
      | some b ↦ on_socket_unknown _ id _ _ x g
    ];
    recvs = λ cap.
        elim cap as (λ c. recv_tcp crate id c (some x) ≡ value ((minus_one, []), some x)) [
          | none ↦ refl
          | some n ↦ on_socket_unknown _ id _ _ x g
        ];
    active = on_socket_unknown _ id _ _ x g;
    connected = on_socket_unknown _ id _ _ x g;
    queued = on_socket_unknown _ id _ _ x g;
    room = on_socket_unknown _ id _ _ x g;
    closes = on_socket_unknown _ id _ _ x g;
    sends_to = λ buf dst port.
        elim buf as (λ b. sendto_udp crate id b dst port (some x) ≡ value (minus_one, some x)) [
          | none ↦ refl
          | some b ↦ on_socket_unknown _ id _ _ x g
        ];
    recvs_from = λ cap.
        elim cap
          as (λ c. recvfrom_udp crate id c (some x) ≡ value ((minus_one, [], none, none), some x)) [
            | none ↦ refl
            | some n ↦ on_socket_unknown _ id _ _ x g
          ];
    closes_udp = on_socket_unknown _ id _ _ x g;
  }

  -- After smoltcp_tcp_close of an id, every call on that id fails with its error value, reaches no
  -- socket and changes nothing.
  pub close_tcp-Rejects :
      (id : ℕ) (x y : Ctx crate) → close_tcp crate id (some x) ≡ value (tt, some y) → Rejects id y
  close_tcp-Rejects id x y e = unknown-Rejects id y (close_tcp-Closes crate id x y e).gone
