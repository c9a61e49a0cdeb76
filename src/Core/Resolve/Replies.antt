-- ===== src/Core/Resolve/Replies.antt =====
-- components/esp_smoltcp_glue/src/dns.rs: smoltcp_resolve where a response arrives in time.
use Prim.Native.Nat.{bit_and}
use esp_smoltcp.Common.{
  ℕ, zero, suc, ◌+◌, ◌*◌, ◌^◌, pos, ◌≡◌, ◌<◌, refl, ◌∙◌, true, false, ◌&&◌, Option, none, some,
  List, [], ◌∷◌, All, leb, arith,
}
use esp_smoltcp.Compat.Inet.{Text}
use esp_smoltcp.Core.Outcome.{value, then_value}
use esp_smoltcp.Core.Device.{TxPool, Phy, run_calls}
use esp_smoltcp.Core.Crate.{Crate, IpCidr, query_socket}
use esp_smoltcp.Core.Ctx.{IfaceCtx, ipv4_from_be}
use esp_smoltcp.Core.Ctx.Sock.{dynamic_port}
use esp_smoltcp.Core.Dns.{build_query}
use esp_smoltcp.Core.Dns.Wire.{ResourceRecord, IsOwner, first_a, reply}
use esp_smoltcp.Core.Dns.RoundTrip.{parse_a_response-reply}
use esp_smoltcp.Core.Resolve.{
  parse_quad, read_reply, Probe, probe, resolve_loop, conclude, ask, smoltcp_resolve,
}

module _ (crate : Crate) (h : crate.Handle) (query : List ℕ) (clock : ℕ → ℕ) (deadline : ℕ) where
  -- What the loop sees, from reading `t` of the clock on: `n` rounds in which nothing arrives and
  -- the deadline is not reached, then a response to the query with the answers `rs`.
  pub data Heard (rs : List ResourceRecord) : ℕ → ℕ → Probe crate → Probe crate → Type 0 where
    replied :
        (t flags authority additional port : ℕ) (tail : List ℕ) (from : IpCidr) (s : Probe crate)
        (r : (crate.Interface × crate.Sockets) × Phy) (sockets : crate.Sockets)
        → run_calls (crate.poll (clock t) s.iface s.sockets) s.phy ≡ value r
        → crate.udp_recv h 512 r.0.1
          ≡ (some (reply query flags rs authority additional tail, from, port), sockets)
        → bit_and flags 0x000F ≡ 0
        → Heard rs 0 t s (record { iface = r.0.0; sockets = sockets; phy = r.1 })
    waited :
        (n t : ℕ) (s end : Probe crate) (r : (crate.Interface × crate.Sockets) × Phy)
        (sockets : crate.Sockets)
        → run_calls (crate.poll (clock t) s.iface s.sockets) s.phy ≡ value r
        → crate.udp_recv h 512 r.0.1 ≡ (none, sockets)
        → clock (suc t) < deadline
        → Heard rs n (suc (suc t)) (record { iface = r.0.0; sockets = sockets; phy = r.1 }) end
        → Heard rs (suc n) t s end

  probe_reads :
      (id now : ℕ) (s : Probe crate) (r : (crate.Interface × crate.Sockets) × Phy)
      (got : Option (List ℕ × IpCidr × ℕ)) (sockets : crate.Sockets) (found : Option (List ℕ))
      → run_calls (crate.poll now s.iface s.sockets) s.phy ≡ value r
      → crate.udp_recv h 512 r.0.1 ≡ (got, sockets)
      → read_reply (elim got [ none ↦ none | some (pkt, _, _) ↦ some pkt ]) id ≡ value found
      → probe crate now h id s
        ≡ value (found, record { iface = r.0.0; sockets = sockets; phy = r.1 })
  unfolding probe
  probe_reads id now s r got sockets found ran recvd e =
      then_value _ ran (rw recvd (then_value _ e refl))

  resolve_loop-Heard :
      (id : ℕ) (name : Text) (octets : List ℕ) (rs : List ResourceRecord)
      → build_query id name ≡ some query
      → All (λ r. IsOwner r.owner) rs
      → first_a rs ≡ value octets
      → (fuel n t : ℕ) (s end : Probe crate) → n < fuel
      → Heard rs n t s end
      → resolve_loop crate fuel clock t deadline h id s ≡ value (some octets, end)
  unfolding resolve_loop read_reply
  resolve_loop-Heard id name octets rs q owners first zero n t s end lt heard = absurd (omega arith)
  resolve_loop-Heard id name octets rs q owners first (suc fuel) _ _ _ _ lt
        (replied t flags authority additional port tail from s r sockets ran recvd clear) =
      let parsed =
        parse_a_response-reply id name query flags rs authority additional tail q clear owners
        ∙ first in
      then_value _
        (probe_reads id (clock t) s r _ sockets (some octets) ran recvd
          (rw (parsed, read_reply) refl))
        refl
  resolve_loop-Heard id name octets rs q owners first (suc fuel) _ _ _ _ lt
        (waited n t s end r sockets ran recvd early heard) =
      let on : leb deadline (clock (suc t)) ≡ false = ground arith in
      then_value _ (probe_reads id (clock t) s r none sockets none ran recvd refl) (
        rw on (
          resolve_loop-Heard id name octets rs q owners first fuel n (suc (suc t)) _ end
            (omega arith) heard))

-- If a response to the query arrives before the deadline, after rounds in which nothing does, then
-- smoltcp_resolve of a name returns 0, within the fuel of more than those rounds. It stores the first
-- address in the response, its first octet in the lowest byte, and removes the socket that it added;
-- the interface, the device, the pool and the frames sent are those after the last round.
pub smoltcp_resolve-Heard :
    (crate : Crate) (fuel n : ℕ) (clock : ℕ → ℕ) (id_rand port_rand : ℕ) (name : Text)
    (server_be timeout_ms : ℕ) (x : IfaceCtx crate) (pool : TxPool) (query : List ℕ) (a b c d : ℕ)
    (rs : List ResourceRecord) (end : Probe crate)
    → parse_quad name ≡ none
    → build_query (bit_and id_rand 0xFFFF) name ≡ some query
    → (crate.can_bind (dynamic_port port_rand) && crate.can_send_to query (ipv4_from_be server_be))
      ≡ true
    → All (λ r. IsOwner r.owner) rs
    → first_a rs ≡ value (a ∷ b ∷ c ∷ d ∷ [])
    → n < fuel
    → (let opened =
          crate.add
            (query_socket (dynamic_port port_rand) query (ipv4_from_be server_be))
            x.sockets in
        Heard crate opened.0 query clock
          (clock 0 + timeout_ms * 1000)
          rs
          n
          1
          (record {
            iface = x.iface;
            sockets = opened.1;
            phy = record { dev = x.dev; pool = pool; sent = [] };
          })
          end)
    → smoltcp_resolve crate fuel clock id_rand port_rand name server_be timeout_ms x pool
      ≡ value (record {
        code = pos 0;
        out_be = some (a + b * 2 ^ 8 + c * 2 ^ 16 + d * 2 ^ 24);
        ctx = record x {
          iface = end.iface;
          sockets =
              crate.remove
                (crate.add
                  (query_socket (dynamic_port port_rand) query (ipv4_from_be server_be))
                  x.sockets).0
                end.sockets;
          dev = end.phy.dev;
        };
        pool = end.phy.pool;
        sent = end.phy.sent;
      })
unfolding smoltcp_resolve ask conclude
smoltcp_resolve-Heard crate fuel n clock id_rand port_rand name server_be timeout_ms x pool query a
      b c d rs end quad q ready owners first lt heard =
    let opened =
      crate.add (query_socket (dynamic_port port_rand) query (ipv4_from_be server_be)) x.sockets in
    rw (quad, smoltcp_resolve)
      (rw q (
        rw ready (
          then_value _
            (resolve_loop-Heard crate opened.0 query clock (clock 0 + timeout_ms * 1000)
              (bit_and id_rand 0xFFFF) name (a ∷ b ∷ c ∷ d ∷ []) rs q owners first fuel n 1 _ end lt
              heard)
            refl)))
