-- ===== src/Core/CtxTests.antt =====
-- Runs of components/esp_smoltcp_glue/src/lib.rs on concrete inputs: sockets, addresses, resolution.
use esp_smoltcp.Common.{pos, ℕ, ◌*◌, ◌≡◌, ◌≢◌, refl, true, none, some, [], ◌∷◌, arith}
use esp_smoltcp.Core.Outcome.{value}
use esp_smoltcp.Core.Device.{
  all_free, run_calls, receive, tx_pool_alloc, trailing_zeros, use_token, drop_token, tx_pool_free,
}
use esp_smoltcp.Core.Crate.{tcp_kind, udp_kind, ipv6}
use esp_smoltcp.Core.Ctx.{IfaceCtx, new_ctx}
use esp_smoltcp.Core.Ctx.Sock.{
  get_handle, tcp_open, close_tcp, on_socket, remove_handle, alloc_id, insert_handle,
}
use esp_smoltcp.Core.Ctx.Sock.Table.{Used, start, opened, tcp_open-Fresh}
use esp_smoltcp.Core.Ctx.Sock.Closed.{Rejects, close_tcp-Rejects}
use esp_smoltcp.Core.Resolve.{Resolved, Probe, parse_quad, parse_parts, smoltcp_resolve}
use esp_smoltcp.Core.Resolve.Quads.{smoltcp_resolve-print_ipv4}
use esp_smoltcp.Core.Resolve.Replies.{Heard, replied, smoltcp_resolve-Heard}
use esp_smoltcp.Core.Dns.{build_query, push_labels}
use esp_smoltcp.Core.Dns.Wire.{reply}
use esp_smoltcp.Compat.Inet.{split_dots, print_ipv4, inet_ntop}
use esp_smoltcp.Core.Resolve.Settles.{Settled, smoltcp_resolve-Settled}
use esp_smoltcp.Core.Samples.{
  crate_sample, SimSockets, name_sample, query_sample, records_sample, mac_sample, ctx_static,
}

-- A context with one open socket.
ctx_sample : IfaceCtx crate_sample
ctx_sample =
    (alloc_id crate_sample 0 (record (new_ctx crate_sample 0 mac_sample) {
      sockets = record { kinds = tcp_kind ∷ []; heard = [] };
    })).1

Used-ctx_sample : Used crate_sample 1 ctx_sample
unfolding ctx_sample
Used-ctx_sample = opened 0 _ 0 _ (start 0 mac_sample)

tcp_open-Fresh_example :
    (id : ℕ) × (y : IfaceCtx crate_sample) × (tcp_open crate_sample (some ctx_sample)
      ≡ (id, some y))
    × (id ≢ 0)
    × (get_handle id ctx_sample.handles ≡ none)
    × (get_handle id y.handles ≡ some 1)
    × ((j : ℕ) → j ≢ id → get_handle j y.handles ≡ get_handle j ctx_sample.handles)
unfolding ctx_sample alloc_id
tcp_open-Fresh_example = tcp_open-Fresh crate_sample 1 ctx_sample Used-ctx_sample (omega arith)

abbrev ctx_closed : IfaceCtx crate_sample
ctx_closed = record ctx_sample { handles = [] }

close_tcp-Rejects_example : Rejects crate_sample 1 ctx_closed
unfolding close_tcp on_socket ctx_sample alloc_id get_handle remove_handle insert_handle new_ctx
close_tcp-Rejects_example = close_tcp-Rejects crate_sample 1 ctx_sample ctx_closed refl

-- The clock gains a millisecond with each reading.
smoltcp_resolve-Settled_example :
    (r : Resolved crate_sample) × (smoltcp_resolve crate_sample 3
        (λ t. t * 1000)
        4660
        7
        (97 ∷ 46 ∷ 98 ∷ [])
        134744072
        5
        ctx_static
        all_free
      ≡ value r)
    × Settled crate_sample all_free r
unfolding trailing_zeros
smoltcp_resolve-Settled_example =
    smoltcp_resolve-Settled crate_sample (λ now i s. (tt, (λ frame. (tt, tt)))) 3 2 (λ t. t * 1000)
      4660 7 (97 ∷ 46 ∷ 98 ∷ []) 134744072 5 0 ctx_static all_free refl (omega arith) (omega arith)

-- The response waits in the inbox of the device.
abbrev ctx_replied : IfaceCtx crate_sample
ctx_replied = record (new_ctx crate_sample 0 mac_sample) {
  dev = record {
    iface_id = 0;
    rx_inbox = some (reply query_sample 33152 records_sample 0 0 []);
    link_up = true;
  };
}

-- The resolver's socket is added, and the response read from it.
abbrev sockets_asked : SimSockets
sockets_asked = record { kinds = udp_kind ∷ []; heard = [] }

abbrev probe_start : Probe crate_sample
probe_start = record {
  iface = ctx_replied.iface;
  sockets = sockets_asked;
  phy = record { dev = ctx_replied.dev; pool = all_free; sent = [] };
}

abbrev probe_end : Probe crate_sample
probe_end = record {
  iface = ctx_replied.iface;
  sockets = sockets_asked;
  phy = record {
    dev = record { iface_id = 0; rx_inbox = none; link_up = true };
    pool = all_free;
    sent = [];
  };
}

Heard-sample :
    Heard crate_sample 0 query_sample (λ t. t * 1000) 5000 records_sample 0 1 probe_start probe_end
unfolding new_ctx run_calls receive tx_pool_alloc trailing_zeros use_token drop_token tx_pool_free
Heard-sample =
    replied 1 33152 0 0 53 [] (ipv6 (record { octets = []; prefix = 0 })) probe_start
      (
        (
          ctx_replied.iface,
          record sockets_asked { heard = reply query_sample 33152 records_sample 0 0 [] ∷ [] },
        ),
        probe_end.phy,
      )
      sockets_asked refl refl refl

smoltcp_resolve-Heard_example :
    smoltcp_resolve crate_sample 1
      (λ t. t * 1000)
      4660
      7
      name_sample
      134744072
      5
      ctx_replied
      all_free
    ≡ value (record {
      code = pos 0;
      out_be = some 117440522;
      ctx = record ctx_replied {
        iface = probe_end.iface;
        sockets = probe_end.sockets;
        dev = probe_end.phy.dev;
      };
      pool = probe_end.phy.pool;
      sent = probe_end.phy.sent;
    })
unfolding new_ctx parse_quad parse_parts build_query push_labels split_dots
smoltcp_resolve-Heard_example =
    smoltcp_resolve-Heard crate_sample 1 0 (λ t. t * 1000) 4660 7 name_sample 134744072 5
      ctx_replied all_free query_sample 10 0 0 7 records_sample probe_end refl refl refl
      (omega arith, (((omega arith, omega arith), tt), tt)) refl (omega arith) Heard-sample

smoltcp_resolve-print_ipv4_example :
    (v : ℕ) × (smoltcp_resolve crate_sample 0
        (λ t. t)
        1
        2
        (print_ipv4 192 168 1 7)
        0
        0
        ctx_static
        all_free
      ≡ value
          (record { code = pos 0; out_be = some v; ctx = ctx_static; pool = all_free; sent = [] }))
    × (inet_ntop true v 16 ≡ some (print_ipv4 192 168 1 7))
smoltcp_resolve-print_ipv4_example =
    smoltcp_resolve-print_ipv4 crate_sample 0 (λ t. t) 1 2 192 168 1 7 0 0 16 ctx_static all_free
      (omega arith) (omega arith) (omega arith) (omega arith) (omega arith)
