-- ===== src/Compat/Samples.antt =====
-- An environment for the examples of the shim: the net is the clock alone.
use esp_smoltcp.Common.{ℕ, pos, ◌+◌, true, some, List, [], ◌∷◌, length, ltb}
use esp_smoltcp.Common.Fifo.{Fifo, fifo}
use esp_smoltcp.Types.{ok, unset}
use esp_smoltcp.Net.{NetApi}
use esp_smoltcp.Compat.State.{free, udp, tcp_listen, Msg, Entry, Slot, empty_slot}
use esp_smoltcp.Compat.Env.{Env, State}
use esp_smoltcp.Compat.Fd.{fresh_entry}

-- Sockets above 20 are connected.
abbrev net_sample : NetApi
net_sample = record {
  Net = ℕ;
  tcp_open = λ iface n. (9, n);
  tcp_connect = λ sock ip port to n. (ok, n);
  tcp_listen = λ sock port n. (ok, n);
  tcp_send = λ sock buf to n. (pos (length buf), n);
  tcp_recv = λ sock room to n. (pos 0, [], n);
  tcp_close = λ sock n. n;
  tcp_is_connected = λ sock n. ltb 20 sock;
  tcp_recv_queue = λ sock n. 0;
  tcp_send_capacity = λ sock n. 1;
  udp_open = λ iface port n. (8, n);
  udp_sendto = λ sock buf ip port n. (pos (length buf), n);
  udp_recvfrom = λ sock room to n. (pos 0, [], 0, 0, n);
  udp_close = λ sock n. n;
  mcast_join = λ iface group n. (ok, n);
  mcast_leave = λ iface group n. (ok, n);
  get_ipv4 = λ iface n. 16820416;
  tick_count = λ n. n;
  delay = λ k n. n + k;
}

abbrev pub env_sample : Env
env_sample = record {
  config = record { offset = 54; listener_pool = 2; prefer_eth = true; ms_to_ticks = λ ms. ms };
  queue = fifo Msg;
  api = net_sample;
}

-- A UDP socket bound to port 7 on the loopback.
abbrev pub lo_entry : Entry (Fifo Msg)
lo_entry = record (fresh_entry udp 0) {
  loopback = true;
  lo_rx = some (record { items = []; room = 8 });
  local_port = 7;
  local_ipv4_be = 16777343;
}

-- A listener on port 80 with two sockets, of which the second is connected.
abbrev pub listener_entry : Entry (Fifo Msg)
listener_entry = record (fresh_entry tcp_listen 0) {
  pool = some (15 ∷ 25 ∷ []);
  pool_len = 2;
  port = 80;
  local_port = 80;
}

abbrev pub udp_entry : Entry (Fifo Msg)
udp_entry = record (fresh_entry udp 0) { sock = 8 }

abbrev pub slots_sample : List Slot
slots_sample = record { port = 7; fd = some 0 } ∷ empty_slot ∷ empty_slot ∷ empty_slot ∷ []

-- Descriptors 54, 55 and 56 are in use, 57 is free.
abbrev pub compat_sample : State env_sample
compat_sample = record {
  table = lo_entry ∷ listener_entry ∷ udp_entry ∷ fresh_entry free 0 ∷ [];
  slots = slots_sample;
  net = 0;
  errno = unset;
}
