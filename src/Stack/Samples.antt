-- ===== src/Stack/Samples.antt =====
-- A stack for the examples: two interfaces over a world that records what it is told.
use esp_smoltcp.Common.{
  ℕ, pos, negsuc, ◌+◌, Bool, true, false, none, some, List, [], ◌∷◌, ◌++◌, length, take, replicate,
}
use esp_smoltcp.Common.Fifo.{Fifo, fifo}
use esp_smoltcp.Types.{ok}
use esp_smoltcp.Stack.State.{Stack, put_world, Frame, TapSlot, Iface}
use esp_smoltcp.Stack.Glue.{Glue, Base, State}

-- The clock, the frames that the core was given, newest first, and the bytes sent.
pub record Sim : Type 0 where
  pub now : ℕ
  pub heard : List (List ℕ)
  pub sent : List ℕ

-- This core takes one byte at a time.
abbrev pub chunk : List ℕ → ℕ
chunk [] = 0
chunk (x ∷ xs) = 1

-- Nothing but time passes while a task waits.
abbrev pub wait : {Q : Type 0} → ℕ → Stack Q Sim → Stack Q Sim
wait n s = put_world (record s.world { now = s.world.now + n }) s

abbrev glue_sample : Glue
glue_sample = record {
  World = Sim;
  iface_rx = λ h f w. record w { heard = f ∷ w.heard };
  iface_poll = λ h w. ((0, 1 ∷ 2 ∷ []) ∷ [], w);
  poll_delay_us = λ h w. pos 500;
  set_link_up = λ h up w. w;
  has_ip = λ h w. true;
  iface_ipv4 = λ h w. 16820416;
  iface_gw = λ h w. 0;
  iface_netmask = λ h w. 0;
  iface_ipv6 = λ h w. none;
  socket_count = λ h w. 1;
  iface_mcast_join = λ h g w. (pos 0, w);
  iface_mcast_leave = λ h g w. (pos 0, w);
  open_tcp = λ h w. (5, w);
  connect_tcp = λ h l ip port w. (pos 0, w);
  listen_tcp = λ h l port w. (pos 0, w);
  send_tcp = λ h l buf w. (pos (chunk buf), record w { sent = w.sent ++ take (chunk buf) buf });
  recv_tcp = λ h l room w. (pos 0, [], w);
  is_active = λ h l w. true;
  is_connected = λ h l w. true;
  recv_queue = λ h l w. 0;
  send_capacity = λ h l w. 1;
  close_tcp = λ h l w. w;
  open_udp = λ h port w. (6, w);
  sendto_udp = λ h l buf ip port w. (pos (length buf), w);
  recvfrom_udp = λ h l room w. (pos 0, [], 0, 0, w);
  close_udp = λ h l w. w;
  transmit = λ f w. (ok, w);
  ticks = λ w. w.now;
  ms_to_ticks = λ ms. ms;
}

abbrev pub base_sample : Base
base_sample = record { queue = fifo ℕ; glue = glue_sample; sleep = wait; wait_progress = wait }

abbrev pub iface_sample : ℕ → Bool → List ℕ → Iface (Fifo ℕ)
iface_sample i on waiting = record {
  id = i;
  enabled = on;
  link_up = true;
  ip_up = false;
  mac = 2 ∷ 0 ∷ 0 ∷ 0 ∷ 0 ∷ 1 ∷ [];
  rx_queue = record { items = waiting; room = 2 };
  has_tx = on;
  handle = some 7;
  rx_frames = 0;
  rx_bytes = 0;
  rx_drops = 0;
  tx_frames = 0;
  tx_bytes = 0;
  tx_fails = 0;
  link_ups = 0;
  link_downs = 0;
}

-- A frame of 60 bytes with EtherType 0x88F7.
abbrev pub frame_sample : Frame
frame_sample = record {
  len = 60;
  hw_ts_ns = negsuc 0;
  bytes = replicate 12 255 ++ 136 ∷ 247 ∷ replicate 46 0;
}

abbrev pub taps_sample : List TapSlot
taps_sample =
    record { ethertype = 35063; cb = some 1; user = 4 }
    ∷ record { ethertype = 0; cb = none; user = 0 }
    ∷ []

-- Four frames: one waits on the enabled interface, one is in a driver's hands, two are free.
abbrev pub stack_sample : State base_sample
stack_sample = record {
  ifaces = iface_sample 0 true (3 ∷ []) ∷ iface_sample 1 false [] ∷ [];
  frames = frame_sample ∷ frame_sample ∷ frame_sample ∷ frame_sample ∷ [];
  free_q = some (record { items = 1 ∷ 2 ∷ []; room = 4 });
  frame_alloc_fail = 0;
  taps = taps_sample;
  has_task = true;
  kicks = 0;
  user_cb = some 11;
  user_cb_arg = 12;
  events = [];
  tapped = [];
  ip_bits = false ∷ false ∷ [];
  world = record { now = 0; heard = []; sent = [] };
}

-- With no interface enabled yet.
abbrev pub stack_down : State base_sample
stack_down = record stack_sample { ifaces = iface_sample 0 false [] ∷ iface_sample 1 false [] ∷ [] }
