-- ===== src/Core/MachineTests.antt =====
-- Runs of an interface of components/esp_smoltcp_glue/src/lib.rs with a static address, and of the
-- poll task of components/esp_smoltcp over it.
use esp_smoltcp.Common.{
  List, ℕ, ◌≡◌, refl, true, false, Option, none, some, [], ◌∷◌, get_elem?, is_some, arith,
}
use esp_smoltcp.Common.Fifo.{Fifo, fifo}
use esp_smoltcp.Types.{ok}
use esp_smoltcp.Stack.State.{Stack, Iface}
use esp_smoltcp.Stack.Glue.{Base, State}
use esp_smoltcp.Stack.Task.{poll_core, drain_rx}
use esp_smoltcp.Stack.Samples.{iface_sample, frame_sample}
use esp_smoltcp.Core.Machine.{Board, Running}
use esp_smoltcp.Core.Machine.Burst.{context_at, or_first, FirstUntapped, rx_inbox-drain_rx}
use esp_smoltcp.Core.Machine.Reports.{base, held, poll_core-Reports}
use esp_smoltcp.Core.Device.{all_free, trailing_zeros}
use esp_smoltcp.Core.Ctx.{IfaceCtx, replace_ipv4, without_ipv4, cidr_to_mask, new_ctx, set_static}
use esp_smoltcp.Core.Ctx.Agrees.{Reached, start, static, Agrees, Reached-Agrees}
use esp_smoltcp.Core.Samples.{crate_sample, mac_sample, ctx_static}

Reached-ctx_static : Reached crate_sample mac_sample ctx_static
unfolding ctx_static new_ctx set_static replace_ipv4 without_ipv4 cidr_to_mask
Reached-ctx_static = static 117549248 24 0 _ _ (start 0) refl

Reached-Agrees_example : Agrees crate_sample mac_sample ctx_static
Reached-Agrees_example =
    Reached-Agrees crate_sample mac_sample ctx_static (omega arith) Reached-ctx_static

-- The poll task's view of that context: one interface, which has reported no address so far.
abbrev board_sample : Board
board_sample = record {
  Driver = ℕ;
  transmit = λ frame d. (ok, d);
  now_us = λ d. d;
  random = λ d. (d, d);
  ticks = λ d. d;
  ms_to_ticks = λ ms. ms;
}

abbrev idle :
    ℕ
    → Stack (Fifo ℕ) (Option (Running crate_sample board_sample))
    → Stack (Fifo ℕ) (Option (Running crate_sample board_sample))
idle n s = s

abbrev base_polled : Base
base_polled = base crate_sample board_sample (fifo ℕ) idle idle

abbrev machine_sample : Running crate_sample board_sample
machine_sample = record { ctxs = ctx_static ∷ []; pool = all_free; driver = 5 }

abbrev iface_of_ctx : Iface (Fifo ℕ)
iface_of_ctx = record (iface_sample 0 true []) { handle = some 0 }

abbrev state_sample : State base_polled
state_sample = record {
  ifaces = iface_of_ctx ∷ [];
  frames = [];
  free_q = none;
  frame_alloc_fail = 0;
  taps = [];
  has_task = true;
  kicks = 0;
  user_cb = none;
  user_cb_arg = 0;
  events = [];
  tapped = [];
  ip_bits = false ∷ [];
  world = some machine_sample;
}

poll_core-Reports_example :
    (d : IfaceCtx crate_sample) × (y : Iface (Fifo ℕ)) × Reached crate_sample mac_sample d
    × Agrees crate_sample mac_sample d
    × (held crate_sample board_sample
          (fifo ℕ)
          idle
          idle
          (poll_core base_polled 0 state_sample).world
        ≡ some (d ∷ [], all_free))
    × (get_elem? (poll_core base_polled 0 state_sample).ifaces 0 ≡ some y)
    × (y.ip_up ≡ is_some (crate_sample.ipv4_addr d.iface))
unfolding trailing_zeros
poll_core-Reports_example =
    poll_core-Reports crate_sample board_sample (fifo ℕ) idle idle mac_sample 0 0 0 iface_of_ctx
      machine_sample ctx_static state_sample (omega arith) refl refl refl refl Reached-ctx_static
      (tt, (λ frame. (tt, tt))) refl

-- Two frames wait, and no tap is registered.
abbrev burst_sample : State base_polled
burst_sample = record state_sample {
  ifaces = record iface_of_ctx { rx_queue = record { items = 1 ∷ 0 ∷ []; room = 2 } } ∷ [];
  frames = frame_sample ∷ record frame_sample { len = 2; bytes = 9 ∷ 8 ∷ [] } ∷ [];
}

rx_inbox-drain_rx_example :
    (d : IfaceCtx crate_sample) × (found : Option (List ℕ)) × (context_at crate_sample board_sample
        (fifo ℕ)
        idle
        idle
        0
        (drain_rx base_polled 3 0 burst_sample).world
      ≡ some d)
    × (d.dev.rx_inbox ≡ or_first ctx_static.dev.rx_inbox found)
    × FirstUntapped [] burst_sample.frames (1 ∷ 0 ∷ []) found
rx_inbox-drain_rx_example =
    rx_inbox-drain_rx crate_sample board_sample (fifo ℕ) idle idle 0 0 burst_sample
      (record iface_of_ctx { rx_queue = record { items = 1 ∷ 0 ∷ []; room = 2 } }) ctx_static refl
      refl refl
