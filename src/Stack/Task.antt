-- ===== src/Stack/Task.antt =====
-- src/esp_smoltcp.c: the poll task. `poll_iface` drains the receive queue, polls the core and
-- reports changes of the IP state; the task sleeps until the soonest deadline.
pub mod Drain
pub mod Deliver
pub mod Poll
use esp_smoltcp.Common.{
  ℕ, zero, suc, ℤ, pos, negsuc, ◌+◌, ◌/◌, ◌-◌, ◌^◌, Bool, true, false, not, Option, none, some,
  List, [], ◌∷◌, if◌then◌else◌, ltb, ◌==◌, take, get_elem?, set,
}
use esp_smoltcp.Stack.State.{
  Frame, Iface, Stack, TapCall, Event, got_ip, lost_ip, put_iface, put_world,
}
use esp_smoltcp.Stack.Glue.{Base, State}
use esp_smoltcp.Stack.Frames.{net_frame_free}
use esp_smoltcp.Stack.Tap.{dispatch_tap}
use esp_smoltcp.Stack.Iface.{emit_event, glue_tx_cb}

module _ (base : Base) where
  open base use {Queue, World, receive, iface_rx, iface_poll, has_ip, poll_delay_us}

  -- What a frame from the receive queue of interface `x` goes to: a tap, or the core.
  unfoldable pub consume : Iface Queue → Frame → State base → State base
  consume x f s = elim (dispatch_tap s.taps f) [
    | none ↦ put_world (iface_rx x.handle (take f.len f.bytes) s.world) s
    | some (c, user) ↦ record s {
      tapped =
          record {
            cb = c;
            iface = x.id;
            frame = take f.len f.bytes;
            hw_ts_ns = f.hw_ts_ns;
            user = user;
          }
          ∷ s.tapped;
    }
  ]

  -- One round of the first loop, for the frame at `p`.
  unfoldable pub take_frame : Iface Queue → ℕ → State base → State base
  take_frame x p s = elim (get_elem? s.frames p) [
    | none ↦ net_frame_free base (some p) s
    | some f ↦ net_frame_free base (some p) (consume x f s)
  ]

  -- The first loop, on fuel, while nothing else arrives.
  unfoldable pub drain_rx : ℕ → ℕ → State base → State base
  drain_rx zero i s = s
  drain_rx (suc n) i s = elim (get_elem? s.ifaces i) [
    | none ↦ s
    | some x ↦ elim (receive x.rx_queue) [
      | none ↦ s
      | some (p, q) ↦ drain_rx n i (take_frame x p (put_iface i (λ y. record y { rx_queue = q }) s))
    ]
  ]

  -- The frames that a poll of the core hands to smoltcp_glue_tx_cb.
  unfoldable pub push_out : List (ℕ × List ℕ) → State base → State base
  push_out [] s = s
  push_out ((i, frame) ∷ fs) s = push_out fs (glue_tx_cb base i frame s).1

  -- An event of interface `id` with the new value of its bit.
  unfoldable pub announce : ℕ → Event → Bool → State base → State base
  announce id e bit s =
      let t = emit_event base id e s in record t { ip_bits = set t.ip_bits id bit }

  -- The end of `poll_iface`: the IP state, its event and its bit.
  unfoldable pub report_ip : ℕ → Iface Queue → State base → State base
  report_ip i x s =
      let now = has_ip x.handle s.world in
      let t = put_iface i (λ y. record y { ip_up = now }) s in
      if now
      then (if x.ip_up then t else announce x.id got_ip true t)
      else (if x.ip_up then announce x.id lost_ip false t else t)

  unfoldable pub poll_core : ℕ → State base → State base
  poll_core i s = elim (get_elem? s.ifaces i) [
    | none ↦ s
    | some x ↦
        let (out, w) = iface_poll x.handle s.world in report_ip i x (push_out out (put_world w s))
  ]

  unfoldable pub poll_iface : ℕ → ℕ → State base → State base
  poll_iface fuel i s = poll_core i (drain_rx fuel i s)

  -- INT64_MAX
  abbrev pub no_deadline : ℕ
  no_deadline = 2 ^ 63 - 1

  -- The loop for the soonest deadline.
  unfoldable pub next_deadline : List (Iface Queue) → World → ℕ → ℕ
  next_deadline [] w next = next
  next_deadline (x ∷ xs) w next = next_deadline xs w (
      if x.enabled
      then elim (poll_delay_us x.handle w) [
        | pos d ↦ if ltb d next then d else next
        | negsuc _ ↦ next
      ]
      else next)
