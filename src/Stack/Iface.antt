-- ===== src/Stack/Iface.antt =====
-- src/esp_smoltcp.c: what the drivers and the core call on an interface (link_event, post_rx, the
-- transmit callback, the Ethernet callbacks), event delivery and the statistics.
pub mod Receive
use esp_smoltcp.Common.{
  ℕ, zero, suc, pos, minus_one, ℤ, ◌+◌, ◌%◌, ◌^◌, Bool, true, false, not, ◌&&◌, ◌||◌, Option, none,
  some, is_some, List, [], ◌∷◌, ◌++◌, if◌then◌else◌, ltb, leb, ◌==◌, length, drop, get_elem?,
  modify,
}
use esp_smoltcp.Types.{EspErr, ok, no_mem, invalid_arg, invalid_state, is_ok, iface_eth, iface_max}
use esp_smoltcp.Stack.State.{
  Frame, Iface, Stack, Event, iface_up, iface_down, EventCall, put_iface, put_world,
}
use esp_smoltcp.Stack.Glue.{Base, State}
use esp_smoltcp.Stack.Frames.{bump, net_frame_alloc, net_frame_free}

-- A `uint64_t` counter's `+= n`.
abbrev pub add_bytes : ℕ → ℕ → ℕ
add_bytes n len = (n + len) % 2 ^ 64

-- `esp_smoltcp_stats_t`
pub record Stats : Type 0 where
  pub rx_frames : ℕ
  pub rx_bytes : ℕ
  pub rx_drops : ℕ
  pub tx_frames : ℕ
  pub tx_bytes : ℕ
  pub tx_fails : ℕ
  pub link_ups : ℕ
  pub link_downs : ℕ
  pub active_sockets : ℕ

-- The events of the Ethernet driver that the code tells apart.
pub data EthEvent : Type 0 where
  connected disconnected other_event : EthEvent

module _ (base : Base) where
  open base use {Queue, World, send, transmit, set_link_up, socket_count}

  unfoldable pub emit_event : ℕ → Event → State base → State base
  emit_event i e s = elim s.user_cb [
    | none ↦ s
    | some c ↦ record s {
      events = record { cb = c; iface = i; event = e; arg = s.user_cb_arg } ∷ s.events;
    }
  ]

  -- `if (s_task) xTaskNotifyGive(s_task)`, from a task or from an interrupt.
  unfoldable pub kick_poll : State base → State base
  kick_poll s = if s.has_task then record s { kicks = suc s.kicks } else s

  abbrev pub linked : Bool → Iface Queue → Iface Queue
  linked up x = record x {
    link_up = up;
    link_ups = if up then bump x.link_ups else x.link_ups;
    link_downs = if up then x.link_downs else bump x.link_downs;
  }

  unfoldable pub link_event : ℕ → Bool → State base → State base
  link_event i up s = elim (get_elem? s.ifaces i) [
    | none ↦ s
    | some x ↦ kick_poll (
        emit_event i (if up then iface_up else iface_down)
          (put_iface i (linked up) (put_world (set_link_up x.handle up s.world) s)))
  ]

  -- `eth_event`
  unfoldable pub eth_event : EthEvent → State base → State base
  eth_event connected s = link_event iface_eth true s
  eth_event disconnected s = link_event iface_eth false s
  eth_event other_event s = s

  -- `net_stack_register_event_cb`
  unfoldable pub register_event_cb : Option ℕ → ℕ → State base → EspErr × State base
  register_event_cb cb user s = (ok, record s { user_cb = cb; user_cb_arg = user })

  -- The length of the frame that a pointer names.
  abbrev pub frame_len : ℕ → State base → ℕ
  frame_len f s = elim (get_elem? s.frames f) [ none ↦ 0 | some x ↦ x.len ]

  abbrev pub counted : ℕ → Iface Queue → Iface Queue
  counted len x = record x { rx_frames = bump x.rx_frames; rx_bytes = add_bytes x.rx_bytes len }

  -- The part of `post_rx` behind the counters, on an enabled interface with queue `q`.
  unfoldable pub enqueue_rx : ℕ → ℕ → Queue → State base → State base
  enqueue_rx i f q s =
      if (send f q).0
      then kick_poll (put_iface i (λ x. record x { rx_queue = (send f q).1 }) s)
      else net_frame_free base (some f)
          (put_iface i (λ x. record x { rx_queue = (send f q).1; rx_drops = bump x.rx_drops }) s)

  unfoldable pub post_rx : ℕ → ℕ → State base → State base
  post_rx i f s = elim (get_elem? s.ifaces i) [
    | none ↦ net_frame_free base (some f) s
    | some x ↦
        if x.enabled
        then enqueue_rx i f x.rx_queue (put_iface i (counted (frame_len f s)) s)
        else net_frame_free base (some f) s
  ]

  -- `eth_tx` through `i->tx`: esp_eth_transmit, its result, and what it leaves.
  unfoldable pub glue_tx_cb : ℕ → List ℕ → State base → ℤ × State base
  glue_tx_cb i frame s = elim (get_elem? s.ifaces i) [
    | none ↦ (minus_one, s)
    | some x ↦
        let (r, w) = transmit frame s.world in
        if not x.enabled || not x.has_tx
        then (minus_one, s)
        else if is_ok r
        then (
          pos 0,
          put_iface i
              (λ x. record x {
                tx_frames = bump x.tx_frames;
                tx_bytes = add_bytes x.tx_bytes (length frame);
              })
              (put_world w s),
        )
        else (minus_one, put_iface i (λ x. record x { tx_fails = bump x.tx_fails }) (put_world w s))
  ]

  unfoldable pub l2_send : ℕ → List ℕ → State base → EspErr × State base
  l2_send i frame s = elim (get_elem? s.ifaces i) [
    | none ↦ (invalid_arg, s)
    | some x ↦
        let (r, w) = transmit frame s.world in
        if not x.enabled || not x.has_tx then (invalid_state, s) else (r, put_world w s)
  ]

  -- `memcpy(f->data, buf, len)`
  abbrev pub copy_in : List ℕ → Frame → Frame
  copy_in buf x = record x { bytes = buf ++ drop (length buf) x.bytes }

  unfoldable pub eth_input_cb : List ℕ → State base → EspErr × State base
  eth_input_cb buf s = elim (net_frame_alloc base (length buf) s).0 [
    | none ↦ (no_mem, (net_frame_alloc base (length buf) s).1)
    | some f ↦
        let t = (net_frame_alloc base (length buf) s).1 in
        (ok, post_rx iface_eth f (record t { frames = modify t.frames f (copy_in buf) }))
  ]

  -- The counters, and the number of sockets where the interface has a core behind it. `has_out`
  -- tells that `out` is not NULL; the answer is ESP_ERR_INVALID_ARG for `none`, else ESP_OK.
  unfoldable pub get_stats : ℕ → Bool → State base → Option Stats
  get_stats i false s = none
  get_stats i true s = elim (get_elem? s.ifaces i) [
    | none ↦ none
    | some x ↦ some (record {
      rx_frames = x.rx_frames;
      rx_bytes = x.rx_bytes;
      rx_drops = x.rx_drops;
      tx_frames = x.tx_frames;
      tx_bytes = x.tx_bytes;
      tx_fails = x.tx_fails;
      link_ups = x.link_ups;
      link_downs = x.link_downs;
      active_sockets = if x.enabled && is_some x.handle then socket_count x.handle s.world else 0;
    })
  ]
