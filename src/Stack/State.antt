-- ===== src/Stack/State.antt =====
-- The data of src/esp_smoltcp.c and src/esp_smoltcp_internal.h, from the end of net_stack_init on.
-- A `net_frame_t *` is the frame's index in `s_frame_pool`; callbacks and handles are numbers.
use esp_smoltcp.Common.{ℕ, ℤ, Bool, Option, List, modify}

-- `net_frame_t`: `bytes` is the whole buffer, of which `len` bytes are the frame.
pub record Frame : Type 0 where
  pub len : ℕ
  pub hw_ts_ns : ℤ
  pub bytes : List ℕ

-- `l2_tap_t`: ethertype 0 is an unused slot, `cb` is `none` for NULL.
pub record TapSlot : Type 0 where
  pub ethertype : ℕ
  pub cb : Option ℕ
  pub user : ℕ

-- `net_iface_t`. `has_tx` tells that `tx` is set; the only function it is set to is `eth_tx`.
pub record Iface (Q : Type 0) : Type 0 where
  pub id : ℕ
  pub enabled : Bool
  pub link_up : Bool
  pub ip_up : Bool
  pub mac : List ℕ
  pub rx_queue : Q
  pub has_tx : Bool
  pub handle : Option ℕ
  pub rx_frames : ℕ
  pub rx_bytes : ℕ
  pub rx_drops : ℕ
  pub tx_frames : ℕ
  pub tx_bytes : ℕ
  pub tx_fails : ℕ
  pub link_ups : ℕ
  pub link_downs : ℕ

-- `esp_smoltcp_event_t`, the events that the code emits.
pub data Event : Type 0 where
  iface_up iface_down got_ip lost_ip : Event

-- A call of the user's event callback, and one of a tap's.
pub record EventCall : Type 0 where
  pub cb : ℕ
  pub iface : ℕ
  pub event : Event
  pub arg : ℕ

pub record TapCall : Type 0 where
  pub cb : ℕ
  pub iface : ℕ
  pub frame : List ℕ
  pub hw_ts_ns : ℤ
  pub user : ℕ

-- The static variables. `free_q` is `none` before frame_pool_init; `kicks` counts the
-- notifications of the poll task; `events` and `tapped` are the calls made, newest first;
-- `ip_bits` are the bits of `s_evt`; `world` is the smoltcp core, the drivers and the clock.
pub record Stack (Q W : Type 0) : Type 0 where
  pub ifaces : List (Iface Q)
  pub frames : List Frame
  pub free_q : Option Q
  pub frame_alloc_fail : ℕ
  pub taps : List TapSlot
  pub has_task : Bool
  pub kicks : ℕ
  pub user_cb : Option ℕ
  pub user_cb_arg : ℕ
  pub events : List EventCall
  pub tapped : List TapCall
  pub ip_bits : List Bool
  pub world : W

module _ {Q W : Type 0} where
  abbrev pub put_iface : ℕ → (Iface Q → Iface Q) → Stack Q W → Stack Q W
  put_iface i f s = record s { ifaces = modify s.ifaces i f }

  abbrev pub put_world : W → Stack Q W → Stack Q W
  put_world w s = record s { world = w }
