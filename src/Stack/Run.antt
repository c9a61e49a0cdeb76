-- ===== src/Stack/Run.antt =====
-- src/esp_smoltcp.c as a whole: the frames that drivers hold, and the calls that drivers, the poll
-- task and the application make, one at a time and in any order.
pub mod Conserve
pub mod Queues
pub mod Recover
pub mod Liveness
use esp_smoltcp.Common.{
  ℕ, Bool, Option, none, some, List, [], ◌∷◌, ◌==◌, if◌then◌else◌, ◌≡◌, ◌≢◌, modify,
}
use esp_smoltcp.Stack.State.{Frame, put_world}
use esp_smoltcp.Stack.Glue.{Base, State}
use esp_smoltcp.Stack.Frames.{net_frame_alloc, net_frame_free}
use esp_smoltcp.Stack.Frames.Owned.{count}
use esp_smoltcp.Stack.Tap.{l2_tap}
use esp_smoltcp.Stack.Iface.{
  EthEvent, eth_event, register_event_cb, post_rx, glue_tx_cb, l2_send, eth_input_cb,
}
use esp_smoltcp.Stack.Task.{poll_iface}
use esp_smoltcp.Stack.Setup.{Driver, attach_eth}

abbrev pub drop_one : ℕ → List ℕ → List ℕ
drop_one f [] = []
drop_one f (x ∷ xs) = if x == f then xs else x ∷ drop_one f xs

pub record System (base : Base) : Type 0 where
  pub stack : State base
  -- The frames that were allocated and neither posted nor given back.
  pub held : List ℕ

-- One call. A driver posts, writes and gives back only frames that it holds; `core` is whatever the
-- core, the drivers and the clock do by themselves or in a socket call.
pub data Step (base : Base) (s : System base) : System base → Type 0 where
  allocate :
      (len f : ℕ) (t : State base)
      → net_frame_alloc base len s.stack ≡ (some f, t)
      → Step base s (record { stack = t; held = f ∷ s.held })
  refuse :
      (len : ℕ) (t : State base)
      → net_frame_alloc base len s.stack ≡ (none, t)
      → Step base s (record { stack = t; held = s.held })
  write :
      (f : ℕ) (g : Frame → Frame)
      → count f s.held ≢ 0
      → Step base s
          (record { stack = record s.stack { frames = modify s.stack.frames f g }; held = s.held })
  give_back :
      (f : ℕ)
      → count f s.held ≢ 0
      → Step base s
          (record { stack = net_frame_free base (some f) s.stack; held = drop_one f s.held })
  post :
      (i f : ℕ)
      → count f s.held ≢ 0
      → Step base s (record { stack = post_rx base i f s.stack; held = drop_one f s.held })
  eth_input :
      (buf : List ℕ)
      → Step base s (record { stack = (eth_input_cb base buf s.stack).1; held = s.held })
  eth_link :
      (e : EthEvent) → Step base s (record { stack = eth_event base e s.stack; held = s.held })
  poll :
      (fuel i : ℕ) → Step base s (record { stack = poll_iface base fuel i s.stack; held = s.held })
  transmit :
      (i : ℕ) (frame : List ℕ)
      → Step base s (record { stack = (glue_tx_cb base i frame s.stack).1; held = s.held })
  inject :
      (i : ℕ) (frame : List ℕ)
      → Step base s (record { stack = (l2_send base i frame s.stack).1; held = s.held })
  tap :
      (et : ℕ) (cb : Option ℕ) (user : ℕ)
      → Step base s (record {
        stack = record s.stack { taps = (l2_tap et cb user s.stack.taps).1 };
        held = s.held;
      })
  register :
      (cb : Option ℕ) (user : ℕ)
      → Step base s (record { stack = (register_event_cb base cb user s.stack).1; held = s.held })
  attach :
      (has_handle : Bool) (d : Driver base.World)
      → Step base s (record { stack = (attach_eth base has_handle d s.stack).1; held = s.held })
  core : (w : base.World) → Step base s (record { stack = put_world w s.stack; held = s.held })

pub data Reach (base : Base) (start : System base) : System base → Type 0 where
  here : Reach base start start
  later : {s t : System base} → Reach base start s → Step base s t → Reach base start t
