-- ===== src/Stack/Setup.antt =====
-- src/esp_smoltcp.c: net_stack_init and esp_smoltcp_attach_eth, with the results of the calls to
-- ESP-IDF as arguments. src/ptp.c: the tap that attaching registers where PTP is configured.
pub mod Failures
use esp_smoltcp.Common.{
  ℕ, Bool, true, false, not, ◌||◌, Option, none, some, List, if◌then◌else◌, get_elem?,
}
use esp_smoltcp.Types.{EspErr, ok, no_mem, invalid_arg, invalid_state, is_ok, iface_eth}
use esp_smoltcp.Stack.State.{Iface, Stack, put_iface, put_world}
use esp_smoltcp.Stack.Glue.{Base, State}
use esp_smoltcp.Stack.Tap.{l2_tap}
use esp_smoltcp.Stack.Iface.{kick_poll}

-- What net_stack_init has set up: the static `inited`, and whether the event groups, the lock, the
-- frame pool and the task are there.
pub record Boot : Type 0 where
  pub inited : Bool
  pub has_events : Bool
  pub has_lock : Bool
  pub has_pool : Bool
  pub has_task : Bool

abbrev pub powered_on : Boot
powered_on = record {
  inited = false;
  has_events = false;
  has_lock = false;
  has_pool = false;
  has_task = false;
}

-- The results of nvs_flash_init, esp_event_loop_create_default, the creation of the event groups,
-- of the mutex and of the task.
pub record Outcomes : Type 0 where
  pub nvs : EspErr
  pub event_loop : EspErr
  pub events_made : Bool
  pub lock_made : Bool
  pub task_made : Bool

-- The part behind the checks of nvs and event loop.
unfoldable pub init_parts : Outcomes → Boot → EspErr × Boot
init_parts o b =
    if not o.events_made
    then (no_mem, b)
    else if not o.lock_made
    then (no_mem, record b { has_events = true })
    else if o.task_made
    then (ok, record b { has_events = true; has_lock = true; has_pool = true; has_task = true })
    else (no_mem, record b { has_events = true; has_lock = true; has_pool = true })

unfoldable pub init : Outcomes → Boot → EspErr × Boot
unfolding init_parts
init o b =
    if b.inited
    then (ok, b)
    else if not (is_ok o.nvs)
    then (o.nvs, record b { inited = true })
    else if not (is_ok o.event_loop)
    then (o.event_loop, record b { inited = true })
    else init_parts o (record b { inited = true })

-- What esp_smoltcp_attach_eth asks of the driver and of the core: the results of the calls that
-- can fail, the MAC address, and the calls that change the world.
pub record Driver (W : Type 0) : Type 0 where
  pub mac : List ℕ
  pub get_mac : EspErr
  pub set_input : EspErr
  pub set_handler : EspErr
  pub iface_new : List ℕ → W → Option ℕ × W
  -- esp_eth_start
  pub start : W → W
  -- smoltcp_iface_enable_dhcp, or smoltcp_iface_set_static, as configured
  pub configure : Option ℕ → W → W
  -- CONFIG_NETSTACK_PTP, and `ptp_rx`
  pub with_ptp : Bool
  pub ptp_rx : ℕ

-- ETHERTYPE_PTP
abbrev pub ethertype_ptp : ℕ
ethertype_ptp = 0x88F7

module _ (base : Base) where
  open base use {Queue, World}

  unfoldable pub ptp_start : Driver World → State base → State base
  ptp_start d s = record s { taps = (l2_tap ethertype_ptp (some d.ptp_rx) 0 s.taps).1 }

  -- The part behind the calls that can fail.
  unfoldable pub bring_up : Driver World → State base → State base
  bring_up d s =
      let (h, w) = d.iface_new d.mac s.world in
      let t =
        put_iface iface_eth (λ x. record x { handle = h })
          (put_world (d.configure h (d.start w)) s) in
      kick_poll base (if d.with_ptp then ptp_start d t else t)

  abbrev pub enabled_eth : Iface Queue → Iface Queue
  enabled_eth x = record x { enabled = true; has_tx = true }

  -- `has_handle` tells that the argument is not NULL.
  unfoldable pub attach_eth : Bool → Driver World → State base → EspErr × State base
  attach_eth has_handle d s = elim (get_elem? s.ifaces iface_eth) [
    | none ↦ (invalid_arg, s)
    | some x ↦
        let t = put_iface iface_eth enabled_eth s in
        let u = put_iface iface_eth (λ y. record y { mac = d.mac }) t in
        if not has_handle
        then (invalid_arg, s)
        else if x.enabled
        then (invalid_state, s)
        else if not (is_ok d.get_mac)
        then (d.get_mac, t)
        else if not (is_ok d.set_input)
        then (d.set_input, u)
        else if not (is_ok d.set_handler)
        then (d.set_handler, u)
        else (ok, bring_up d u)
  ]
