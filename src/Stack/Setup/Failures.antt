-- ===== src/Stack/Setup/Failures.antt =====
-- What the setup of src/esp_smoltcp.c leaves behind when a step fails.
use esp_smoltcp.Common.{
  ◌≡◌, ◌≢◌, ◌↔◌, true, false, some, arith, get_elem?, get_elem?-modify_self, modify,
}
use esp_smoltcp.Types.{ok, invalid_state, iface_eth}
use esp_smoltcp.Stack.State.{Iface}
use esp_smoltcp.Stack.Glue.{Base, State}
use esp_smoltcp.Stack.Setup.{Boot, Outcomes, powered_on, init, Driver, attach_eth, enabled_eth}
use esp_smoltcp.Stack.Query.{handle_for}

-- All that net_stack_init is to set up.
pub record IsReady (b : Boot) : Type 0 where
  pub events : b.has_events ≡ true
  pub lock : b.has_lock ≡ true
  pub pool : b.has_pool ≡ true
  pub task : b.has_task ≡ true

-- That every step of the setup succeeds.
pub record Succeeds (o : Outcomes) : Type 0 where
  pub nvs : o.nvs ≡ ok
  pub event_loop : o.event_loop ≡ ok
  pub events_made : o.events_made ≡ true
  pub lock_made : o.lock_made ≡ true
  pub task_made : o.task_made ≡ true

-- The first call answers ESP_OK exactly when every step succeeds, and exactly when the event
-- groups, the lock, the frame pool and the task are there afterwards.
pub init_first :
    (o : Outcomes)
    → (((init o powered_on).0 ≡ ok) ↔ Succeeds o)
      × (((init o powered_on).0 ≡ ok) ↔ IsReady (init o powered_on).1)
unfolding init
init_first o = ((λ h. ground arith, λ v. ground arith), (λ h. ground arith, λ v. ground arith))

-- A second call answers ESP_OK and does nothing, also when the first one failed.
pub init_again : (o o' : Outcomes) (b : Boot) → init o' (init o b).1 ≡ (ok, (init o b).1)
unfolding init
init_again o o' b = ground arith

-- After a first call that does not answer ESP_OK, a second call answers ESP_OK, whatever its own
-- steps would do, and there is still no poll task.
pub init_retry_hides_failure :
    (o o' : Outcomes)
    → (init o powered_on).0 ≢ ok
    → ((init o' (init o powered_on).1).0 ≡ ok)
      × ((init o' (init o powered_on).1).1.has_task ≡ false)
unfolding init
init_retry_hides_failure o o' h = ground arith

module _ (base : Base) where
  open base use {Queue, World}

  -- If a step of esp_smoltcp_attach_eth fails on the disabled Ethernet interface, every later
  -- attach is refused with ESP_ERR_INVALID_STATE and changes nothing, while the socket calls find
  -- the interface enabled, with the handle that it had before.
  pub attach_eth_stuck :
      (d d' : Driver World) (s : State base) (x : Iface Queue)
      → get_elem? s.ifaces iface_eth ≡ some x
      → x.enabled ≡ false
      → (attach_eth base true d s).0 ≢ ok
      → let t = (attach_eth base true d s).1 in
        (attach_eth base true d' t ≡ (invalid_state, t)) × (handle_for base iface_eth t ≡ x.handle)
  unfolding attach_eth handle_for
  attach_eth_stuck d d' s x g off ne = ground (
    arith,
    get_elem?-modify_self s.ifaces 0 (enabled_eth base) x,
    get_elem?-modify_self (modify s.ifaces 0 (enabled_eth base)) 0
        (λ (y : Iface Queue). record y { mac = d.mac }) (enabled_eth base x),
  )
