-- ===== src/Example.antt =====
-- examples/eth_basic/main/main.c: app_main over the setup of the stack. ESP-IDF's functions are
-- arguments that act on a world of their own; ESP_ERROR_CHECK aborts on anything but ESP_OK.
pub mod Aborts
mod Tests
use esp_smoltcp.Common.{ℕ, Bool, Option, none, some, if◌then◌else◌, get_or}
use esp_smoltcp.Types.{EspErr, is_ok}
use esp_smoltcp.Compat.Inet.{Text, print_ipv4, bytes_of}
use esp_smoltcp.Stack.State.{Event, iface_up, iface_down, got_ip, lost_ip}
use esp_smoltcp.Stack.Setup.{Boot, init}

-- nvs_flash_init, esp_event_loop_create_default, and esp_eth_driver_install as install_ethernet
-- calls it; whether the event groups, the mutex and the task can be made; esp_smoltcp_attach_eth,
-- and esp_smoltcp_wait_for_ip with 15 s.
pub record Platform : Type 1 where
  pub World : Type 0
  pub nvs_flash_init : World → EspErr × World
  pub event_loop_create : World → EspErr × World
  pub driver_install : World → EspErr × World
  pub events_made : Bool
  pub lock_made : Bool
  pub task_made : Bool
  pub attach_eth : Boot → World → EspErr × World
  pub wait_for_ip : Boot → World → EspErr

-- How app_main ends.
pub data Ending : Type 0 where
  aborted online no_ip : Ending

module _ (p : Platform) where
  open p use {
    World, nvs_flash_init, event_loop_create, driver_install, events_made, lock_made, task_made,
    attach_eth, wait_for_ip,
  }

  -- esp_smoltcp_init, with the calls that it makes itself.
  unfoldable pub smoltcp_init : Boot → World → EspErr × Boot × World
  smoltcp_init b w =
      let (nvs, w1) = nvs_flash_init w in
      let (event_loop, w2) = event_loop_create w1 in
      let (r, b') =
        init
          (record {
            nvs = nvs;
            event_loop = event_loop;
            events_made = events_made;
            lock_made = lock_made;
            task_made = task_made;
          })
          b in
      (r, b', if b.inited then w else if is_ok nvs then w2 else w1)

  -- app_main from esp_smoltcp_attach_eth on.
  unfoldable pub go_online : Boot → World → Ending
  go_online b w =
      let (r, w1) = attach_eth b w in
      if is_ok r then (if is_ok (wait_for_ip b w1) then online else no_ip) else aborted

  unfoldable pub app_main : Boot → World → Ending
  app_main b w =
      let (nvs, w1) = nvs_flash_init w in
      let (event_loop, w2) = event_loop_create w1 in
      let (install, w3) = driver_install w2 in
      let (ready, b', w4) = smoltcp_init b w3 in
      if is_ok nvs
      then (if is_ok event_loop
          then (if is_ok install
              then (if is_ok ready then go_online b' w4 else aborted)
              else aborted)
          else aborted)
      else aborted

-- The address that `on_evt` logs, where it logs one. `ip` is esp_smoltcp_get_ipv4 of the interface.
unfoldable pub on_evt : Event → ℕ → Option Text
on_evt got_ip ip = some (
    print_ipv4 (get_or (bytes_of ip) 0 0) (get_or (bytes_of ip) 1 0) (get_or (bytes_of ip) 2 0)
      (get_or (bytes_of ip) 3 0))
on_evt iface_up ip = none
on_evt iface_down ip = none
on_evt lost_ip ip = none
