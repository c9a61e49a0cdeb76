-- ===== src/Example/Aborts.antt =====
-- Where app_main of examples/eth_basic/main/main.c ends.
use esp_smoltcp.Common.{◌≡◌, true, false, arith, Bool, Bool-cases, inl, inr}
use esp_smoltcp.Types.{ok, invalid_state, is_ok}
use esp_smoltcp.Stack.Setup.{powered_on, init}
use esp_smoltcp.Example.{Platform, aborted, app_main, smoltcp_init}

-- There is one default event loop: once it is made, to make it again is an error
-- (ESP_ERR_INVALID_STATE), and neither nvs_flash_init nor the driver takes it away.
pub record OneLoop (p : Platform) : Type 0 where
  pub has_loop : p.World → Bool
  pub made :
      (w : p.World) → (p.event_loop_create w).0 ≡ ok → has_loop (p.event_loop_create w).1 ≡ true
  pub made_once : (w : p.World) → has_loop w ≡ true → (p.event_loop_create w).0 ≡ invalid_state
  pub nvs_keeps : (w : p.World) → has_loop w ≡ true → has_loop (p.nvs_flash_init w).1 ≡ true
  pub install_keeps : (w : p.World) → has_loop w ≡ true → has_loop (p.driver_install w).1 ≡ true

module _ (p : Platform) (one : OneLoop p) where
  open p use {World, nvs_flash_init, event_loop_create, driver_install}
  open one use {has_loop, made, made_once, nvs_keeps, install_keeps}

  -- esp_smoltcp_init makes the default event loop itself, and fails where there is one.
  pub init_wants_no_loop :
      (w : World) → has_loop w ≡ true → is_ok (smoltcp_init p powered_on w).0 ≡ false
  unfolding smoltcp_init init
  init_wants_no_loop w h =
      let (nvs, w1) = nvs_flash_init w in
      ground (arith, nvs_keeps w h, made_once (nvs_flash_init w).1)

  -- Where ESP-IDF has at most one default event loop, the example aborts in every case: it makes
  -- the loop and then calls esp_smoltcp_init, which wants to make it too.
  pub app_main_aborts : (w : World) → app_main p powered_on w ≡ aborted
  unfolding app_main
  app_main_aborts w =
      let w1 = (nvs_flash_init w).1 in
      let w2 = (event_loop_create w1).1 in
      elim (Bool-cases (is_ok (event_loop_create w1).0)) [
        | inr e ↦ ground (arith, e)
        | inl e ↦
            let there = install_keeps w2 (made w1 (ground arith)) in
            ground (arith, init_wants_no_loop (driver_install w2).1 there)
      ]
