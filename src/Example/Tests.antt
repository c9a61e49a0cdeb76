-- ===== src/Example/Tests.antt =====
-- app_main on a concrete platform.
use esp_smoltcp.Common.{◌≡◌, refl, arith, Bool, true, false, if◌then◌else◌}
use esp_smoltcp.Types.{ok, invalid_state}
use esp_smoltcp.Stack.Setup.{powered_on}
use esp_smoltcp.Example.{Platform, aborted, app_main}
use esp_smoltcp.Example.Aborts.{app_main_aborts}

-- The world is whether there is a default event loop; every other step succeeds.
abbrev platform_sample : Platform
platform_sample = record {
  World = Bool;
  nvs_flash_init = λ w. (ok, w);
  event_loop_create = λ w. (if w then invalid_state else ok, true);
  driver_install = λ w. (ok, w);
  events_made = true;
  lock_made = true;
  task_made = true;
  attach_eth = λ b w. (ok, w);
  wait_for_ip = λ b w. ok;
}

create_again : (w : Bool) → w ≡ true → (platform_sample.event_loop_create w).0 ≡ invalid_state
create_again true h = refl
create_again false h = absurd (ground arith)

app_main_aborts_example : app_main platform_sample powered_on false ≡ aborted
app_main_aborts_example =
    app_main_aborts platform_sample
      (record {
        has_loop = λ w. w;
        made = λ w h. refl;
        made_once = create_again;
        nvs_keeps = λ w h. h;
        install_keeps = λ w h. h;
      })
      false
