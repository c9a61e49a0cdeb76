-- ===== src/Stack/Tests.antt =====
-- Runs of the stack on concrete inputs.
use esp_smoltcp.Common.{◌≡◌, ◌≢◌, inl, inr, refl, true, false, none, some, [], ◌∷◌, arith}
use esp_smoltcp.Types.{ok, fail, invalid_state}
use esp_smoltcp.Stack.Tap.{find_tap, l2_tap, update_tap, add_tap}
use esp_smoltcp.Stack.Tap.Laws.{IsTable, find_tap-l2_tap, zero_tap_lost}
use esp_smoltcp.Stack.Task.{drain_rx}
use esp_smoltcp.Stack.Task.Drain.{seen}
use esp_smoltcp.Stack.Task.Deliver.{DeliveredAll, drain_rx_order}
use esp_smoltcp.Stack.Setup.{Outcomes, Driver, powered_on, init, attach_eth}
use esp_smoltcp.Stack.Setup.Failures.{init_retry_hides_failure, attach_eth_stuck}
use esp_smoltcp.Stack.Query.{handle_for}
use esp_smoltcp.Stack.Samples.{
  Sim, base_sample, iface_sample, taps_sample, stack_sample, stack_down,
}

drain_rx_order_example :
    DeliveredAll base_sample 0
      (some 7)
      taps_sample
      stack_sample.frames
      (3 ∷ [])
      (seen base_sample stack_sample)
      (seen base_sample (drain_rx base_sample 2 0 stack_sample))
drain_rx_order_example =
    drain_rx_order base_sample 0 stack_sample (iface_sample 0 true (3 ∷ [])) refl

IsTable-taps_sample : IsTable taps_sample
IsTable-taps_sample = (inr refl, (inl refl, tt))

tap_added : (l2_tap 2048 (some 9) 3 taps_sample).0 ≡ ok
unfolding l2_tap update_tap add_tap
tap_added = refl

find_tap-l2_tap_example : find_tap 2048 (l2_tap 2048 (some 9) 3 taps_sample).1 ≡ some (9, 3)
find_tap-l2_tap_example =
    find_tap-l2_tap 2048 2048 (some 9) 3 taps_sample (ground arith) (ground arith)
      IsTable-taps_sample tap_added

zero_tap_lost_example :
    let taps = (l2_tap 0 (some 1) 2 (record { ethertype = 0; cb = none; user = 0 } ∷ [])).1 in
    (find_tap 0 taps ≡ some (1, 2)) × (find_tap 0 (l2_tap 2048 (some 9) 3 taps).1 ≡ none)
unfolding find_tap
zero_tap_lost_example =
    zero_tap_lost 1 2 2048 9 3 (record { ethertype = 0; cb = none; user = 0 }) [] refl
      (ground arith) refl refl

abbrev all_succeed : Outcomes
all_succeed = record {
  nvs = ok;
  event_loop = ok;
  events_made = true;
  lock_made = true;
  task_made = true;
}

-- The creation of the task fails.
abbrev no_task : Outcomes
no_task = record all_succeed { task_made = false }

init_fails : (init no_task powered_on).0 ≢ ok
unfolding init
init_fails = ground arith

init_retry_hides_failure_example :
    ((init all_succeed (init no_task powered_on).1).0 ≡ ok)
    × ((init all_succeed (init no_task powered_on).1).1.has_task ≡ false)
init_retry_hides_failure_example = init_retry_hides_failure no_task all_succeed init_fails

-- A driver whose MAC address can not be read, and one that works.
abbrev driver_sample : Driver Sim
driver_sample = record {
  mac = 2 ∷ 0 ∷ 0 ∷ 0 ∷ 0 ∷ 1 ∷ [];
  get_mac = ok;
  set_input = ok;
  set_handler = ok;
  iface_new = λ mac w. (some 7, w);
  start = λ w. w;
  configure = λ h w. w;
  with_ptp = true;
  ptp_rx = 21;
}

abbrev bad_driver : Driver Sim
bad_driver = record driver_sample { get_mac = fail }

attach_fails : (attach_eth base_sample true bad_driver stack_down).0 ≢ ok
unfolding attach_eth
attach_fails = ground arith

attach_eth_stuck_example :
    let t = (attach_eth base_sample true bad_driver stack_down).1 in
    (attach_eth base_sample true driver_sample t ≡ (invalid_state, t))
    × (handle_for base_sample 0 t ≡ some 7)
attach_eth_stuck_example =
    attach_eth_stuck base_sample bad_driver driver_sample stack_down (iface_sample 0 false []) refl
      refl attach_fails
