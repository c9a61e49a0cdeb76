-- ===== src/Stack/Round.antt =====
-- src/esp_smoltcp.c: one round of net_stack_task. It polls the enabled interfaces and sleeps until
-- the soonest deadline, or until it is notified.
use esp_smoltcp.Common.{ℕ, zero, suc, ◌+◌, ◌-◌, ◌/◌, none, some, if◌then◌else◌, ◌==◌, get_elem?}
use esp_smoltcp.Types.{iface_max, u32_mod}
use esp_smoltcp.Stack.Glue.{Base, State}
use esp_smoltcp.Stack.Task.{poll_iface, next_deadline, no_deadline}

module _ (base : Base) where
  open base use {ms_to_ticks}

  -- `if (s_ifaces[i].enabled) poll_iface(&s_ifaces[i])`
  unfoldable pub poll_enabled : ℕ → ℕ → State base → State base
  poll_enabled fuel i s = elim (get_elem? s.ifaces i) [
    | none ↦ s
    | some x ↦ if x.enabled then poll_iface base fuel i s else s
  ]

  -- The loop over the interfaces, from `i` with `k` rounds left.
  unfoldable pub poll_all : ℕ → ℕ → ℕ → State base → State base
  poll_all fuel i zero s = s
  poll_all fuel i (suc k) s = poll_all fuel (suc i) k (poll_enabled fuel i s)

  -- The ticks that the task sleeps at most: portMAX_DELAY without a deadline, else at least one.
  unfoldable pub sleep_ticks : ℕ → ℕ
  sleep_ticks next =
      let wait =
        if next == no_deadline base then u32_mod - 1 else ms_to_ticks ((next + 999) / 1000) in
      if wait == 0 then 1 else wait

  unfoldable pub task_round : ℕ → State base → ℕ × State base
  task_round fuel s =
      let t = poll_all fuel 0 iface_max s in
      (sleep_ticks (next_deadline base t.ifaces t.world (no_deadline base)), t)
