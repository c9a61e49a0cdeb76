-- ===== src/Stack/Glue.antt =====
-- The interface to what lies below src/esp_smoltcp.c and src/esp_smoltcp_sock.c: the C interface
-- of the Rust core (components/esp_smoltcp_glue/include/smoltcp_glue.h), the Ethernet driver and
-- the FreeRTOS clock. A handle is `none` for NULL.
use esp_smoltcp.Common.{ℕ, ℤ, Bool, Option, List, QueueApi}
use esp_smoltcp.Types.{EspErr}
use esp_smoltcp.Stack.State.{Stack}

pub record Glue : Type 1 where
  pub World : Type 0
  pub iface_rx : Option ℕ → List ℕ → World → World
  -- One poll, and the frames that it hands to smoltcp_glue_tx_cb, whose result it ignores.
  pub iface_poll : Option ℕ → World → List (ℕ × List ℕ) × World
  pub poll_delay_us : Option ℕ → World → ℤ
  pub set_link_up : Option ℕ → Bool → World → World
  pub has_ip : Option ℕ → World → Bool
  pub iface_ipv4 : Option ℕ → World → ℕ
  pub iface_gw : Option ℕ → World → ℕ
  pub iface_netmask : Option ℕ → World → ℕ
  -- The first IPv6 address, where there is one.
  pub iface_ipv6 : Option ℕ → World → Option (List ℕ)
  pub socket_count : Option ℕ → World → ℕ
  pub iface_mcast_join : Option ℕ → ℕ → World → ℤ × World
  pub iface_mcast_leave : Option ℕ → ℕ → World → ℤ × World
  pub open_tcp : Option ℕ → World → ℕ × World
  -- handle, socket, address, port
  pub connect_tcp : Option ℕ → ℕ → ℕ → ℕ → World → ℤ × World
  pub listen_tcp : Option ℕ → ℕ → ℕ → World → ℤ × World
  pub send_tcp : Option ℕ → ℕ → List ℕ → World → ℤ × World
  pub recv_tcp : Option ℕ → ℕ → ℕ → World → ℤ × List ℕ × World
  pub is_active : Option ℕ → ℕ → World → Bool
  pub is_connected : Option ℕ → ℕ → World → Bool
  pub recv_queue : Option ℕ → ℕ → World → ℕ
  pub send_capacity : Option ℕ → ℕ → World → ℕ
  pub close_tcp : Option ℕ → ℕ → World → World
  pub open_udp : Option ℕ → ℕ → World → ℕ × World
  pub sendto_udp : Option ℕ → ℕ → List ℕ → ℕ → ℕ → World → ℤ × World
  pub recvfrom_udp : Option ℕ → ℕ → ℕ → World → ℤ × List ℕ × ℕ × ℕ × World
  pub close_udp : Option ℕ → ℕ → World → World
  -- esp_eth_transmit
  pub transmit : List ℕ → World → EspErr × World
  -- xTaskGetTickCount and pdMS_TO_TICKS
  pub ticks : World → ℕ
  pub ms_to_ticks : ℕ → ℕ

-- The stack is built over the core and the queues of frame pointers.
pub record Base : Type 1 where
  pub queue : QueueApi ℕ
  pub open queue use *
  pub glue : Glue
  pub open glue use *
  -- What the other tasks, the poll task above all, do with the stack while a task sleeps for some
  -- ticks (vTaskDelay) or waits for the poll task for some ms (net_stack_wait_progress).
  pub sleep : ℕ → Stack Queue World → Stack Queue World
  pub wait_progress : ℕ → Stack Queue World → Stack Queue World

abbrev pub State : Base → Type 0
State base = Stack base.Queue base.World
