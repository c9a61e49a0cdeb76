-- ===== src/Net.antt =====
-- The interface between the two components: what components/esp_smoltcp_lwip_compat calls of
-- components/esp_smoltcp (include/esp_smoltcp_socket.h, net_stack_get_ipv4) and of the FreeRTOS
-- clock. A socket is its 32-bit id, 0 the invalid one; addresses are in network byte order.
use esp_smoltcp.Common.{ℕ, ℤ, Bool, List, not, ◌==◌}
use esp_smoltcp.Types.{EspErr}

pub record NetApi : Type 1 where
  -- Everything below the socket calls: the interfaces, the smoltcp core, the wire and the clock.
  pub Net : Type 0
  pub tcp_open : ℕ → Net → ℕ × Net
  -- socket, address, port, timeout in ms
  pub tcp_connect : ℕ → ℕ → ℕ → ℕ → Net → EspErr × Net
  pub tcp_listen : ℕ → ℕ → Net → EspErr × Net
  pub tcp_send : ℕ → List ℕ → ℕ → Net → ℤ × Net
  -- socket, capacity, timeout: the result and the bytes stored in the buffer
  pub tcp_recv : ℕ → ℕ → ℕ → Net → ℤ × List ℕ × Net
  pub tcp_close : ℕ → Net → Net
  pub tcp_is_connected : ℕ → Net → Bool
  pub tcp_recv_queue : ℕ → Net → ℕ
  pub tcp_send_capacity : ℕ → Net → ℕ
  pub udp_open : ℕ → ℕ → Net → ℕ × Net
  -- socket, payload, destination address and port
  pub udp_sendto : ℕ → List ℕ → ℕ → ℕ → Net → ℤ × Net
  -- socket, capacity, timeout: the result, the bytes stored, the source address and port
  pub udp_recvfrom : ℕ → ℕ → ℕ → Net → ℤ × List ℕ × ℕ × ℕ × Net
  pub udp_close : ℕ → Net → Net
  pub mcast_join : ℕ → ℕ → Net → EspErr × Net
  pub mcast_leave : ℕ → ℕ → Net → EspErr × Net
  pub get_ipv4 : ℕ → Net → ℕ
  -- xTaskGetTickCount, and vTaskDelay with all that the other tasks do meanwhile
  pub tick_count : Net → ℕ
  pub delay : ℕ → Net → Net

-- `net_sock_valid`
abbrev pub net_sock_valid : ℕ → Bool
net_sock_valid s = not (s == 0)
