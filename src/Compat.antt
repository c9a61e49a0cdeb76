-- ===== src/Compat.antt =====
-- components/esp_smoltcp_lwip_compat: BSD sockets over the net_sock calls.
pub mod State
pub mod Env
pub mod Loopback
pub mod Fd
pub mod Address
pub mod Socket
pub mod Accept
pub mod Transfer
pub mod Options
pub mod Select
pub mod Poll
pub mod Netif
pub mod Inet
pub mod Names
pub mod Run
pub mod Samples
mod Tests
mod WaitTests
mod NamesTests
mod RunTests
