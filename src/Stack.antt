-- ===== src/Stack.antt =====
-- components/esp_smoltcp: frame pool, interfaces, L2 taps, poll task and socket calls.
pub mod State
pub mod Glue
pub mod Frames
pub mod Tap
pub mod Iface
pub mod Task
pub mod Ptp
pub mod Round
pub mod Run
pub mod Setup
pub mod Query
pub mod Sock
pub mod Datagram
pub mod Samples
mod Tests
pub mod SockTests
mod RunTests
