-- ===== src/Core.antt =====
-- components/esp_smoltcp_glue/src: the Rust glue between the C side and the smoltcp crate, which is
-- not in the repository and is a parameter of what uses it.
pub mod Outcome
pub mod Dns
pub mod Device
pub mod Crate
pub mod Machine
pub mod Ctx
pub mod Resolve
mod Samples
mod Tests
mod CtxTests
mod MachineTests
