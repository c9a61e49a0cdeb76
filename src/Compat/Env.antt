-- ===== src/Compat/Env.antt =====
-- What the shim is built over: its settings, the FreeRTOS queues of datagrams and the net_sock
-- calls.
use esp_smoltcp.Common.{QueueApi}
use esp_smoltcp.Net.{NetApi}
use esp_smoltcp.Compat.State.{Config, Msg, Compat}

pub record Env : Type 1 where
  pub config : Config
  pub open config use *
  pub queue : QueueApi Msg
  pub open queue use *
  pub api : NetApi
  pub open api use *

abbrev pub State : Env → Type 0
State env = Compat env.Queue env.Net
