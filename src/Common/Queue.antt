-- ===== src/Common/Queue.antt =====
-- FreeRTOS queues (xQueueSend, xQueueReceive, uxQueueMessagesWaiting with no waiting time): a
-- component outside the repository, taken as an interface with its documented behaviour.
use Prim.Native.Nat.{ℕ, ◌≤◌, ◌<◌}
use mathlib.Core.Path.{◌≡◌}
use mathlib.Core.Bool.{Bool, true, false}
use mathlib.Core.Option.{Option, none, some}
use mathlib.Core.List.{List, [], ◌∷◌, ◌++◌}
use esp_smoltcp.Common.Lists.{length}

pub record QueueApi (A : Type 0) : Type 1 where
  pub Queue : Type 0
  -- The items waiting, oldest first, and the length given to xQueueCreate.
  pub contents : Queue → List A
  pub capacity : Queue → ℕ
  -- pdTRUE and the new queue, or errQUEUE_FULL.
  pub send : A → Queue → Bool × Queue
  pub receive : Queue → Option (A × Queue)
  pub waiting : Queue → ℕ
  pub send_room :
      (a : A) (q : Queue)
      → length (contents q) < capacity q
      → ((send a q).0 ≡ true) × (contents (send a q).1 ≡ contents q ++ a ∷ [])
  pub send_full :
      (a : A) (q : Queue)
      → capacity q ≤ length (contents q)
      → ((send a q).0 ≡ false) × (contents (send a q).1 ≡ contents q)
  pub capacity_send : (a : A) (q : Queue) → capacity (send a q).1 ≡ capacity q
  pub receive_nil : (q : Queue) → contents q ≡ [] → receive q ≡ none
  pub receive_cons :
      (q : Queue) (a : A) (r : List A)
      → contents q ≡ a ∷ r
      → (q' : Queue) × (receive q ≡ some (a, q')) × (contents q' ≡ r) × (capacity q' ≡ capacity q)
  pub waiting_length : (q : Queue) → waiting q ≡ length (contents q)
