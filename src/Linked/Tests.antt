-- ===== src/Linked/Tests.antt =====
-- A send through both components on a concrete input.
use esp_smoltcp.Common.{ℤ, ◌≤◌, ◌++◌, ◌+◌, take, ◌⊎◌, ℕ, pos, ◌≡◌, refl, true, [], ◌∷◌, arith}
use esp_smoltcp.Common.Fifo.{Fifo, fifo}
use esp_smoltcp.Types.{unset}
use esp_smoltcp.Stack.Glue.{State as NetState}
use esp_smoltcp.Stack.Query.{handle_for}
use esp_smoltcp.Stack.Sock.{iface_of, local_of}
use esp_smoltcp.Stack.Samples.{base_sample, stack_sample}
use esp_smoltcp.Stack.SockTests.{send_laws_sample}
use esp_smoltcp.Compat.State.{tcp, Msg, Entry, put_net}
use esp_smoltcp.Compat.Env.{State}
use esp_smoltcp.Compat.Fd.{fd_get, fresh_entry, slot_of}
use esp_smoltcp.Compat.Samples.{env_sample}
use esp_smoltcp.Compat.Transfer.{send}
use esp_smoltcp.Linked.{linked}
use esp_smoltcp.Linked.Stream.{AnswerFor, send_streams}

-- Descriptor 54 is a connected TCP socket with the core's socket 5 and a timeout of 5 ms.
abbrev entry_sample : Entry (Fifo Msg)
entry_sample = record (fresh_entry tcp 0) { connected = true; sock = 5; snd_timeout_ms = 5 }

abbrev linked_sample : State (linked base_sample 9 env_sample.config (fifo Msg))
linked_sample = record { table = entry_sample ∷ []; slots = []; net = stack_sample; errno = unset }

send_streams_example :
    (code : ℤ) × (m : ℕ) × (t : NetState base_sample) × (send
        (linked base_sample 9 env_sample.config (fifo Msg))
        (pos 54)
        (1 ∷ 2 ∷ 3 ∷ [])
        linked_sample
      ≡ (code, put_net t linked_sample))
    × AnswerFor m code
    × (m ≤ 3)
    × (t.world.sent ≡ [] ++ take m (1 ∷ 2 ∷ 3 ∷ []))
    × ((m ≡ 3) ⊎ (0 + 5 ≤ t.world.now))
unfolding local_of iface_of handle_for fd_get slot_of
send_streams_example =
    send_streams base_sample env_sample.config (fifo Msg) 9 7 0 (pos 54) entry_sample
      (1 ∷ 2 ∷ 3 ∷ []) linked_sample send_laws_sample refl refl refl refl (omega arith)
      (omega arith) (omega arith)
