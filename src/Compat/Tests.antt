-- ===== src/Compat/Tests.antt =====
-- Runs of the shim on concrete inputs.
use esp_smoltcp.Common.{
  List, ◌≢◌, length, ℕ, pos, ◌≡◌, inl, inr, refl, true, none, some, [], ◌∷◌, arith, All,
}
use esp_smoltcp.Common.Fifo.{Fifo, fifo}
use esp_smoltcp.Types.{ok}
use esp_smoltcp.Compat.State.{tcp, Msg, Entry}
use esp_smoltcp.Compat.Env.{State}
use esp_smoltcp.Compat.Loopback.{scan, bind_slots, find_target, lo_deliver}
use esp_smoltcp.Compat.Loopback.Slots.{Distinct}
use esp_smoltcp.Compat.Fd.{slot_of, fd_get, first_free, fresh_entry, fd_alloc, fd_free}
use esp_smoltcp.Compat.Fd.Alloc.{fd_alloc_fresh, fresh_at}
use esp_smoltcp.Compat.Address.{SockAddr}
use esp_smoltcp.Compat.Socket.{connect, pool_size, arm, listen_armed, listen}
use esp_smoltcp.Compat.Socket.Listen.{AskedFor, listening_entry, listen_arms}
use esp_smoltcp.Net.{net_sock_valid}
use esp_smoltcp.Compat.Socket.Stale.{connect_close_leaves_stale}
use esp_smoltcp.Compat.Transfer.{recvfrom}
use esp_smoltcp.Compat.Transfer.RoundTrip.{ToldSource, recvfrom-lo_deliver}
use esp_smoltcp.Compat.Samples.{env_sample, lo_entry, slots_sample, compat_sample}

Distinct-slots_sample : Distinct slots_sample
Distinct-slots_sample = (inr refl, (inl refl, (inl refl, (inl refl, tt))))

slot_added : (bind_slots 9 2 slots_sample).0 ≡ ok
unfolding bind_slots scan
slot_added = refl

abbrev msg_sample : Msg
msg_sample = record { src_be = 16777343; src_port = 9; len = 2; bytes = 1 ∷ 2 ∷ [] }

abbrev queue_sample : Fifo Msg
queue_sample = record { items = msg_sample ∷ msg_sample ∷ []; room = 8 }

allocated : (fd_alloc env_sample tcp compat_sample).0 ≡ pos 57
unfolding fd_alloc first_free
allocated = refl

fd_alloc_fresh_example :
    let t = (fd_alloc env_sample tcp compat_sample).1 in
    (fd_get env_sample.config (pos 57) compat_sample.table ≡ none)
    × (fd_get env_sample.config (pos 57) t.table ≡ some (3, fresh_at env_sample tcp compat_sample))
    × (fd_get env_sample.config (pos 54) t.table
        ≡ fd_get env_sample.config (pos 54) compat_sample.table)
    × (t.slots ≡ slots_sample)
    × (t.net ≡ 0)
fd_alloc_fresh_example =
    fd_alloc_fresh env_sample tcp compat_sample 57 (pos 54) refl allocated (ground arith)

-- 127.0.0.1, port 2304
abbrev addr_sample : SockAddr
addr_sample = record { is_inet = true; port_be = 9; addr_be = 16777343 }

connect_close_leaves_stale_example :
    let t =
      fd_free env_sample (pos 54) (connect env_sample (pos 54) addr_sample 16 compat_sample).1 in
    ((connect env_sample (pos 54) addr_sample 16 compat_sample).0 ≡ pos 0)
    × (fd_get env_sample.config (pos 54) t.table ≡ none)
    × (find_target 7 t.slots ≡ some 0)
unfolding fd_get slot_of find_target
connect_close_leaves_stale_example =
    connect_close_leaves_stale env_sample (pos 54) compat_sample 0 lo_entry addr_sample 16 refl refl
      refl Distinct-slots_sample (ground arith) refl (omega arith) (ground arith)

recvfrom-lo_deliver_example :
    let sent = lo_deliver (fifo Msg) 7 16777343 9 (some (1 ∷ 2 ∷ 3 ∷ [])) true compat_sample in
    let got = recvfrom env_sample (pos 54) 2 (some 16) none sent.1 in
    (sent.0 ≡ pos 3)
    × (got.result ≡ pos 2)
    × (got.bytes ≡ 1 ∷ 2 ∷ [])
    × ToldSource 2 (some 16) 16777343 9 got.source
unfolding fd_get slot_of find_target
recvfrom-lo_deliver_example =
    recvfrom-lo_deliver env_sample (pos 54) 0 7 16777343 9 2 lo_entry
      (record { items = []; room = 8 }) (1 ∷ 2 ∷ 3 ∷ []) (some 16) none compat_sample refl refl refl
      refl refl (omega arith) refl (omega arith)

-- A TCP socket bound to port 80.
abbrev tcp_entry : Entry (Fifo Msg)
tcp_entry = record (fresh_entry tcp 0) { local_port = 80 }

abbrev tcp_sample : State env_sample
tcp_sample = record compat_sample { table = tcp_entry ∷ [] }

listens : (listen env_sample (pos 54) (pos 5) true tcp_sample).0 ≡ pos 0
unfolding listen pool_size arm listen_armed fd_get slot_of
listens = refl

listen_arms_example :
    (true ≡ true)
    × (tcp_entry.local_port ≢ 0)
    × ((xs : List ℕ) × (fd_get env_sample.config
            (pos 54)
            (listen env_sample (pos 54) (pos 5) true tcp_sample).1.table
          ≡ some (0, listening_entry env_sample (length xs) xs tcp_entry))
        × AskedFor env_sample (pos 5) (length xs)
        × All (λ x. net_sock_valid x ≡ true) xs)
unfolding fd_get slot_of
listen_arms_example =
    listen_arms env_sample (pos 54) (pos 5) 0 tcp_entry true tcp_sample refl listens
