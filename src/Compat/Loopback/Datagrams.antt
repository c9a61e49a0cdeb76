-- ===== src/Compat/Loopback/Datagrams.antt =====
-- The queues behind src/loopback.c: draining, and what `lo_deliver` puts in.
use esp_smoltcp.Common.{ℕ, zero, suc, ◌≡◌, refl, ◌<◌, List, [], ◌∷◌, length, arith, QueueApi}
use esp_smoltcp.Compat.State.{Msg}
use esp_smoltcp.Compat.Loopback.{drain}

module _ (qs : QueueApi Msg) where
  open qs use {
    Queue, contents, capacity, receive, receive_nil, receive_cons, waiting, waiting_length, send,
    send_room, send_full,
  }

  drain_enough :
      (n : ℕ) (ms : List Msg) (q : Queue)
      → contents q ≡ ms
      → length ms < n
      → contents (drain qs n q) ≡ []
  unfolding drain
  drain_enough zero ms q e h = absurd (omega arith)
  drain_enough (suc n) [] q e h = rw (receive_nil q e, drain) e
  drain_enough (suc n) (m ∷ ms) q e h =
      let (q', r, c, k) = receive_cons q m ms e in
      rw (r, drain) (drain_enough n ms q' c (omega arith))

  -- With the number of waiting datagrams and one more as fuel, the loop at the end of lo_unbind
  -- leaves the queue empty.
  pub drain_empties : (q : Queue) → contents (drain qs (suc (waiting q)) q) ≡ []
  drain_empties q = drain_enough _ (contents q) q refl (omega (arith, waiting_length q))
