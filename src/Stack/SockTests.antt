-- ===== src/Stack/SockTests.antt =====
-- Runs of the socket calls on concrete inputs.
use esp_smoltcp.Common.{
  ap, ℤ, ℕ, ◌+◌, ◌-◌, ◌*◌, ◌^◌, ◌≤◌, ◌≡◌, refl, some, List, [], ◌∷◌, arith, length,
}
use esp_smoltcp.Types.{EspErr}
use esp_smoltcp.Stack.Query.{handle_for}
use esp_smoltcp.Stack.Sock.{encode, iface_of, local_of, to_socket, net_tcp_connect, net_tcp_recv}
use esp_smoltcp.Stack.Sock.Handles.{encode_truncates}
use esp_smoltcp.Stack.Sock.Waits.{
  NapLaws, Napped, Ended, RoundLaws, Got, net_tcp_connect_returns, net_tcp_recv_returns,
}
use esp_smoltcp.Stack.Sock.Send.{SendLaws, world-kick_poll}
use esp_smoltcp.Stack.Glue.{State}
use esp_smoltcp.Stack.Samples.{Sim, chunk, base_sample, stack_sample}

encode_truncates_example :
    (local_of (encode 1 (5 + 1 * 2 ^ 24)) ≡ 5) × (to_socket base_sample 0 (1 * 2 ^ 24) ≡ 0)
encode_truncates_example =
    encode_truncates base_sample 1 5 1 (omega arith) (omega arith) (ground arith)

pub chunk_short : (buf : List ℕ) → chunk buf ≤ length buf
chunk_short [] = omega arith
chunk_short (x ∷ xs) = omega arith

-- What the calls rely on holds of the world of the examples, with a deadline at 5 ticks.
abbrev pub send_laws_sample : SendLaws base_sample 7 5 5
send_laws_sample = record {
  stream = λ w. w.sent;
  rank = λ s. 5 - s.world.now;
  send_appends = λ buf s. (refl, chunk_short buf, omega arith);
  kick_ranks = λ s. omega (arith, ap (λ (w : Sim). w.now) (world-kick_poll base_sample s));
  wait_keeps = λ s. refl;
  wait_ranks = λ s h. omega arith;
}

abbrev nap_laws_sample : NapLaws base_sample 5
nap_laws_sample = record { rank = λ s. 5 - s.world.now; nap_ranks = λ s h. omega arith }

net_tcp_connect_returns_example :
    (e : EspErr) × (t : State base_sample) × (net_tcp_connect base_sample 9 5 16820416 80 5
        stack_sample
      ≡ some (e, t))
    × Napped base_sample 7 5 5 nap_laws_sample stack_sample t
    × Ended base_sample 7 5 5 nap_laws_sample e t
unfolding local_of iface_of handle_for
net_tcp_connect_returns_example =
    net_tcp_connect_returns base_sample 9 5 16820416 80 5 7 stack_sample stack_sample.world
      nap_laws_sample refl refl (omega arith)

abbrev round_laws_sample : RoundLaws base_sample 7 5 100 5
round_laws_sample = record { rank = λ s. 6 - s.world.now; round_ranks = λ s h. omega arith }

net_tcp_recv_returns_example :
    (n : ℤ) × (bytes : List ℕ) × (t : State base_sample) × (net_tcp_recv base_sample 9 5 100 5
        stack_sample
      ≡ some (n, bytes, t))
    × Got base_sample 7 5 100 5 round_laws_sample n bytes t
unfolding local_of iface_of handle_for
net_tcp_recv_returns_example =
    net_tcp_recv_returns base_sample 9 5 100 5 7 stack_sample round_laws_sample refl (omega arith)
