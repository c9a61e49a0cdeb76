-- ===== src/Compat/RunTests.antt =====
-- A listener made by three calls of the wrappers.
use esp_smoltcp.Common.{zero, suc, pos, refl, true, none, some, [], ◌∷◌, arith}
use esp_smoltcp.Compat.State.{free, tcp_listen}
use esp_smoltcp.Compat.Env.{State}
use esp_smoltcp.Compat.Address.{SockAddr}
use esp_smoltcp.Compat.Fd.{fresh_entry, first_free, fd_alloc, fd_get, slot_of, fd_default_iface}
use esp_smoltcp.Compat.Socket.{
  sock_stream, socket, socket_of, socket_opened, bind, listen, listen_armed, arm, pool_size,
}
use esp_smoltcp.Compat.Run.{Sound, AllSound, here, later, socket_call, bind_call, listen_call}
use esp_smoltcp.Compat.Run.Entries.{entries-Sound}
use esp_smoltcp.Compat.Samples.{env_sample, compat_sample}

abbrev unused : State env_sample
unused = record compat_sample { table = fresh_entry free 0 ∷ []; slots = [] }

unused-AllSound : AllSound env_sample unused.table
unused-AllSound zero r h = record {
  pool_there = λ k. absurd (ground arith);
  queue_there = λ k. absurd (ground arith);
}
unused-AllSound (suc i) r h = absurd (ground (arith, h))

-- Port 80 in network byte order, on every address.
abbrev any_port_80 : SockAddr
any_port_80 = record { is_inet = true; port_be = 20480; addr_be = 0 }

abbrev opened : State env_sample
opened = (socket env_sample true sock_stream unused).1

abbrev bound_80 : State env_sample
bound_80 = (bind env_sample (pos 54) any_port_80 16 none opened).1

abbrev listens : State env_sample
listens = (listen env_sample (pos 54) (pos 5) true bound_80).1

entries-Sound_example : Sound env_sample (record (fresh_entry tcp_listen 0) {
  pool = some (9 ∷ 9 ∷ []);
  pool_len = 2;
  port = 80;
  local_port = 80;
})
unfolding socket socket_of socket_opened bind listen listen_armed arm pool_size first_free fd_alloc
    fd_get slot_of fd_default_iface
entries-Sound_example =
    entries-Sound env_sample unused listens 0 _ (omega arith) unused-AllSound
      (later
        (later (later here (socket_call true sock_stream)) (bind_call (pos 54) any_port_80 16 none))
        (listen_call (pos 54) (pos 5) true))
      refl
