-- ===== src/Compat/Run/Entries.antt =====
-- What holds of the entries of the table whatever wrappers are called (src/sock_wrap.c).
use esp_smoltcp.Common.{ℕ, ◌≡◌, ◌<◌, some, get_elem?}
use esp_smoltcp.Compat.State.{Entry}
use esp_smoltcp.Compat.Env.{Env, State}
use esp_smoltcp.Compat.Run.{
  Sound, AllSound, Call, Reach, here, later, socket_call, bind_call, listen_call, accept_call,
  connect_call, send_call, recv_call, sendto_call, recvfrom_call, close_call, shutdown_call,
  setsockopt_call, fcntl_call, ioctl_call, elapse,
}
use esp_smoltcp.Compat.Run.Handlers.{
  send-AllSound, recv-AllSound, sendto-AllSound, recvfrom-AllSound, close-AllSound,
  shutdown-AllSound, setsockopt-AllSound, fcntl-AllSound, ioctl-AllSound,
}
use esp_smoltcp.Compat.Run.Handlers.Connections.{socket-AllSound, bind-AllSound, connect-AllSound}
use esp_smoltcp.Compat.Run.Handlers.Listens.{listen-AllSound}
use esp_smoltcp.Compat.Run.Handlers.Accepts.{accept-AllSound}

module _ (env : Env) where
  open env use {Queue, listener_pool}

  Call-AllSound :
      (s t : State env)
      → 0 < listener_pool
      → Call env s t
      → AllSound env s.table
      → AllSound env t.table
  Call-AllSound s t h (socket_call inet ty) v = socket-AllSound env inet ty s v
  Call-AllSound s t h (bind_call fd addr alen created) v =
      bind-AllSound env fd addr alen created s v
  Call-AllSound s t h (listen_call fd backlog mem_ok) v =
      listen-AllSound env fd backlog mem_ok s h v
  Call-AllSound s t h (accept_call fuel fd alen a e) v = accept-AllSound env fuel fd alen s a v e
  Call-AllSound s t h (connect_call fd addr alen) v = connect-AllSound env fd addr alen s v
  Call-AllSound s t h (send_call fd buf) v = send-AllSound env fd buf s v
  Call-AllSound s t h (recv_call fd cap) v = recv-AllSound env fd cap s v
  Call-AllSound s t h (sendto_call fd buf to tolen mem_ok) v =
      sendto-AllSound env fd buf to tolen mem_ok s v
  Call-AllSound s t h (recvfrom_call fd cap fromlen late) v =
      recvfrom-AllSound env fd cap fromlen late s v
  Call-AllSound s t h (close_call fd z) v = close-AllSound env fd z s v
  Call-AllSound s t h (shutdown_call fd) v = shutdown-AllSound env fd s v
  Call-AllSound s t h (setsockopt_call fd opt) v = setsockopt-AllSound env fd opt s v
  Call-AllSound s t h (fcntl_call fd cmd z o_nonblock) v =
      fcntl-AllSound env fd cmd z o_nonblock s v
  Call-AllSound s t h (ioctl_call fd is_fionbio arg z) v =
      ioctl-AllSound env fd is_fionbio arg z s v
  Call-AllSound s t h (elapse n) v = v

  -- If the configured size of a listener's pool is not 0 and every entry is sound at the start, then
  -- every entry is sound after any calls of the wrappers, with any arguments, in any order: an entry
  -- that is a listener has its pool, of `pool_len` places and at least one, and an entry on the
  -- loopback has its queue.
  pub entries-Sound :
      (s t : State env) (i : ℕ) (r : Entry Queue)
      → 0 < listener_pool
      → AllSound env s.table
      → Reach env s t
      → get_elem? t.table i ≡ some r
      → Sound env r
  entries-Sound s t i r h v here g = v i r g
  entries-Sound s t i r h v (later {s = u} reach call) g =
      Call-AllSound u t h call (λ j x a. entries-Sound s u j x h v reach a) i r g
