-- ===== src/Compat/Run.antt =====
-- The wrappers of src/sock_wrap.c on the table of descriptors, in any order, and what holds of every
-- entry whatever is called.
pub mod Table
pub mod Handlers
pub mod Entries
use esp_smoltcp.Common.{ℕ, ℤ, ◌≡◌, ◌<◌, Bool, true, Option, some, List, length, get_elem?}
use esp_smoltcp.Compat.State.{tcp_listen, Msg, Entry, put_net}
use esp_smoltcp.Compat.Env.{Env, State}
use esp_smoltcp.Compat.Address.{SockAddr}
use esp_smoltcp.Compat.Socket.{SockType, socket, bind, listen, connect}
use esp_smoltcp.Compat.Accept.{Accepted, accept}
use esp_smoltcp.Compat.Transfer.{send, recv, sendto, recvfrom}
use esp_smoltcp.Compat.Options.{SockOpt, Fcntl, close, shutdown, setsockopt, fcntl, ioctl}

module _ (env : Env) where
  open env use {Queue, Net}

  -- A listener has its pool, of `pool_len` places, at least one; a loopback entry has its queue.
  pub record Sound (r : Entry Queue) : Type 0 where
    pub pool_there :
        r.kind ≡ tcp_listen
        → (p : List ℕ) × (r.pool ≡ some p) × (length p ≡ r.pool_len) × (0 < r.pool_len)
    pub queue_there : r.loopback ≡ true → (q : Queue) × (r.lo_rx ≡ some q)

  abbrev pub AllSound : List (Entry Queue) → Type 0
  AllSound t = (i : ℕ) (r : Entry Queue) → get_elem? t i ≡ some r → Sound r

  -- A call, and the state that it leaves. `elapse` is all that changes below the socket calls, be
  -- it by itself or in select and poll.
  pub data Call (s : State env) : State env → Type 0 where
    socket_call : (inet : Bool) (ty : SockType) → Call s (socket env inet ty s).1
    bind_call :
        (fd : ℤ) (addr : SockAddr) (alen : ℕ) (created : Option Queue)
        → Call s (bind env fd addr alen created s).1
    listen_call : (fd backlog : ℤ) (mem_ok : Bool) → Call s (listen env fd backlog mem_ok s).1
    accept_call :
        (fuel : ℕ) (fd : ℤ) (alen : Option ℕ) (a : Accepted (State env))
        → accept env fuel fd alen s ≡ some a
        → Call s a.state
    connect_call : (fd : ℤ) (addr : SockAddr) (alen : ℕ) → Call s (connect env fd addr alen s).1
    send_call : (fd : ℤ) (buf : List ℕ) → Call s (send env fd buf s).1
    recv_call : (fd : ℤ) (cap : ℕ) → Call s (recv env fd cap s).state
    sendto_call :
        (fd : ℤ) (buf : List ℕ) (to : SockAddr) (tolen : ℕ) (mem_ok : Bool)
        → Call s (sendto env fd buf to tolen mem_ok s).1
    recvfrom_call :
        (fd : ℤ) (cap : ℕ) (fromlen : Option ℕ) (late : Option Msg)
        → Call s (recvfrom env fd cap fromlen late s).state
    close_call : (fd z : ℤ) → Call s (close env fd (λ t. (z, t)) s).1
    shutdown_call : (fd : ℤ) → Call s (shutdown env fd s).1
    setsockopt_call : (fd : ℤ) (opt : SockOpt) → Call s (setsockopt env fd opt s).1
    fcntl_call :
        (fd : ℤ) (cmd : Fcntl) (z : ℤ) (o_nonblock : ℕ)
        → Call s (fcntl env fd cmd (λ t. (z, t)) o_nonblock s).1
    ioctl_call :
        (fd : ℤ) (is_fionbio : Bool) (arg : Option Bool) (z : ℤ)
        → Call s (ioctl env fd is_fionbio arg (λ t. (z, t)) s).1
    elapse : (n : Net) → Call s (put_net n s)

  pub data Reach (start : State env) : State env → Type 0 where
    here : Reach start start
    later : {s t : State env} → Reach start s → Call s t → Reach start t
