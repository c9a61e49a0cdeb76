-- ===== src/Compat/Accept.antt =====
-- src/sock_wrap.c: accept, which hands out a connected socket of the listener's pool and re-arms
-- its place. The outer loop runs on fuel; `none` means that the fuel ran out.
pub mod Handover
pub mod Wait
use esp_smoltcp.Common.{
  ℕ, zero, suc, ℤ, pos, negsuc, minus_one, Bool, true, false, not, Option, none, some, List,
  if◌then◌else◌, ltb, ◌==◌, ◌+◌, ◌-◌, ◌%◌, get_elem?, get_or, set,
}
use esp_smoltcp.Types.{enfile, ebadf, ewouldblock, etimedout, u32_mod}
use esp_smoltcp.Net.{net_sock_valid}
use esp_smoltcp.Compat.State.{tcp, is_tcp_listen, Entry, put_entry, put_net}
use esp_smoltcp.Compat.Env.{Env, State}
use esp_smoltcp.Compat.Fd.{fd_get, fd_alloc}
use esp_smoltcp.Compat.Address.{SockAddr, has_room}
use esp_smoltcp.Compat.Socket.{refuse, put_fd}

-- The result, and what is stored in `*addr`.
pub record Accepted (S : Type 0) : Type 0 where
  pub result : ℤ
  pub peer : Option SockAddr
  pub state : S

abbrev pub no_peer : {S : Type 0} → ℤ × S → Accepted S
no_peer r = record { result = r.0; peer = none; state = r.1 }

-- The zero `sockaddr_in` that stands for the peer.
abbrev pub any_addr : SockAddr
any_addr = record { is_inet = true; port_be = 0; addr_be = 0 }

module _ (env : Env) where
  open env use {
    config, Net, Queue, ms_to_ticks, tcp_open, tcp_listen, tcp_is_connected, tick_count, delay,
  }

  -- The inner loop, from index `i` with `k` rounds left: the place of the first connected socket.
  unfoldable pub find_connected : List ℕ → ℕ → ℕ → ℕ → ℕ → Net → Option ℕ
  find_connected pool len next i zero n = none
  find_connected pool len next i (suc k) n =
      if tcp_is_connected (get_or pool ((next + i) % len) 0) n
      then some ((next + i) % len)
      else find_connected pool len next (suc i) k n

  -- The new socket for the place, in LISTEN state if it could be opened.
  unfoldable pub rearm : ℕ → ℕ → Net → ℕ × Net
  rearm iface port n =
      let (id, opened) = tcp_open iface n in
      (id, if net_sock_valid id then (tcp_listen id port opened).1 else opened)

  -- What happens to the listener `r` at `i` whose place `idx` is connected, once `newfd` is there.
  unfoldable pub hand_over : ℕ → Entry Queue → List ℕ → ℕ → ℤ → State env → State env
  hand_over i r pool idx newfd s =
      put_entry i
        (λ x. record x {
          pool = some (set pool idx (rearm r.iface r.port s.net).0);
          pool_next = suc idx % r.pool_len;
        })
        (put_net (rearm r.iface r.port s.net).1 (
          put_fd env newfd
            (λ x. record x {
              sock = get_or pool idx 0;
              connected = true;
              iface = r.iface;
              nonblocking = false;
            })
            s))

  unfoldable pub accept_at :
      ℕ → Entry Queue → List ℕ → ℕ → Option ℕ → State env → Accepted (State env)
  accept_at i r pool idx alen s = elim (fd_alloc env tcp s).0 [
    | negsuc _ ↦ no_peer (refuse env enfile (fd_alloc env tcp s).1)
    | pos newfd ↦ record {
      result = pos newfd;
      peer = if has_room alen then some any_addr else none;
      state = hand_over i r pool idx (pos newfd) (fd_alloc env tcp s).1;
    }
  ]

  -- One scan of the pool: `none` if nobody has connected. A listener always has its pool.
  unfoldable pub accept_pass :
      ℕ → Entry Queue → Option ℕ → State env → Option (Accepted (State env))
  accept_pass i r alen s = elim r.pool [
    | none ↦ none
    | some pool ↦ elim (find_connected pool r.pool_len r.pool_next 0 r.pool_len s.net) [
      | none ↦ none
      | some idx ↦ some (accept_at i r pool idx alen s)
    ]
  ]

  -- `xTaskGetTickCount() - start`, in 32 bits
  unfoldable pub elapsed : ℕ → Net → ℕ
  elapsed start n = (tick_count n + u32_mod - start) % u32_mod

  unfoldable pub accept_loop : ℕ → ℕ → ℕ → Option ℕ → State env → Option (Accepted (State env))
  accept_loop zero i start alen s = none
  accept_loop (suc f) i start alen s =
      let rest = accept_loop f i start alen (put_net (delay (ms_to_ticks 2) s.net) s) in
      elim (get_elem? s.table i) [
        | none ↦ none
        | some r ↦ elim (accept_pass i r alen s) [
          | some a ↦ some a
          | none ↦
              if r.nonblocking
              then some (no_peer (refuse env ewouldblock s))
              else if ltb (ms_to_ticks 60000) (elapsed start s.net)
              then some (no_peer (refuse env etimedout s))
              else rest
        ]
      ]

  unfoldable pub accept : ℕ → ℤ → Option ℕ → State env → Option (Accepted (State env))
  accept fuel fd alen s = elim (fd_get config fd s.table) [
    | none ↦ some (no_peer (refuse env ebadf s))
    | some (i, r) ↦
        if not (is_tcp_listen r.kind)
        then some (no_peer (refuse env ebadf s))
        else accept_loop fuel i (tick_count s.net) alen s
  ]
