-- ===== src/Compat/Select.antt =====
-- src/select_wrap.c: select and poll by scanning the descriptors. A set of descriptors is its
-- membership test; a NULL set is empty, and nothing is stored in it. The outer loop runs on fuel.
pub mod Sets
pub mod Wait
use esp_smoltcp.Common.{
  ℕ, zero, suc, ℤ, pos, negsuc, minus_one, is_positive, Bool, true, false, not, ◌&&◌, ◌||◌, Option,
  none, some, is_some, List, [], ◌∷◌, if◌then◌else◌, ltb, leb, ◌==◌, ◌+◌, ◌-◌, ◌*◌, ◌/◌, ◌%◌, take,
}
use esp_smoltcp.Types.{u32_mod}
use esp_smoltcp.Net.{net_sock_valid}
use esp_smoltcp.Compat.State.{Kind, free, tcp, udp, tcp_listen, is_tcp, is_udp, Entry, put_net}
use esp_smoltcp.Compat.Env.{Env, State}
use esp_smoltcp.Compat.Fd.{fd_get}
use esp_smoltcp.Compat.Options.{Timeval}

abbrev pub FdSet : Type 0
FdSet = ℕ → Bool

abbrev pub empty_set : FdSet
empty_set fd = false

-- FD_SET
abbrev pub insert : ℕ → FdSet → FdSet
insert fd set j = if j == fd then true else set j

-- What a scan has found: the count and the two result sets.
pub record Scan (N : Type 0) : Type 0 where
  pub ready : ℕ
  pub rd : FdSet
  pub wr : FdSet
  pub net : N

module _ (env : Env) where
  open env use {
    config, queue, Queue, Net, waiting, ms_to_ticks, tcp_is_connected, tcp_recv_queue,
    tcp_send_capacity, udp_recvfrom, tick_count, delay,
  }

  unfoldable pub any_connected : List ℕ → Net → Bool
  any_connected [] n = false
  any_connected (x ∷ xs) n = tcp_is_connected x n || any_connected xs n

  -- The part of `fd_readable` behind the test for a loopback queue.
  unfoldable pub readable_net : Entry Queue → Net → Bool × Net
  readable_net r n = elim r.kind [
    | tcp ↦ (ltb 0 (tcp_recv_queue r.sock n) || (not (tcp_is_connected r.sock n) && r.connected), n)
    | udp ↦ (is_positive (udp_recvfrom r.sock 0 0 n).0, (udp_recvfrom r.sock 0 0 n).4)
    | free ↦ (false, n)
    | tcp_listen ↦ (false, n)
  ]

  unfoldable pub readable_queue : Entry Queue → Net → Bool × Net
  readable_queue r n =
      if r.loopback
      then elim r.lo_rx [ none ↦ readable_net r n | some q ↦ (ltb 0 (waiting q), n) ]
      else readable_net r n

  -- Whether the descriptor is readable, and the state behind the probe of a UDP socket.
  unfoldable pub fd_readable : Entry Queue → Net → Bool × Net
  fd_readable r n = elim r.kind [
    | tcp_listen ↦ (elim r.pool [ none ↦ false | some p ↦ any_connected (take r.pool_len p) n ], n)
    | free ↦ readable_queue r n
    | tcp ↦ readable_queue r n
    | udp ↦ readable_queue r n
  ]

  unfoldable pub fd_writable : Entry Queue → Net → Bool
  fd_writable r n = elim r.kind [
    | tcp ↦ r.connected && ltb 0 (tcp_send_capacity r.sock n)
    | udp ↦ net_sock_valid r.sock || r.loopback
    | free ↦ false
    | tcp_listen ↦ false
  ]

  -- `FD_ISSET(fd, &rd_in) && fd_readable(e)`, and the same for writing.
  unfoldable pub visit_read : FdSet → ℕ → Entry Queue → Scan Net → Scan Net
  visit_read rd_in fd r a =
      if rd_in fd
      then (if (fd_readable r a.net).0
          then record a { ready = suc a.ready; rd = insert fd a.rd; net = (fd_readable r a.net).1 }
          else record a { net = (fd_readable r a.net).1 })
      else a

  unfoldable pub visit_write : FdSet → ℕ → Entry Queue → Scan Net → Scan Net
  visit_write wr_in fd r a =
      if wr_in fd && fd_writable r a.net
      then record a { ready = suc a.ready; wr = insert fd a.wr }
      else a

  -- One round of the loop over the descriptors, for the socket `r`.
  unfoldable pub visit : FdSet → FdSet → ℕ → Entry Queue → Scan Net → Scan Net
  visit rd_in wr_in fd r a = visit_write wr_in fd r (visit_read rd_in fd r a)

  -- The loop, from descriptor `fd` with `k` rounds left.
  unfoldable pub scan_fds : List (Entry Queue) → FdSet → FdSet → ℕ → ℕ → Scan Net → Scan Net
  scan_fds table rd_in wr_in fd zero a = a
  scan_fds table rd_in wr_in fd (suc k) a =
      scan_fds table rd_in wr_in (suc fd) k
        (elim (fd_get config (pos fd) table) [ none ↦ a | some (i, r) ↦ visit rd_in wr_in fd r a ])

  abbrev pub start_scan : Net → Scan Net
  start_scan n = record { ready = 0; rd = empty_set; wr = empty_set; net = n }

  -- One scan of all descriptors below `nfds`.
  abbrev pub select_pass : ℕ → FdSet → FdSet → State env → Scan Net
  select_pass nfds rd_in wr_in s = scan_fds s.table rd_in wr_in 0 nfds (start_scan s.net)

  -- `xTaskGetTickCount() + pdMS_TO_TICKS(ms)`; no timeout is portMAX_DELAY, the largest tick.
  unfoldable pub deadline_of : Option Timeval → Net → ℕ
  deadline_of none n = u32_mod - 1
  deadline_of (some tv) n =
      (tick_count n + ms_to_ticks ((tv.tv_sec * 1000 + tv.tv_usec / 1000) % u32_mod)) % u32_mod

  unfoldable pub select_loop : ℕ → ℕ → FdSet → FdSet → ℕ → State env → Option (Scan Net)
  select_loop zero nfds rd_in wr_in deadline s = none
  select_loop (suc f) nfds rd_in wr_in deadline s =
      let a = select_pass nfds rd_in wr_in s in
      let rest = select_loop f nfds rd_in wr_in deadline (put_net (delay 1 a.net) s) in
      if ltb 0 a.ready
      then some a
      else if not (deadline == u32_mod - 1) && leb deadline (tick_count a.net)
      then some a
      else rest

  unfoldable pub select : ℕ → ℕ → FdSet → FdSet → Option Timeval → State env → Option (Scan Net)
  select fuel nfds rd_in wr_in to s = select_loop fuel nfds rd_in wr_in (deadline_of to s.net) s
