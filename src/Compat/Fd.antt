-- ===== src/Compat/Fd.antt =====
-- src/fd_table.c: the table of socket descriptors. The mutex makes each call one step; the table
-- is set up before `main`.
pub mod Alloc
pub mod Close
use esp_smoltcp.Common.{
  ℕ, suc, ℤ, pos, negsuc, minus_one, Bool, true, false, not, Option, none, some, List, [], ◌∷◌, ◌+◌,
  ◌-◌, if◌then◌else◌, leb, ◌==◌, get_elem?, set, take,
}
use esp_smoltcp.Types.{iface_eth, iface_wifi}
use esp_smoltcp.Net.{net_sock_valid}
use esp_smoltcp.Compat.State.{
  Kind, free, is_free, is_udp, Entry, Compat, Config, put_entry, put_net,
}
use esp_smoltcp.Compat.Env.{Env, State}
use esp_smoltcp.Compat.Loopback.{lo_unbind}

-- `fd - fd_offset()`, if it is not negative. The offset is not negative.
unfoldable pub slot_of : Config → ℤ → Option ℕ
slot_of cfg (pos n) = if leb cfg.offset n then some (n - cfg.offset) else none
slot_of cfg (negsuc n) = none

-- `fd_get`: the pointer, and what it points at. The table has MAX_FDS entries.
unfoldable pub fd_get : {Q : Type 0} → Config → ℤ → List (Entry Q) → Option (ℕ × Entry Q)
unfolding slot_of
fd_get cfg fd table = elim (slot_of cfg fd) [
  | none ↦ none
  | some i ↦ elim (get_elem? table i) [
    | none ↦ none
    | some r ↦ if is_free r.kind then none else some (i, r)
  ]
]

unfoldable pub fd_is_socket : {Q : Type 0} → Config → ℤ → List (Entry Q) → Bool
unfolding slot_of
fd_is_socket cfg fd table = elim (slot_of cfg fd) [
  | none ↦ false
  | some i ↦ elim (get_elem? table i) [ none ↦ false | some r ↦ not (is_free r.kind) ]
]

-- The loop of `fd_alloc`: the first free entry.
unfoldable pub first_free : {Q : Type 0} → List (Entry Q) → Option ℕ
first_free [] = none
first_free (r ∷ rs) =
    if is_free r.kind then some 0 else elim (first_free rs) [ none ↦ none | some k ↦ some (suc k) ]

-- An entry after the `memset` and the assignments of `fd_alloc`.
abbrev pub fresh_entry : {Q : Type 0} → Kind → ℕ → Entry Q
fresh_entry k i = record {
  kind = k;
  nonblocking = false;
  connected = false;
  loopback = false;
  lo_rx = none;
  rcv_timeout_ms = 0;
  snd_timeout_ms = 0;
  sock = 0;
  pool = none;
  pool_len = 0;
  pool_next = 0;
  port = 0;
  local_ipv4_be = 0;
  local_port = 0;
  iface = i;
}

module _ (env : Env) where
  open env use {Net, Queue, offset, prefer_eth, get_ipv4, tcp_close, udp_close, config, queue}

  unfoldable pub fd_default_iface : Net → ℕ
  fd_default_iface n =
      let eth_up = not (get_ipv4 iface_eth n == 0) in
      let wifi_up = not (get_ipv4 iface_wifi n == 0) in
      if prefer_eth
      then (if eth_up then iface_eth else if wifi_up then iface_wifi else iface_eth)
      else (if wifi_up then iface_wifi else if eth_up then iface_eth else iface_wifi)

  unfoldable pub fd_alloc : Kind → State env → ℤ × State env
  fd_alloc k s = elim (first_free s.table) [
    | none ↦ (minus_one, s)
    | some i ↦ (
      pos (offset + i),
      record s { table = set s.table i (fresh_entry k (fd_default_iface s.net)) },
    )
  ]

  -- The four parts of `fd_free`, on the entry `r` at `i`.
  unfoldable pub release_loopback : ℕ → Entry Queue → State env → State env
  release_loopback i r s =
      if r.loopback
      then put_entry i (λ x. record x { lo_rx = none; loopback = false })
          (lo_unbind queue r.local_port i s)
      else s

  unfoldable pub close_sock : Entry Queue → Net → Net
  close_sock r n =
      if net_sock_valid r.sock
      then (if is_udp r.kind then udp_close r.sock n else tcp_close r.sock n)
      else n

  unfoldable pub close_all : List ℕ → Net → Net
  close_all [] n = n
  close_all (x ∷ xs) n = close_all xs (if net_sock_valid x then tcp_close x n else n)

  unfoldable pub close_pool : Entry Queue → Net → Net
  close_pool r n = elim r.pool [ none ↦ n | some p ↦ close_all (take r.pool_len p) n ]

  unfoldable pub fd_free : ℤ → State env → State env
  fd_free fd s = elim (fd_get config fd s.table) [
    | none ↦ s
    | some (i, r) ↦
        put_entry i (λ x. record x { kind = free })
          (put_net (close_pool r (close_sock r s.net)) (release_loopback i r s))
  ]
