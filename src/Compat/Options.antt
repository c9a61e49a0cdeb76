-- ===== src/Compat/Options.antt =====
-- src/sock_wrap.c: close, shutdown, the socket options, the names, fcntl and ioctl. A call that
-- falls through to the real lwIP function takes its result as an argument.
use esp_smoltcp.Common.{
  ℕ, ℤ, pos, minus_one, Bool, true, false, ◌&&◌, Option, none, some, if◌then◌else◌, ◌+◌, ◌*◌, ◌/◌,
  ◌%◌,
}
use esp_smoltcp.Types.{EspErr, is_ok, ebadf, einval, eopnotsupp, u32_mod}
use esp_smoltcp.Net.{net_sock_valid}
use esp_smoltcp.Compat.State.{is_tcp, Entry, put_entry, put_net}
use esp_smoltcp.Compat.Env.{Env, State}
use esp_smoltcp.Compat.Fd.{fd_get, fd_is_socket, fd_free}
use esp_smoltcp.Compat.Address.{SockAddr, swap16, has_room}
use esp_smoltcp.Compat.Socket.{refuse}

-- `struct timeval`, with no negative part.
pub record Timeval : Type 0 where
  pub tv_sec : ℕ
  pub tv_usec : ℕ

-- `tv_sec * 1000 + tv_usec / 1000`, stored in a `uint32_t`.
unfoldable pub millis : Timeval → ℕ
millis tv = (tv.tv_sec * 1000 + tv.tv_usec / 1000) % u32_mod

-- A level with an option: the value behind `optval`, `none` if `optlen` is too small for it.
pub data SockOpt : Type 0 where
  rcvtimeo sndtimeo : Option Timeval → SockOpt
  add_membership drop_membership : Option ℕ → SockOpt
  -- SO_REUSEADDR, SO_KEEPALIVE, TCP_NODELAY, IP_MULTICAST_TTL, … and all that is not listed
  ignored : SockOpt

-- `cmd` of fcntl, with whether `arg` has O_NONBLOCK.
pub data Fcntl : Type 0 where
  getfl : Fcntl
  setfl : Bool → Fcntl
  other_cmd : Fcntl

module _ (env : Env) where
  open env use {config, Queue, tcp_close, mcast_join, mcast_leave, get_ipv4}

  -- `real` is the file system's call.
  unfoldable pub close : ℤ → (State env → ℤ × State env) → State env → ℤ × State env
  close fd real s = if fd_is_socket config fd s.table then (pos 0, fd_free env fd s) else real s

  unfoldable pub shutdown : ℤ → State env → ℤ × State env
  shutdown fd s = elim (fd_get config fd s.table) [
    | none ↦ refuse env ebadf s
    | some (i, r) ↦
        if is_tcp r.kind && net_sock_valid r.sock
        then (
          pos 0,
          put_entry i (λ x. record x { sock = 0; connected = false })
              (put_net (tcp_close r.sock s.net) s),
        )
        else (pos 0, s)
  ]

  unfoldable pub membership : EspErr × env.Net → State env → ℤ × State env
  membership r s = (if is_ok r.0 then pos 0 else minus_one, put_net r.1 s)

  -- The switch of `setsockopt`, for the entry `r` at `i`.
  unfoldable pub apply_option : ℕ → Entry Queue → SockOpt → State env → ℤ × State env
  apply_option i r (rcvtimeo none) s = (pos 0, s)
  apply_option i r (rcvtimeo (some tv)) s =
      (pos 0, put_entry i (λ x. record x { rcv_timeout_ms = millis tv }) s)
  apply_option i r (sndtimeo none) s = (pos 0, s)
  apply_option i r (sndtimeo (some tv)) s =
      (pos 0, put_entry i (λ x. record x { snd_timeout_ms = millis tv }) s)
  apply_option i r (add_membership none) s = (pos 0, s)
  apply_option i r (add_membership (some g)) s = membership (mcast_join r.iface g s.net) s
  apply_option i r (drop_membership none) s = (pos 0, s)
  apply_option i r (drop_membership (some g)) s = membership (mcast_leave r.iface g s.net) s
  apply_option i r ignored s = (pos 0, s)

  unfoldable pub setsockopt : ℤ → SockOpt → State env → ℤ × State env
  setsockopt fd opt s = elim (fd_get config fd s.table) [
    | none ↦ refuse env ebadf s
    | some (i, r) ↦ apply_option i r opt s
  ]

  -- `so_error` tells that level and option are SOL_SOCKET and SO_ERROR and that the caller's
  -- buffer has room; the second part is what is stored there.
  unfoldable pub getsockopt : ℤ → Bool → State env → ℤ × Option ℕ × State env
  getsockopt fd so_error s = elim (fd_get config fd s.table) [
    | none ↦ (minus_one, none, (refuse env ebadf s).1)
    | some (i, r) ↦ (pos 0, if so_error then some 0 else none, s)
  ]

  unfoldable pub getsockname : ℤ → Option ℕ → State env → ℤ × Option SockAddr × State env
  getsockname fd alen s = elim (fd_get config fd s.table) [
    | none ↦ (minus_one, none, (refuse env einval s).1)
    | some (i, r) ↦
        if has_room alen
        then (
          pos 0,
          some (record {
            is_inet = true;
            port_be = swap16 r.local_port;
            addr_be = get_ipv4 r.iface s.net;
          }),
          s,
        )
        else (minus_one, none, (refuse env einval s).1)
  ]

  unfoldable pub getpeername : State env → ℤ × State env
  getpeername s = refuse env eopnotsupp s

  -- `o_nonblock` is the flag O_NONBLOCK, which F_GETFL returns.
  unfoldable pub fcntl : ℤ → Fcntl → (State env → ℤ × State env) → ℕ → State env → ℤ × State env
  fcntl fd cmd real o_nonblock s = elim (fd_get config fd s.table) [
    | none ↦ real s
    | some (i, r) ↦ elim cmd [
      | getfl ↦ (if r.nonblocking then pos o_nonblock else pos 0, s)
      | setfl b ↦ (pos 0, put_entry i (λ x. record x { nonblocking = b }) s)
      | other_cmd ↦ (pos 0, s)
    ]
  ]

  -- FIONBIO with `arg`: `none` for NULL, else whether `*(int *)arg` is not 0.
  unfoldable pub ioctl_fionbio : ℤ → Option Bool → State env → ℤ × State env
  ioctl_fionbio fd arg s = elim (fd_get config fd s.table) [
    | none ↦ refuse env ebadf s
    | some (i, r) ↦
        let on : Bool = elim arg [ none ↦ false | some b ↦ b ] in
        (pos 0, put_entry i (λ x. record x { nonblocking = on }) s)
  ]

  -- `is_fionbio` is `cmd == FIONBIO`.
  unfoldable pub ioctl :
      ℤ → Bool → Option Bool → (State env → ℤ × State env) → State env → ℤ × State env
  ioctl fd is_fionbio arg real s = if is_fionbio then ioctl_fionbio fd arg s else real s
