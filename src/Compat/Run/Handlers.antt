-- ===== src/Compat/Run/Handlers.antt =====
-- The wrappers of src/sock_wrap.c keep every entry of the table sound.
pub mod Connections
pub mod Listens
pub mod Accepts
use esp_smoltcp.Common.{
  ℕ, ℤ, ◌≡◌, refl, Bool, true, false, ◌&&◌, Option, none, some, List, ◌==◌, ltb, arith, modify,
  Bool-cases, Option-cases, inl, inr, if◌then◌else◌,
}
use esp_smoltcp.Net.{net_sock_valid}
use esp_smoltcp.Compat.State.{Msg, Entry, is_tcp, is_udp}
use esp_smoltcp.Compat.Env.{Env, State}
use esp_smoltcp.Compat.Address.{SockAddr, sizeof_sockaddr_in, swap16}
use esp_smoltcp.Compat.Loopback.{is_loopback_ip}
use esp_smoltcp.Compat.Fd.{fd_get, fd_is_socket}
use esp_smoltcp.Compat.Transfer.{
  send, recv, unless_empty, sendto, recvfrom, recv_net, recv_loopback, copy_out, rcv_wait,
}
use esp_smoltcp.Compat.Options.{
  SockOpt, rcvtimeo, sndtimeo, add_membership, drop_membership, ignored, Fcntl, getfl, setfl,
  other_cmd, close, shutdown, apply_option, membership, setsockopt, fcntl, ioctl, ioctl_fionbio,
}
use esp_smoltcp.Compat.Run.{Sound, AllSound}
use esp_smoltcp.Compat.Run.Table.{put_entry-AllSound, fd_free-AllSound, lo_deliver-AllSound}

module _ (env : Env) where
  open env use {config, queue, Queue, Net, receive}

  -- A write that keeps each sound entry sound.
  pub kept :
      (f : Entry Queue → Entry Queue)
      → ((r : Entry Queue) → Sound env r → Sound env (f r))
      → (i : ℕ) (t : List (Entry Queue)) → AllSound env t
      → AllSound env (modify t i f)
  kept f k i t v = put_entry-AllSound env t i f (λ r g u. k r u) v

  pub send-AllSound :
      (fd : ℤ) (buf : List ℕ) (s : State env)
      → AllSound env s.table
      → AllSound env (send env fd buf s).1.table
  unfolding send
  send-AllSound fd buf s v = let e : (send env fd buf s).1.table ≡ s.table = ground arith in rw e v

  pub recv-AllSound :
      (fd : ℤ) (cap : ℕ) (s : State env)
      → AllSound env s.table
      → AllSound env (recv env fd cap s).state.table
  unfolding recv unless_empty
  recv-AllSound fd cap s v =
      let e : (recv env fd cap s).state.table ≡ s.table = ground arith in rw e v

  pub sendto-AllSound :
      (fd : ℤ) (buf : List ℕ) (to : SockAddr) (tolen : ℕ) (mem_ok : Bool) (s : State env)
      → AllSound env s.table
      → AllSound env (sendto env fd buf to tolen mem_ok s).1.table
  unfolding sendto
  sendto-AllSound fd buf to tolen mem_ok s v = elim (Option-cases (fd_get config fd s.table)) [
    | inl e ↦ rw (e, sendto) v
    | inr ((i, r), e) ↦ elim (Bool-cases (is_udp r.kind)) [
      | inr k ↦ rw (e, sendto) (rw k v)
      | inl k ↦ elim (Bool-cases (ltb tolen sizeof_sockaddr_in)) [
        | inl l ↦ rw (e, sendto) (rw (k, l) v)
        | inr l ↦ elim (Bool-cases (is_loopback_ip to.addr_be)) [
          | inr lo ↦ rw (e, sendto) (rw (k, l, lo) v)
          | inl lo ↦
              rw (e, sendto)
                (rw (k, l, lo)
                  (lo_deliver-AllSound env (swap16 to.port_be) r.local_ipv4_be r.local_port buf
                    mem_ok s v))
        ]
      ]
    ]
  ]

  copy_out-AllSound :
      (i cap : ℕ) (fromlen : Option ℕ) (m : Msg) (q : Queue) (s : State env)
      → AllSound env s.table
      → AllSound env (copy_out env i cap fromlen m q s).state.table
  unfolding copy_out
  copy_out-AllSound i cap fromlen m q s v =
      kept (λ x. record x { lo_rx = some q })
        (λ r u. record { pool_there = u.pool_there; queue_there = λ h. (q, refl) }) i s.table v

  recv_loopback-AllSound :
      (i : ℕ) (r : Entry Queue) (q : Queue) (cap : ℕ) (fromlen : Option ℕ) (late : Option Msg)
      (s : State env)
      → AllSound env s.table
      → AllSound env (recv_loopback env i r q cap fromlen late s).state.table
  unfolding recv_loopback
  recv_loopback-AllSound i r q cap fromlen late s v = elim (Option-cases (receive q)) [
    | inr ((m, q'), e) ↦ rw (e, recv_loopback) (copy_out-AllSound i cap fromlen m q' s v)
    | inl e ↦ elim (Option-cases (if rcv_wait env r == 0 then none else late)) [
      | inr (m, l) ↦ rw (e, recv_loopback) (rw l (copy_out-AllSound i cap fromlen m q s v))
      | inl l ↦ elim (Bool-cases r.nonblocking) [
        | inl n ↦ rw (e, recv_loopback) (rw l (rw n v))
        | inr n ↦ rw (e, recv_loopback) (rw l (rw n v))
      ]
    ]
  ]

  pub recvfrom-AllSound :
      (fd : ℤ) (cap : ℕ) (fromlen : Option ℕ) (late : Option Msg) (s : State env)
      → AllSound env s.table
      → AllSound env (recvfrom env fd cap fromlen late s).state.table
  unfolding recvfrom recv_net
  recvfrom-AllSound fd cap fromlen late s v = elim (Option-cases (fd_get config fd s.table)) [
    | inl e ↦ rw (e, recvfrom) v
    | inr ((i, r), e) ↦ elim (Bool-cases (is_udp r.kind)) [
      | inr k ↦ rw (e, recvfrom) (rw k v)
      | inl k ↦ elim (Bool-cases r.loopback) [
        | inr lo ↦ rw (e, recvfrom) (rw (k, lo) v)
        | inl lo ↦ elim (Option-cases r.lo_rx) [
          | inl x ↦ rw (e, recvfrom) (rw (k, lo) (rw x v))
          | inr (q, x) ↦
              rw (e, recvfrom)
                (rw (k, lo) (rw x (recv_loopback-AllSound i r q cap fromlen late s v)))
        ]
      ]
    ]
  ]

  pub close-AllSound :
      (fd z : ℤ) (s : State env)
      → AllSound env s.table
      → AllSound env (close env fd (λ t. (z, t)) s).1.table
  unfolding close
  close-AllSound fd z s v = elim (Bool-cases (fd_is_socket config fd s.table)) [
    | inl k ↦ rw (k, close) (fd_free-AllSound env fd s v)
    | inr k ↦ rw (k, close) v
  ]

  pub shutdown-AllSound :
      (fd : ℤ) (s : State env) → AllSound env s.table → AllSound env (shutdown env fd s).1.table
  unfolding shutdown
  shutdown-AllSound fd s v = elim (Option-cases (fd_get config fd s.table)) [
    | inl e ↦ rw (e, shutdown) v
    | inr ((i, r), e) ↦ elim (Bool-cases (is_tcp r.kind && net_sock_valid r.sock)) [
      | inr k ↦ rw (e, shutdown) (rw k v)
      | inl k ↦
          rw (e, shutdown)
            (rw k (
              kept (λ x. record x { sock = 0; connected = false })
                (λ x u. record { pool_there = u.pool_there; queue_there = u.queue_there }) i s.table
                v))
    ]
  ]

  apply_option-AllSound :
      (i : ℕ) (r : Entry Queue) (opt : SockOpt) (s : State env)
      → AllSound env s.table
      → AllSound env (apply_option env i r opt s).1.table
  unfolding apply_option membership
  apply_option-AllSound i r (rcvtimeo none) s v = v
  apply_option-AllSound i r (rcvtimeo (some tv)) s v =
      kept _ (λ x u. record { pool_there = u.pool_there; queue_there = u.queue_there }) i s.table v
  apply_option-AllSound i r (sndtimeo none) s v = v
  apply_option-AllSound i r (sndtimeo (some tv)) s v =
      kept _ (λ x u. record { pool_there = u.pool_there; queue_there = u.queue_there }) i s.table v
  apply_option-AllSound i r (add_membership none) s v = v
  apply_option-AllSound i r (add_membership (some g)) s v = v
  apply_option-AllSound i r (drop_membership none) s v = v
  apply_option-AllSound i r (drop_membership (some g)) s v = v
  apply_option-AllSound i r ignored s v = v

  pub setsockopt-AllSound :
      (fd : ℤ) (opt : SockOpt) (s : State env)
      → AllSound env s.table
      → AllSound env (setsockopt env fd opt s).1.table
  unfolding setsockopt
  setsockopt-AllSound fd opt s v = elim (Option-cases (fd_get config fd s.table)) [
    | inl e ↦ rw (e, setsockopt) v
    | inr ((i, r), e) ↦ rw (e, setsockopt) (apply_option-AllSound i r opt s v)
  ]

  pub fcntl-AllSound :
      (fd : ℤ) (cmd : Fcntl) (z : ℤ) (o_nonblock : ℕ) (s : State env)
      → AllSound env s.table
      → AllSound env (fcntl env fd cmd (λ t. (z, t)) o_nonblock s).1.table
  unfolding fcntl
  fcntl-AllSound fd getfl z o_nonblock s v = elim (Option-cases (fd_get config fd s.table)) [
    | inl e ↦ rw (e, fcntl) v
    | inr ((i, r), e) ↦ rw (e, fcntl) v
  ]
  fcntl-AllSound fd other_cmd z o_nonblock s v = elim (Option-cases (fd_get config fd s.table)) [
    | inl e ↦ rw (e, fcntl) v
    | inr ((i, r), e) ↦ rw (e, fcntl) v
  ]
  fcntl-AllSound fd (setfl b) z o_nonblock s v = elim (Option-cases (fd_get config fd s.table)) [
    | inl e ↦ rw (e, fcntl) v
    | inr ((i, r), e) ↦
        rw (e, fcntl)
          (kept (λ x. record x { nonblocking = b })
            (λ x u. record { pool_there = u.pool_there; queue_there = u.queue_there }) i s.table v)
  ]

  pub ioctl-AllSound :
      (fd : ℤ) (is_fionbio : Bool) (arg : Option Bool) (z : ℤ) (s : State env)
      → AllSound env s.table
      → AllSound env (ioctl env fd is_fionbio arg (λ t. (z, t)) s).1.table
  unfolding ioctl ioctl_fionbio
  ioctl-AllSound fd false arg z s v = v
  ioctl-AllSound fd true arg z s v = elim (Option-cases (fd_get config fd s.table)) [
    | inl e ↦ rw (e, ioctl_fionbio) v
    | inr ((i, r), e) ↦
        rw (e, ioctl_fionbio)
          (kept _ (λ x u. record { pool_there = u.pool_there; queue_there = u.queue_there }) i
            s.table v)
  ]
