-- ===== src/Compat/Select/Wait.antt =====
-- The outer loop of src/select_wrap.c: it ends, and what it then answers.
use esp_smoltcp.Common.{
  ℕ, zero, suc, pos, to_ℕ, false, Option, some, List, ltb, leb, ◌==◌, ◌-◌, ◌≤◌, ◌<◌, ◌≡◌, ◌≢◌, ◌⊎◌,
  inl, inr, refl, arith, ap, sym, ◌∙◌, Option-cases, Bool-cases, ==_eq,
}
use esp_smoltcp.Types.{u32_mod}
use esp_smoltcp.Compat.State.{udp, Entry, put_net}
use esp_smoltcp.Compat.Env.{Env, State}
use esp_smoltcp.Compat.Fd.{fd_get}
use esp_smoltcp.Compat.Options.{Timeval}
use esp_smoltcp.Compat.Select.{
  FdSet, Scan, visit, visit_read, visit_write, scan_fds, fd_readable, readable_queue, readable_net,
  select, select_loop, select_pass, start_scan, deadline_of,
}
use esp_smoltcp.Compat.Select.Sets.{Answer, select_pass-Answer}

-- What a call with a deadline relies on: before the deadline only finitely many ticks are slept
-- (`rank`), and the probe of a UDP socket does not put that off.
pub record WaitLaws (env : Env) (deadline : ℕ) : Type 0 where
  pub rank : env.Net → ℕ
  pub probe_ranks : (sock : ℕ) (n : env.Net) → rank (env.udp_recvfrom sock 0 0 n).4 ≤ rank n
  pub delay_ranks : (n : env.Net) → env.tick_count n < deadline → rank (env.delay 1 n) < rank n

module _ (env : Env) (deadline : ℕ) (laws : WaitLaws env deadline) where
  open env use {config, Queue, Net, delay, tick_count, udp_recvfrom}
  open laws use {rank, probe_ranks, delay_ranks}

  readable_net-rank : (r : Entry Queue) (n : Net) → rank (readable_net env r n).1 ≤ rank n
  unfolding readable_net
  readable_net-rank r n = ground (arith, probe_ranks r.sock n)

  fd_readable-rank : (r : Entry Queue) (n : Net) → rank (fd_readable env r n).1 ≤ rank n
  unfolding fd_readable readable_queue
  fd_readable-rank r n = ground (arith, readable_net-rank r n)

  visit-rank :
      (rd_in wr_in : FdSet) (fd : ℕ) (r : Entry Queue) (a : Scan Net)
      → rank (visit env rd_in wr_in fd r a).net ≤ rank a.net
  unfolding visit visit_read visit_write
  visit-rank rd_in wr_in fd r a = ground (arith, fd_readable-rank r a.net)

  scan_fds-rank :
      (table : List (Entry Queue)) (rd_in wr_in : FdSet) (fd k : ℕ) (a : Scan Net)
      → rank (scan_fds env table rd_in wr_in fd k a).net ≤ rank a.net
  unfolding scan_fds
  scan_fds-rank table rd_in wr_in fd zero a = omega arith
  scan_fds-rank table rd_in wr_in fd (suc k) a =
      elim (Option-cases (fd_get config (pos fd) table)) [
        | inl e ↦ rw (e, scan_fds) (scan_fds-rank table rd_in wr_in (suc fd) k a)
        | inr ((i, r), e) ↦
            let b = visit env rd_in wr_in fd r a in
            rw (e, scan_fds)
              (omega (
                arith,
                visit-rank rd_in wr_in fd r a,
                scan_fds-rank table rd_in wr_in (suc fd) k b,
              ))
      ]

  -- What the call returns: the answer of its last scan, with something ready or the deadline past.
  pub record Selected (nfds : ℕ) (rd_in wr_in : FdSet) (a : Scan Net) : Type 0 where
    pub answer : Answer env nfds rd_in wr_in a
    pub reason : (0 < a.ready) ⊎ (deadline ≤ tick_count a.net)

  select_loop_ends :
      (f nfds : ℕ) (rd_in wr_in : FdSet) (s : State env)
      → deadline ≢ u32_mod - 1
      → rank s.net < f
      → (a : Scan Net) × (select_loop env f nfds rd_in wr_in deadline s ≡ some a)
        × Selected nfds rd_in wr_in a
  unfolding select_loop
  select_loop_ends zero nfds rd_in wr_in s finite fuel = absurd (omega arith)
  select_loop_ends (suc f) nfds rd_in wr_in s finite fuel =
      let a = select_pass env nfds rd_in wr_in s in
      let answer = select_pass-Answer env nfds rd_in wr_in s in
      let ranked = scan_fds-rank s.table rd_in wr_in 0 nfds (start_scan env s.net) in
      elim (Bool-cases (ltb 0 a.ready)) [
        | inl found ↦ (
          a,
          rw (found, select_loop) refl,
          record { answer = answer; reason = inl (ground arith) },
        )
        | inr nothing ↦ elim (Bool-cases (leb deadline (tick_count a.net))) [
          | inl late ↦ (
            a,
            rw (nothing, select_loop) (ground arith),
            record { answer = answer; reason = inr (ground arith) },
          )
          | inr early ↦
              let (b, e, v) =
                select_loop_ends f nfds rd_in wr_in (put_net (delay 1 a.net) s) finite
                  (omega (arith, ranked, delay_ranks a.net (ground arith))) in
              (b, rw (nothing, select_loop) (ground (arith, e)), v)
        ]
      ]

-- A call with a timeout whose deadline is not the largest tick returns, if before the deadline only
-- finitely many ticks are slept and there is more fuel than that: both result sets hold only
-- descriptors below `nfds` that were asked for, the count is the number of members of the two sets,
-- and it is 0 only if the deadline has come.
pub select_returns :
    (env : Env) (nfds : ℕ) (rd_in wr_in : FdSet) (tv : Timeval) (s : State env)
    (laws : WaitLaws env (deadline_of env (some tv) s.net)) (fuel : ℕ)
    → deadline_of env (some tv) s.net ≢ u32_mod - 1
    → laws.rank s.net < fuel
    → (a : Scan env.Net) × (select env fuel nfds rd_in wr_in (some tv) s ≡ some a)
      × Selected env (deadline_of env (some tv) s.net) laws nfds rd_in wr_in a
unfolding select
select_returns env nfds rd_in wr_in tv s laws fuel finite enough =
    select_loop_ends env (deadline_of env (some tv) s.net) laws fuel nfds rd_in wr_in s finite
      enough

-- The core never stores more than it is given room for.
abbrev pub Bounded : Env → Type 0
Bounded env = (sock cap to : ℕ) (n : env.Net) → to_ℕ (env.udp_recvfrom sock cap to n).0 ≤ cap

module _ (env : Env) where
  open env use {config, Queue, Net, delay}

  fd_readable_udp :
      (r : Entry Queue) (n : Net)
      → Bounded env
      → r.kind ≡ udp
      → r.loopback ≡ false
      → (fd_readable env r n).0 ≡ false
  unfolding fd_readable readable_queue readable_net
  fd_readable_udp r n b k lo =
      rw (k, fd_readable)
        (rw (lo, readable_queue) (rw (k, readable_net) (ground (arith, b r.sock 0 0 n))))

  visit_skips :
      (rd_in wr_in : FdSet) (j fd : ℕ) (r : Entry Queue) (a : Scan Net)
      → (fd ≡ j → (fd_readable env r a.net).0 ≡ false)
      → a.rd j ≡ false
      → (visit env rd_in wr_in fd r a).rd j ≡ false
  unfolding visit visit_read visit_write
  visit_skips rd_in wr_in j fd r a h e = elim (Bool-cases (j == fd)) [
    | inl same ↦ ground (arith, h (sym (==_eq j fd same)))
    | inr other ↦ ground arith
  ]

  scan_skips_udp :
      (table : List (Entry Queue)) (rd_in wr_in : FdSet) (j i : ℕ) (r : Entry Queue)
      → Bounded env
      → fd_get config (pos j) table ≡ some (i, r)
      → r.kind ≡ udp
      → r.loopback ≡ false
      → (fd k : ℕ) (a : Scan Net) → a.rd j ≡ false
      → (scan_fds env table rd_in wr_in fd k a).rd j ≡ false
  unfolding scan_fds
  scan_skips_udp table rd_in wr_in j i r b found u lo fd zero a e = e
  scan_skips_udp table rd_in wr_in j i r b found u lo fd (suc k) a e =
      elim (Option-cases (fd_get config (pos fd) table)) [
        | inl none_there ↦
            rw (none_there, scan_fds)
              (scan_skips_udp table rd_in wr_in j i r b found u lo (suc fd) k a e)
        | inr ((i', r'), there) ↦
            let kept =
              visit_skips rd_in wr_in j fd r' a
                (λ same.
                  let one : some (i', r') ≡ some (i, r) =
                    sym there ∙ ap (λ n. fd_get config (pos n) table) same ∙ found in
                  let entry : r' ≡ r = cc in rw entry (fd_readable_udp r a.net b u lo))
                e in
            rw (there, scan_fds)
              (scan_skips_udp table rd_in wr_in j i r b found u lo (suc fd) k
                (visit env rd_in wr_in fd r' a) kept)
      ]

  loop_skips_udp :
      (fuel nfds : ℕ) (rd_in wr_in : FdSet) (deadline j i : ℕ) (r : Entry Queue) (s : State env)
      (a : Scan Net)
      → Bounded env
      → fd_get config (pos j) s.table ≡ some (i, r)
      → r.kind ≡ udp
      → r.loopback ≡ false
      → select_loop env fuel nfds rd_in wr_in deadline s ≡ some a
      → a.rd j ≡ false
  unfolding select_loop
  loop_skips_udp zero nfds rd_in wr_in deadline j i r s a b found u lo e = absurd (ground arith)
  loop_skips_udp (suc f) nfds rd_in wr_in deadline j i r s a b found u lo e =
      let p = select_pass env nfds rd_in wr_in s in
      let now =
        scan_skips_udp s.table rd_in wr_in j i r b found u lo 0 nfds (start_scan env s.net) refl in
      let later =
        loop_skips_udp f nfds rd_in wr_in deadline j i r (put_net (delay 1 p.net) s) a b found u
          lo in
      ground (arith, later)

-- If the core never stores more than it is given room for, select never answers that a UDP socket
-- off the loopback is readable, whatever has arrived for it: the probe receives with a capacity of
-- 0, and its result is never positive.
pub select_never_udp :
    (env : Env) (fuel nfds : ℕ) (rd_in wr_in : FdSet) (to : Option Timeval) (j i : ℕ)
    (r : Entry env.Queue) (s : State env) (a : Scan env.Net)
    → Bounded env
    → fd_get env.config (pos j) s.table ≡ some (i, r)
    → r.kind ≡ udp
    → r.loopback ≡ false
    → select env fuel nfds rd_in wr_in to s ≡ some a
    → a.rd j ≡ false
unfolding select
select_never_udp env fuel nfds rd_in wr_in to j i r s a b found u lo e =
    loop_skips_udp env fuel nfds rd_in wr_in (deadline_of env to s.net) j i r s a b found u lo e
