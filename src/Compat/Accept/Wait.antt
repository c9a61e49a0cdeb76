-- ===== src/Compat/Accept/Wait.antt =====
-- src/sock_wrap.c: accept ends, with a peer, at once if the socket is non-blocking, or after its 60 s.
use esp_smoltcp.Common.{
  ℕ, zero, suc, ℤ, pos, negsuc, ◌+◌, ◌%◌, ◌⊎◌, List, get_or, ℤ-cases, Option, none, some, true,
  false, ltb, get_elem?, ◌≡◌, ◌≤◌, ◌<◌, refl, inl, inr, arith, Bool-cases, Option-cases, ltb→lt,
  ltb→le,
}
use esp_smoltcp.Types.{ewouldblock, enfile, etimedout}
use esp_smoltcp.Compat.State.{tcp, tcp_listen, Entry, put_net}
use esp_smoltcp.Compat.Env.{Env, State}
use esp_smoltcp.Compat.Fd.{fd_get, fd_alloc}
use esp_smoltcp.Compat.Fd.Alloc.{fd_get_inv}
use esp_smoltcp.Compat.Socket.{refuse}
use esp_smoltcp.Compat.Accept.Handover.{FirstConnected, find_connected_first, find_connected_hit}
use esp_smoltcp.Compat.Accept.{
  Accepted, no_peer, hand_over, accept_at, find_connected, accept_pass, elapsed, accept_loop,
  accept,
}

-- What the wait relies on: within the 60 s only finitely many ticks are slept.
pub record PatienceLaws (env : Env) (start : ℕ) : Type 0 where
  pub rank : env.Net → ℕ
  pub delay_ranks :
      (n : env.Net)
      → elapsed env start n ≤ env.ms_to_ticks 60000
      → rank (env.delay (env.ms_to_ticks 2) n) < rank n

module _ (env : Env) (start : ℕ) (laws : PatienceLaws env start) where
  open env use {config, Queue, Net, ms_to_ticks, delay, tcp_is_connected}
  open laws use {rank, delay_ranks}

  -- No socket of the listener's pool is connected.
  abbrev pub NoneConnected : Entry Queue → Net → Type 0
  NoneConnected r n =
      (r.pool ≡ none)
      ⊎ ((pool : List ℕ) × (r.pool ≡ some pool)
          × ((d : ℕ)
              → d < r.pool_len
              → tcp_is_connected (get_or pool ((r.pool_next + d) % r.pool_len) 0) n ≡ false))

  -- How the wait for a peer of the listener `r` ends, in a state `t` that differs from `s` by what
  -- the other tasks did to the net.
  pub data Ended (i : ℕ) (r : Entry Queue) (alen : Option ℕ) (s : State env)
      : Accepted (State env) → Type 0 where
    -- The last scan found a connected socket of the pool, and a descriptor was free.
    found :
        (a : Accepted (State env)) (n : Net) (pool : List ℕ) (idx d newfd : ℕ)
        → r.pool ≡ some pool
        → FirstConnected env pool r.pool_len r.pool_next idx n 0 d
        → d < r.pool_len
        → (fd_alloc env tcp (put_net n s)).0 ≡ pos newfd
        → a.result ≡ pos newfd
        → a.state ≡ hand_over env i r pool idx (pos newfd) (fd_alloc env tcp (put_net n s)).1
        → Ended i r alen s a
    -- It found one, but no descriptor was free.
    table_full :
        (n : Net) (pool : List ℕ) (idx d m : ℕ)
        → r.pool ≡ some pool
        → FirstConnected env pool r.pool_len r.pool_next idx n 0 d
        → d < r.pool_len
        → (fd_alloc env tcp (put_net n s)).0 ≡ negsuc m
        → Ended i r alen s (no_peer (refuse env enfile (fd_alloc env tcp (put_net n s)).1))
    -- No socket of the pool was connected, and the listener is non-blocking, or the 60 s are over.
    would_block :
        NoneConnected r s.net
        → r.nonblocking ≡ true
        → Ended i r alen s (no_peer (refuse env ewouldblock s))
    timed_out :
        (n : Net)
        → NoneConnected r n
        → r.nonblocking ≡ false
        → ms_to_ticks 60000 < elapsed env start n
        → Ended i r alen s (no_peer (refuse env etimedout (put_net n s)))

  pass-none :
      (i : ℕ) (r : Entry Queue) (alen : Option ℕ) (s : State env)
      → accept_pass env i r alen s ≡ none
      → NoneConnected r s.net
  unfolding accept_pass
  pass-none i r alen s e = elim (Option-cases r.pool) [
    | inl p ↦ inl p
    | inr (pool, p) ↦ inr (
      pool,
      p,
      λ d lt.
          elim (Bool-cases
            (tcp_is_connected (get_or pool ((r.pool_next + d) % r.pool_len) 0) s.net)) [
              | inr off ↦ off
              | inl up ↦
                  let (idx, hit) =
                    find_connected_hit env pool r.pool_len r.pool_next 0 r.pool_len s.net d
                      (omega arith) (omega arith) up in
                  absurd (ground arith)
            ],
    )
  ]

  -- What a scan that ends the call answers.
  pass-Ended :
      (i : ℕ) (r : Entry Queue) (alen : Option ℕ) (s : State env) (n : Net)
      (a : Accepted (State env))
      → accept_pass env i r alen (put_net n s) ≡ some a
      → Ended i r alen s a
  unfolding accept_pass accept_at
  pass-Ended i r alen s n a e = elim (Option-cases r.pool) [
    | inl p ↦ absurd (ground arith)
    | inr (pool, p) ↦
        elim (Option-cases (find_connected env pool r.pool_len r.pool_next 0 r.pool_len n)) [
          | inl f ↦ absurd (ground arith)
          | inr (idx, f) ↦
              let (d, low, high, first) =
                find_connected_first env pool r.pool_len r.pool_next 0 r.pool_len n idx f in
              let got : accept_at env i r pool idx alen (put_net n s) ≡ a = ground arith in
              elim (ℤ-cases (fd_alloc env tcp (put_net n s)).0) [
                | inl (newfd, z) ↦
                    found a n pool idx d newfd p first (omega arith) z (ground arith) (ground arith)
                | inr (m, z) ↦
                    let q : a ≡ no_peer (refuse env enfile (fd_alloc env tcp (put_net n s)).1) =
                      ground arith in
                    rw q (table_full n pool idx d m p first (omega arith) z)
              ]
        ]
  ]

  wait_ends :
      (f i : ℕ) (r : Entry Queue) (alen : Option ℕ) (s : State env) (n : Net)
      → get_elem? s.table i ≡ some r
      → r.nonblocking ≡ false
      → rank n < f
      → (a : Accepted (State env)) × (accept_loop env f i start alen (put_net n s) ≡ some a)
        × Ended i r alen s a
  unfolding accept_loop
  wait_ends zero i r alen s n there blocking enough = absurd (omega arith)
  wait_ends (suc f) i r alen s n there blocking enough =
      elim (Option-cases (accept_pass env i r alen (put_net n s))) [
        | inr (a, e) ↦
            (a, rw (there, accept_loop) (rw (e, accept_loop) refl), pass-Ended i r alen s n a e)
        | inl e ↦ elim (Bool-cases (ltb (ms_to_ticks 60000) (elapsed env start n))) [
          | inl late ↦ (
            no_peer (refuse env etimedout (put_net n s)),
            rw (there, accept_loop)
                (rw (e, accept_loop) (rw (blocking, accept_loop) (rw (late, accept_loop) refl))),
            timed_out n (pass-none i r alen (put_net n s) e) blocking (ltb→lt _ _ late),
          )
          | inr early ↦
              let fewer = delay_ranks n (ltb→le _ _ early) in
              let (a, ran, end) =
                wait_ends f i r alen s (delay (ms_to_ticks 2) n) there blocking (omega arith) in
              (
                a,
                rw (there, accept_loop)
                    (rw (e, accept_loop)
                      (rw (blocking, accept_loop) (rw (early, accept_loop) ran))),
                end,
              )
        ]
      ]

  accept_loop_ends :
      (f i : ℕ) (r : Entry Queue) (alen : Option ℕ) (s : State env)
      → get_elem? s.table i ≡ some r
      → rank s.net < f
      → (a : Accepted (State env)) × (accept_loop env f i start alen s ≡ some a)
        × Ended i r alen s a
  unfolding accept_loop
  accept_loop_ends zero i r alen s there enough = absurd (omega arith)
  accept_loop_ends (suc f) i r alen s there enough = elim (Bool-cases r.nonblocking) [
    | inr blocking ↦ wait_ends (suc f) i r alen s s.net there blocking enough
    | inl at_once ↦ elim (Option-cases (accept_pass env i r alen s)) [
      | inr (a, e) ↦
          (a, rw (there, accept_loop) (rw (e, accept_loop) refl), pass-Ended i r alen s s.net a e)
      | inl e ↦ (
        no_peer (refuse env ewouldblock s),
        rw (there, accept_loop) (rw (e, accept_loop) (rw (at_once, accept_loop) refl)),
        would_block (pass-none i r alen s e) at_once,
      )
    ]
  ]

-- On a listener, and with more fuel than rounds left in the 60 s, accept returns. If its last scan
-- found a connected socket of the pool, it hands over the first one on the descriptor that it returns,
-- or fails with ENFILE where no descriptor is free; if no socket was connected, it fails with
-- EWOULDBLOCK at once if the listener is non-blocking, and with ETIMEDOUT once the 60 s are over if
-- it blocks.
pub accept_returns :
    (env : Env) (fuel : ℕ) (fd : ℤ) (i : ℕ) (r : Entry env.Queue) (alen : Option ℕ) (s : State env)
    (laws : PatienceLaws env (env.tick_count s.net))
    → fd_get env.config fd s.table ≡ some (i, r)
    → r.kind ≡ tcp_listen
    → laws.rank s.net < fuel
    → (a : Accepted (State env)) × (accept env fuel fd alen s ≡ some a)
      × Ended env (env.tick_count s.net) laws i r alen s a
unfolding accept
accept_returns env fuel fd i r alen s laws e k enough =
    let there = (fd_get_inv env.config fd s.table i r e).1 in
    let (a, ran, end) =
      accept_loop_ends env (env.tick_count s.net) laws fuel i r alen s there enough in
    (a, rw (e, accept) (rw (k, accept) ran), end)
