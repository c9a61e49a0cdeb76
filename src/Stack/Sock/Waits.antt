-- ===== src/Stack/Sock/Waits.antt =====
-- The blocking calls net_tcp_connect and net_tcp_recv of src/esp_smoltcp_sock.c come back.
use esp_smoltcp.Common.{
  ℕ, zero, suc, ℤ, pos, is_positive, ◌≤◌, ◌<◌, ◌≡◌, refl, some, List, [], true, false, arith, inl,
  inr, ◌⊎◌, Bool-cases, ltb, leb,
}
use esp_smoltcp.Types.{EspErr, ok, timeout}
use esp_smoltcp.Stack.State.{put_world}
use esp_smoltcp.Stack.Glue.{Base, State}
use esp_smoltcp.Stack.Query.{handle_for}
use esp_smoltcp.Stack.Iface.{kick_poll}
use esp_smoltcp.Stack.Sock.{
  connect_loop, net_tcp_connect, recv_loop, net_tcp_recv, iface_of, local_of, deadline_after,
}

-- What connect relies on: only finitely many naps (`rank`) are taken before the deadline.
pub record NapLaws (base : Base) (deadline : ℕ) : Type 0 where
  pub rank : State base → ℕ
  pub nap_ranks :
      (s : State base)
      → base.ticks s.world < deadline
      → rank (base.sleep (base.ms_to_ticks 20) s) < rank s

module _ (base : Base) (h l deadline : ℕ) (laws : NapLaws base deadline) where
  open base use {World, is_active, ticks, sleep, ms_to_ticks}
  open laws use {rank, nap_ranks}

  -- How the wait for a connection that starts in `s` ends in `t`: after some naps, in which the
  -- other tasks act, the connection is there before the deadline, or the deadline has come.
  pub data Napped : State base → State base → Type 0 where
    no_more : (s : State base) → Napped s s
    nap :
        (s t : State base)
        → Napped (sleep (ms_to_ticks 20) s) t
        → ticks s.world < deadline
        → is_active (some h) l s.world ≡ false
        → Napped s t

  abbrev pub Ended : EspErr → State base → Type 0
  Ended e t =
      ((e ≡ ok) × (is_active (some h) l t.world ≡ true) × (ticks t.world < deadline))
      ⊎ ((e ≡ timeout) × (deadline ≤ ticks t.world))

  pub connect_loop_ends :
      (f : ℕ) (s : State base)
      → rank s < f
      → (e : EspErr) × (t : State base) × (connect_loop base f h l deadline s ≡ some (e, t))
        × Napped s t
        × Ended e t
  unfolding connect_loop
  connect_loop_ends zero s fuel = absurd (omega arith)
  connect_loop_ends (suc f) s fuel = elim (Bool-cases (ltb (ticks s.world) deadline)) [
    | inr late ↦ (timeout, s, rw (late, connect_loop) refl, no_more s, inr (refl, ground arith))
    | inl early ↦ elim (Bool-cases (is_active (some h) l s.world)) [
      | inl up ↦ (
        ok,
        s,
        rw (early, connect_loop) (rw (up, connect_loop) refl),
        no_more s,
        inl (refl, up, ground arith),
      )
      | inr down ↦
          let fewer = nap_ranks s (ground arith) in
          let (e, t, ran, napped, end) =
            connect_loop_ends f (sleep (ms_to_ticks 20) s) (omega arith) in
          (
            e,
            t,
            rw (early, connect_loop) (rw (down, connect_loop) ran),
            nap s t napped (ground arith) down,
            end,
          )
    ]
  ]

-- If the core accepts the request on an enabled interface, and there is more fuel than naps left
-- before the deadline, net_tcp_connect returns: ESP_OK with the connection active before the
-- deadline, or ESP_ERR_TIMEOUT after it. The stack is as the accepted request left it, but for what
-- the other tasks did during the naps, each of them taken before the deadline with the connection
-- not active yet.
pub net_tcp_connect_returns :
    (base : Base) (fuel sock ip port timeout_ms h : ℕ) (s : State base) (w : base.World)
    (laws : NapLaws base (deadline_after base timeout_ms w))
    → handle_for base (iface_of sock) s ≡ some h
    → base.connect_tcp (some h) (local_of sock) ip port s.world ≡ (pos 0, w)
    → laws.rank (put_world w s) < fuel
    → (e : EspErr) × (t : State base) × (net_tcp_connect base fuel sock ip port timeout_ms s
        ≡ some (e, t))
      × Napped base h (local_of sock) (deadline_after base timeout_ms w) laws (put_world w s) t
      × Ended base h (local_of sock) (deadline_after base timeout_ms w) laws e t
unfolding net_tcp_connect
net_tcp_connect_returns base fuel sock ip port timeout_ms h s w laws found accepted enough =
    let (e, t, ran, napped, end) =
      connect_loop_ends base h (local_of sock) (deadline_after base timeout_ms w) laws fuel
        (put_world w s) enough in
    (e, t, rw (found, net_tcp_connect) (rw (accepted, net_tcp_connect) ran), napped, end)

-- What recv relies on: until the deadline is past, only finitely many rounds (`rank`) of asking the
-- core in vain and waiting are made.
pub record RoundLaws (base : Base) (h l room deadline : ℕ) : Type 0 where
  pub rank : State base → ℕ
  pub round_ranks :
      (s : State base)
      → base.ticks s.world ≤ deadline
      → rank (base.wait_progress 50 (put_world (base.recv_tcp (some h) l room s.world).2 s))
        < rank s

module _ (base : Base) (h l room deadline : ℕ) (laws : RoundLaws base h l room deadline) where
  open base use {World, recv_tcp, ticks, wait_progress}
  open laws use {rank, round_ranks}

  -- How the wait for data ends: with what the core gave, or with nothing after the deadline.
  abbrev pub Got : ℤ → List ℕ → State base → Type 0
  Got n bytes t =
      ((is_positive n ≡ true)
        × ((w : World) × (ticks w ≤ deadline)
            × (n ≡ (recv_tcp (some h) l room w).0)
            × (bytes ≡ (recv_tcp (some h) l room w).1)
            × (t.world ≡ (recv_tcp (some h) l room w).2)))
      ⊎ ((n ≡ pos 0) × (bytes ≡ []) × (deadline < ticks t.world))

  recv_loop_ends :
      (f : ℕ) (s : State base)
      → rank s < f
      → (n : ℤ) × (bytes : List ℕ) × (t : State base) × (recv_loop base f h l room deadline s
          ≡ some (n, bytes, t))
        × Got n bytes t
  unfolding recv_loop kick_poll
  recv_loop_ends zero s fuel = absurd (omega arith)
  recv_loop_ends (suc f) s fuel =
      let (n, bytes, v) = recv_tcp (some h) l room s.world in
      elim (Bool-cases (leb (ticks s.world) deadline)) [
        | inr late ↦ (pos 0, [], s, rw (late, recv_loop) refl, inr (refl, refl, ground arith))
        | inl early ↦ elim (Bool-cases (is_positive n)) [
          | inl got ↦ (
            n,
            bytes,
            kick_poll base (put_world v s),
            rw (early, recv_loop) (rw (got, recv_loop) refl),
            inl (got, (s.world, ground arith, refl, refl, ground arith)),
          )
          | inr none_yet ↦
              let fewer = round_ranks s (ground arith) in
              let (n', bytes', t, ran, end) =
                recv_loop_ends f (wait_progress 50 (put_world v s)) (omega arith) in
              (n', bytes', t, rw (early, recv_loop) (rw (none_yet, recv_loop) ran), end)
        ]
      ]

-- On an enabled interface, and with more fuel than rounds left before the deadline is past,
-- net_tcp_recv returns: either a positive number with the bytes that the core gave on one call made
-- in time, or 0 and no bytes with the deadline past.
pub net_tcp_recv_returns :
    (base : Base) (fuel sock room timeout_ms h : ℕ) (s : State base)
    (laws : RoundLaws base h (local_of sock) room (deadline_after base timeout_ms s.world))
    → handle_for base (iface_of sock) s ≡ some h
    → laws.rank s < fuel
    → (n : ℤ) × (bytes : List ℕ) × (t : State base) × (net_tcp_recv base fuel sock room timeout_ms s
        ≡ some (n, bytes, t))
      × Got base h (local_of sock) room (deadline_after base timeout_ms s.world) laws n bytes t
unfolding net_tcp_recv
net_tcp_recv_returns base fuel sock room timeout_ms h s laws found enough =
    let (n, bytes, t, ran, end) =
      recv_loop_ends base h (local_of sock) room (deadline_after base timeout_ms s.world) laws fuel
        s enough in
    (n, bytes, t, rw (found, net_tcp_recv) ran, end)
