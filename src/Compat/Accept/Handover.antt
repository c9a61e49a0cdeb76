-- ===== src/Compat/Accept/Handover.antt =====
-- What accept of src/sock_wrap.c hands out, and what it leaves in the listener.
use esp_smoltcp.Common.{
  ℕ, zero, suc, ℤ, pos, ◌+◌, ◌-◌, ◌%◌, ◌≤◌, ◌<◌, ◌≡◌, ◌≢◌, refl, ap, sym, ◌∙◌, Option, none, some,
  List, true, false, arith, get_elem?-modify_ne, modify, set, get_or, inl, inr, if◌then◌else◌,
  Bool-cases, ◌==◌, ==_eq,
}
use esp_smoltcp.Compat.State.{tcp, tcp_listen, Entry}
use esp_smoltcp.Compat.Env.{Env, State}
use esp_smoltcp.Compat.Address.{has_room}
use esp_smoltcp.Compat.Fd.{fd_get, fd_alloc}
use esp_smoltcp.Compat.Fd.Alloc.{fd_get_inv, fd_get_other, slot_of_inv, fd_alloc_fresh, fresh_at}
use esp_smoltcp.Compat.Socket.{put_fd}
use esp_smoltcp.Compat.Socket.Stale.{fd_get-modify}
use esp_smoltcp.Compat.Accept.{
  Accepted, any_addr, find_connected, rearm, hand_over, accept_at, accept_pass, accept_loop, accept,
}

module _ (env : Env) where
  open env use {config, offset, Queue, Net, tcp_is_connected}

  -- The place that is `d` rounds after `next` in the pool holds the first connected socket.
  pub record FirstConnected (pool : List ℕ) (len next idx : ℕ) (n : Net) (i d : ℕ) : Type 0 where
    pub place : idx ≡ (next + d) % len
    pub connected : tcp_is_connected (get_or pool idx 0) n ≡ true
    pub earlier :
        (e : ℕ) → i ≤ e → e < d → tcp_is_connected (get_or pool ((next + e) % len) 0) n ≡ false

  -- The scan does not miss a connected socket.
  pub find_connected_hit :
      (pool : List ℕ) (len next i k : ℕ) (n : Net) (e : ℕ)
      → i ≤ e
      → e < i + k
      → tcp_is_connected (get_or pool ((next + e) % len) 0) n ≡ true
      → (idx : ℕ) × (find_connected env pool len next i k n ≡ some idx)
  unfolding find_connected
  find_connected_hit pool len next i zero n e a b h = absurd (omega arith)
  find_connected_hit pool len next i (suc k) n e a b h =
      elim (Bool-cases (tcp_is_connected (get_or pool ((next + i) % len) 0) n)) [
        | inl here ↦ ((next + i) % len, rw (here, find_connected) refl)
        | inr not_here ↦
            let differ : e ≢ i = λ p.
              absurd (
                ground
                  (arith, ap (λ j. tcp_is_connected (get_or pool ((next + j) % len) 0) n) p)) in
            let (idx, f) =
              find_connected_hit pool len next (suc i) k n e (ground arith) (omega arith) h in
            (idx, rw (not_here, find_connected) f)
      ]

  pub find_connected_first :
      (pool : List ℕ) (len next i k : ℕ) (n : Net) (idx : ℕ)
      → find_connected env pool len next i k n ≡ some idx
      → (d : ℕ) × (i ≤ d) × (d < i + k) × FirstConnected pool len next idx n i d
  unfolding find_connected
  find_connected_first pool len next i zero n idx h = absurd (ground arith)
  find_connected_first pool len next i (suc k) n idx h =
      elim (Bool-cases (tcp_is_connected (get_or pool ((next + i) % len) 0) n)) [
        | inl here ↦
            let z : idx ≡ (next + i) % len = ground arith in
            (
              i,
              omega arith,
              omega arith,
              record { place = z; connected = rw z here; earlier = λ e a b. absurd (omega arith) },
            )
        | inr not_here ↦
            let later : find_connected env pool len next (suc i) k n ≡ some idx = ground arith in
            let (d, a, b, v) = find_connected_first pool len next (suc i) k n idx later in
            (
              d,
              omega arith,
              omega arith,
              record {
                place = v.place;
                connected = v.connected;
                earlier = λ e x y. elim (Bool-cases (e == i)) [
                  | inl same ↦ rw (==_eq e i same) not_here
                  | inr other ↦ v.earlier e (ground arith) y
                ];
              },
            )
      ]

  -- The entry of the new descriptor, and the listener's once its place is armed again.
  abbrev pub handed : Entry Queue → ℕ → Entry Queue → Entry Queue
  handed r sock x = record x { sock = sock; connected = true; iface = r.iface; nonblocking = false }

  abbrev pub rearmed : List ℕ → ℕ → ℕ → Entry Queue → Entry Queue
  rearmed pool idx fresh x = record x {
    pool = some (set pool idx fresh);
    pool_next = suc idx % x.pool_len;
  }

  -- A write through one descriptor's pointer does not show through another.
  fd_get-modify_ne :
      (fd other : ℤ) (t : List (Entry Queue)) (i : ℕ) (r : Entry Queue)
      (f : Entry Queue → Entry Queue)
      → fd_get config fd t ≡ some (i, r)
      → other ≢ fd
      → fd_get config other (modify t i f) ≡ fd_get config other t
  fd_get-modify_ne fd other t i r f e ne =
      let found = (fd_get_inv config fd t i r e).0 in
      fd_get_other config other i (modify t i f) t
        (λ p. ne (p ∙ sym (slot_of_inv config fd i found)))
        (λ j d. get_elem?-modify_ne t i j f (λ q. d (sym q)))

  hand_over_entries :
      (fd : ℤ) (i idx newfd : ℕ) (r : Entry Queue) (pool : List ℕ) (s : State env)
      → fd_get config fd s.table ≡ some (i, r)
      → (fd_alloc env tcp s).0 ≡ pos newfd
      → let t = hand_over env i r pool idx (pos newfd) (fd_alloc env tcp s).1 in
        (fd_get config (pos newfd) t.table
          ≡ some (newfd - offset, handed r (get_or pool idx 0) (fresh_at env tcp s)))
        × (fd_get config fd t.table
            ≡ some (i, rearmed pool idx (rearm env r.iface r.port s.net).0 r))
  unfolding hand_over put_fd
  hand_over_entries fd i idx newfd r pool s e new =
      let t : State env = (fd_alloc env tcp s).1 in
      let fresh : Entry Queue = fresh_at env tcp s in
      let j = newfd - offset in
      let f : Entry Queue → Entry Queue = handed r (get_or pool idx 0) in
      let id = (rearm env r.iface r.port s.net).0 in
      let g : Entry Queue → Entry Queue =
        λ x. record x { pool = some (set pool idx id); pool_next = suc idx % r.pool_len } in
      let unused = (fd_alloc_fresh env tcp s newfd (pos (suc newfd)) refl new (ground arith)).0 in
      let differ : fd ≢ pos newfd =
        λ p. absurd (ground (arith, ap (λ (z : ℤ). fd_get config z s.table) p)) in
      let (a, made, same, slots, net) = fd_alloc_fresh env tcp s newfd fd refl new differ in
      let kept : fd_get config fd t.table ≡ some (i, r) = same ∙ e in
      let used = (fd_get_inv config fd t.table i r kept).2 in
      let given = fd_get-modify env (pos newfd) t.table j fresh f made refl in
      let other = fd_get-modify_ne (pos newfd) fd t.table j fresh f made differ ∙ kept in
      rw (made, put_fd)
        (rw net (
          fd_get-modify_ne fd (pos newfd) (modify t.table j f) i r g other (λ p. differ (sym p))
              ∙ given,
          fd_get-modify env fd (modify t.table j f) i r g other used,
        ))

  -- If a socket of the listener's pool is connected, `at` places behind `pool_next`, and a descriptor
  -- is free, the first round of accept returns that descriptor: its entry is a connected TCP socket on the listener's
  -- interface, for the first connected socket of the pool from `pool_next` on; in the pool that
  -- place has the newly opened socket, and the next scan starts behind it.
  pub accept_hands_over :
      (fd : ℤ) (i at newfd fuel : ℕ) (r : Entry Queue) (pool : List ℕ) (alen : Option ℕ)
      (s : State env)
      → fd_get config fd s.table ≡ some (i, r)
      → r.kind ≡ tcp_listen
      → r.pool ≡ some pool
      → at < r.pool_len
      → tcp_is_connected (get_or pool ((r.pool_next + at) % r.pool_len) 0) s.net ≡ true
      → (fd_alloc env tcp s).0 ≡ pos newfd
      → (idx : ℕ) × (a : Accepted (State env)) × (accept env (suc fuel) fd alen s ≡ some a)
        × (a.result ≡ pos newfd)
        × (fd_get config (pos newfd) a.state.table
            ≡ some (newfd - offset, handed r (get_or pool idx 0) (fresh_at env tcp s)))
        × (fd_get config fd a.state.table
            ≡ some (i, rearmed pool idx (env.tcp_open r.iface s.net).0 r))
        × ((d : ℕ) × (d < r.pool_len) × FirstConnected pool r.pool_len r.pool_next idx s.net 0 d)
  unfolding accept accept_loop accept_pass accept_at hand_over rearm
  accept_hands_over fd i at newfd fuel r pool alen s e k p in_pool up new =
      let (idx, found) =
        find_connected_hit pool r.pool_len r.pool_next 0 r.pool_len s.net at (omega arith)
          (omega arith) up in
      let a : Accepted (State env) = record {
        result = pos newfd;
        peer = if has_room alen then some (any_addr) else none;
        state = hand_over env i r pool idx (pos newfd) (fd_alloc env tcp s).1;
      } in
      let at_idx : accept_at env i r pool idx alen s ≡ a = rw (new, accept_at) refl in
      let passed : accept_pass env i r alen s ≡ some a = ground (arith, at_idx) in
      let there = (fd_get_inv config fd s.table i r e).1 in
      let (d, x, y, first) =
        find_connected_first pool r.pool_len r.pool_next 0 r.pool_len s.net idx found in
      let (mine, listener) = hand_over_entries fd i idx newfd r pool s e new in
      (
        idx,
        a,
        rw (e, accept) (rw (k, accept) (rw (there, accept_loop) (rw (passed, accept_loop) refl))),
        refl,
        mine,
        listener,
        (d, omega arith, first),
      )
