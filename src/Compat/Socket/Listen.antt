-- ===== src/Compat/Socket/Listen.antt =====
-- The pool of sockets that listen of src/sock_wrap.c arms.
use esp_smoltcp.Common.{
  ℕ, zero, suc, ℤ, pos, negsuc, is_positive, false, min, ◌⊎◌, ◌≡◌, ◌≢◌, refl, none, some, List,
  true, Bool, arith, length, inl, inr, Bool-cases, All,
}
use esp_smoltcp.Types.{is_ok}
use esp_smoltcp.Net.{net_sock_valid}
use esp_smoltcp.Compat.State.{tcp_listen, is_tcp, Entry}
use esp_smoltcp.Compat.Env.{Env, State}
use esp_smoltcp.Compat.Fd.{fd_get}
use esp_smoltcp.Compat.Socket.{
  Armed, armed, cons_armed, pool_size, arm, listening, listen_armed, listen,
}
use esp_smoltcp.Compat.Socket.Stale.{fd_get-modify}

module _ (env : Env) where
  open env use {config, Queue, Net, listener_pool, tcp_open, tcp_listen as net_listen}

  -- A positive backlog asks for that many sockets, any other for the configured number, which is also
  -- the most there can be.
  abbrev pub AskedFor : ℤ → ℕ → Type 0
  AskedFor backlog k =
      ((n : ℕ) × (backlog ≡ pos (suc n)) × (k ≡ min (suc n) listener_pool))
      ⊎ ((is_positive backlog ≡ false) × (k ≡ listener_pool))

  pool_size-AskedFor : (backlog : ℤ) → AskedFor backlog (pool_size env backlog)
  unfolding pool_size
  pool_size-AskedFor (pos zero) = inr (refl, ground arith)
  pool_size-AskedFor (pos (suc n)) = inl (n, refl, ground arith)
  pool_size-AskedFor (negsuc n) = inr (refl, ground arith)

  -- What the loop leaves when all went well.
  abbrev AllArmed : ℕ → Armed Net → Type 0
  AllArmed k (armed none xs n) = (length xs ≡ k) × All (λ x. net_sock_valid x ≡ true) xs
  AllArmed k (armed (some e) xs n) = Unit {0}

  AllArmed-cons :
      (k x : ℕ) (a : Armed Net)
      → net_sock_valid x ≡ true
      → AllArmed k a
      → AllArmed (suc k) (cons_armed x a)
  AllArmed-cons k x (armed none xs n) h v = (omega (arith, v.0), (h, v.1))
  AllArmed-cons k x (armed (some e) xs n) h v = tt

  arm-AllArmed : (k iface port : ℕ) (n : Net) → AllArmed k (arm env k iface port n)
  unfolding arm
  arm-AllArmed zero iface port n = (refl, tt)
  arm-AllArmed (suc k) iface port n =
      let (id, opened) = tcp_open iface n in
      let (e, listening) = net_listen id port opened in
      elim (Bool-cases (net_sock_valid id)) [
        | inr bad ↦ rw (bad, arm) tt
        | inl good ↦ elim (Bool-cases (is_ok e)) [
          | inr bad ↦ rw (good, arm) (rw (bad, arm) tt)
          | inl fine ↦
              rw (good, arm)
                (rw (fine, arm)
                  (AllArmed-cons k id (arm env k iface port listening) good
                    (arm-AllArmed k iface port listening)))
        ]
      ]

  -- The entry of a listener with the sockets `xs`.
  abbrev pub listening_entry : ℕ → List ℕ → Entry Queue → Entry Queue
  listening_entry size xs r = record r {
    pool = some xs;
    pool_len = size;
    pool_next = 0;
    port = r.local_port;
    kind = tcp_listen;
  }

  listen_armed_entry :
      (fd backlog : ℤ) (i size : ℕ) (r : Entry Queue) (a : Armed Net) (s : State env)
      → fd_get config fd s.table ≡ some (i, r)
      → AskedFor backlog size
      → AllArmed size a
      → (listen_armed env i r size a s).0 ≡ pos 0
      → (xs : List ℕ) × (fd_get config fd (listen_armed env i r size a s).1.table
          ≡ some (i, listening_entry (length xs) xs r))
        × AskedFor backlog (length xs)
        × All (λ x. net_sock_valid x ≡ true) xs
  unfolding listen_armed
  listen_armed_entry fd backlog i size r (armed none xs n) s e asked v h = (
    xs,
    rw v.0 (
        fd_get-modify env fd s.table i r
          (λ x. record x {
            pool = some xs;
            pool_len = size;
            pool_next = 0;
            port = r.local_port;
            kind = tcp_listen;
          })
          e refl),
    rw v.0 asked,
    v.1,
  )
  listen_armed_entry fd backlog i size r (armed (some x) xs n) s e asked v h = absurd (ground arith)

  -- If listen on a descriptor answers 0, the descriptor was a TCP socket bound to a port other than
  -- 0 and is now a listener on that port. Its pool has as many sockets as a positive backlog asks
  -- for, but at most the configured number, and that number for any other backlog; each socket is
  -- valid.
  pub listen_arms :
      (fd backlog : ℤ) (i : ℕ) (r : Entry Queue) (mem_ok : Bool) (s : State env)
      → fd_get config fd s.table ≡ some (i, r)
      → (listen env fd backlog mem_ok s).0 ≡ pos 0
      → (is_tcp r.kind ≡ true)
        × (r.local_port ≢ 0)
        × ((xs : List ℕ) × (fd_get config fd (listen env fd backlog mem_ok s).1.table
              ≡ some (i, listening_entry (length xs) xs r))
            × AskedFor backlog (length xs)
            × All (λ x. net_sock_valid x ≡ true) xs)
  unfolding listen
  listen_arms fd backlog i r mem_ok s e h =
      let size = pool_size env backlog in
      let a = arm env size r.iface r.local_port s.net in
      let all = arm-AllArmed size r.iface r.local_port s.net in
      let asked = pool_size-AskedFor backlog in
      let entry = listen_armed_entry fd backlog i size r a s e asked all in ground (arith, e, entry)
