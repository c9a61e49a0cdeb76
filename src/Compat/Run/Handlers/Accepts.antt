-- ===== src/Compat/Run/Handlers/Accepts.antt =====
-- accept of src/sock_wrap.c keeps every entry of the table sound.
use esp_smoltcp.Common.{
  ℕ, zero, suc, ℤ, pos, ◌≡◌, ◌%◌, refl, sym, ap, ◌∙◌, true, false, Option, none, some, List, ◌==◌,
  ltb, arith, length, length-set, set, get_or, get_elem?, get_elem?-modify, get_elem?-modify_ne,
  get_elem?-set_self, get_elem?-set_ne, lt-length_of_some, Bool-cases, Option-cases, inl, inr,
  ℤ-cases,
}
use esp_smoltcp.Compat.State.{tcp, tcp_listen, is_tcp_listen, Entry, put_net}
use esp_smoltcp.Compat.Env.{Env, State}
use esp_smoltcp.Compat.Fd.{fd_get, fd_alloc, first_free, fresh_entry, fd_default_iface}
use esp_smoltcp.Compat.Fd.Alloc.{first_free-some, fd_get_inv}
use esp_smoltcp.Compat.Socket.{put_fd}
use esp_smoltcp.Compat.Accept.{
  Accepted, accept, accept_loop, accept_pass, accept_at, hand_over, find_connected, rearm, elapsed,
}
use esp_smoltcp.Compat.Run.{AllSound}
use esp_smoltcp.Compat.Run.Table.{put_entry-AllSound, fd_alloc-AllSound}
use esp_smoltcp.Compat.Run.Handlers.{kept}

module _ (env : Env) where
  open env use {config, queue, Queue, Net, ms_to_ticks, tick_count, delay}

  -- If the entry at `i` is a listener, its pool has the length of that of `r`.
  abbrev SameAt : ℕ → Entry Queue → List (Entry Queue) → Type 0
  SameAt i r t =
      (x : Entry Queue) → get_elem? t i ≡ some x → x.kind ≡ tcp_listen → x.pool_len ≡ r.pool_len

  fd_alloc-SameAt :
      (i : ℕ) (r : Entry Queue) (s : State env)
      → get_elem? s.table i ≡ some r
      → SameAt i r (fd_alloc env tcp s).1.table
  unfolding fd_alloc
  fd_alloc-SameAt i r s g = elim (Option-cases (first_free s.table)) [
    | inl f ↦ rw (f, fd_alloc) (λ x h k. ground (arith, g, h))
    | inr (j, f) ↦
        let (y, a, b) = first_free-some s.table j f in
        let new = fresh_entry tcp (fd_default_iface env s.net) in
        let put_self = get_elem?-set_self s.table j new (lt-length_of_some s.table j y a) in
        rw (f, fd_alloc)
          (λ x h k. elim (Bool-cases (j == i)) [
            | inl same ↦ absurd (ground (arith, put_self, h))
            | inr other ↦ ground (arith, get_elem?-set_ne s.table j i new, g, h)
          ])
  ]

  abbrev given : ℕ → ℕ → Entry Queue → Entry Queue
  given sock iface x = record x {
    sock = sock;
    connected = true;
    iface = iface;
    nonblocking = false;
  }

  put_fd-SameAt :
      (fd : ℤ) (sock iface i : ℕ) (r : Entry Queue) (s : State env)
      → SameAt i r s.table
      → SameAt i r (put_fd env fd (given sock iface) s).table
  unfolding put_fd
  put_fd-SameAt fd sock iface i r s v = elim (Option-cases (fd_get config fd s.table)) [
    | inl e ↦ rw (e, put_fd) v
    | inr ((j, y), e) ↦
        rw (e, put_fd)
          (λ x h k. elim (Bool-cases (j == i)) [
            | inr other ↦
                v x (sym (get_elem?-modify_ne s.table j i (given sock iface) (ground arith)) ∙ h) k
            | inl same ↦ elim (Option-cases (get_elem? s.table i)) [
              | inl none_there ↦
                  absurd (ground (arith, get_elem?-modify s.table i (given sock iface)))
              | inr (z, there) ↦
                  let is_z : given sock iface z ≡ x =
                    ground (arith, get_elem?-modify s.table i (given sock iface)) in
                  sym (ap (λ (w : Entry Queue). w.pool_len) is_z)
                  ∙ v z there (ap (λ (w : Entry Queue). w.kind) is_z ∙ k)
            ]
          ])
  ]

  put_fd-AllSound :
      (fd : ℤ) (sock iface : ℕ) (s : State env)
      → AllSound env s.table
      → AllSound env (put_fd env fd (given sock iface) s).table
  unfolding put_fd
  put_fd-AllSound fd sock iface s v = elim (Option-cases (fd_get config fd s.table)) [
    | inl e ↦ rw (e, put_fd) v
    | inr ((j, y), e) ↦
        rw (e, put_fd)
          (kept env (given sock iface)
            (λ x u. record { pool_there = u.pool_there; queue_there = u.queue_there }) j s.table v)
  ]

  hand_over-AllSound :
      (i idx : ℕ) (r : Entry Queue) (pool : List ℕ) (newfd : ℤ) (t : State env)
      → length pool ≡ r.pool_len
      → SameAt i r t.table
      → AllSound env t.table
      → AllSound env (hand_over env i r pool idx newfd t).table
  unfolding hand_over
  hand_over-AllSound i idx r pool newfd t l same v =
      let t2 = put_fd env newfd (given (get_or pool idx 0) r.iface) t in
      let id = (rearm env r.iface r.port t.net).0 in
      put_entry-AllSound env t2.table i
        (λ x. record x { pool = some (set pool idx id); pool_next = suc idx % r.pool_len })
        (λ x h u. record {
          pool_there = λ k.
              let (p, a, b, c) = u.pool_there k in
              let e = put_fd-SameAt newfd (get_or pool idx 0) r.iface i r t same x h k in
              (set pool idx id, refl, omega (arith, length-set pool idx id, e, l), c);
          queue_there = u.queue_there;
        })
        (put_fd-AllSound newfd (get_or pool idx 0) r.iface t v)

  accept_at-AllSound :
      (i idx : ℕ) (r : Entry Queue) (pool : List ℕ) (alen : Option ℕ) (s : State env)
      → length pool ≡ r.pool_len
      → get_elem? s.table i ≡ some r
      → AllSound env s.table
      → AllSound env (accept_at env i r pool idx alen s).state.table
  unfolding accept_at
  accept_at-AllSound i idx r pool alen s l g v =
      let w = fd_alloc-AllSound env tcp s (λ e. ground (arith, e)) v in
      elim (ℤ-cases (fd_alloc env tcp s).0) [
        | inr (m, e) ↦ rw (e, accept_at) w
        | inl (m, e) ↦
            rw (e, accept_at)
              (hand_over-AllSound i idx r pool (pos m) (fd_alloc env tcp s).1 l
                (fd_alloc-SameAt i r s g) w)
      ]

  -- What an accept that has ended leaves.
  abbrev Left : Option (Accepted (State env)) → Type 0
  Left none = Unit {0}
  Left (some a) = AllSound env a.state.table

  accept_pass-Left :
      (i : ℕ) (r : Entry Queue) (alen : Option ℕ) (s : State env)
      → get_elem? s.table i ≡ some r
      → r.kind ≡ tcp_listen
      → AllSound env s.table
      → Left (accept_pass env i r alen s)
  unfolding accept_pass
  accept_pass-Left i r alen s g k v =
      let (pool, p, l, few) = (v i r g).pool_there k in
      elim (Option-cases (find_connected env pool r.pool_len r.pool_next 0 r.pool_len s.net)) [
        | inl f ↦ rw (p, accept_pass) (rw f tt)
        | inr (idx, f) ↦ rw (p, accept_pass) (rw f (accept_at-AllSound i idx r pool alen s l g v))
      ]

  accept_loop-Left :
      (fuel i start : ℕ) (alen : Option ℕ) (s : State env)
      → ((r : Entry Queue) → get_elem? s.table i ≡ some r → r.kind ≡ tcp_listen)
      → AllSound env s.table
      → Left (accept_loop env fuel i start alen s)
  unfolding accept_loop
  accept_loop-Left zero i start alen s k v = tt
  accept_loop-Left (suc f) i start alen s k v =
      let rest = accept_loop-Left f i start alen (put_net (delay (ms_to_ticks 2) s.net) s) k v in
      elim (Option-cases (get_elem? s.table i)) [
        | inl g ↦ rw (g, accept_loop) tt
        | inr (r, g) ↦
            let passed = accept_pass-Left i r alen s g (k r g) v in
            elim (Option-cases (accept_pass env i r alen s)) [
              | inr (a, e) ↦ rw (g, accept_loop) (rw e (rw e at passed))
              | inl e ↦ elim (Bool-cases r.nonblocking) [
                | inl n ↦ rw (g, accept_loop) (rw e (rw n v))
                | inr n ↦ elim (Bool-cases (ltb (ms_to_ticks 60000) (elapsed env start s.net))) [
                  | inl late ↦ rw (g, accept_loop) (rw e (rw n (rw late v)))
                  | inr early ↦ rw (g, accept_loop) (rw e (rw n (rw early rest)))
                ]
              ]
            ]
      ]

  pub accept-AllSound :
      (fuel : ℕ) (fd : ℤ) (alen : Option ℕ) (s : State env) (a : Accepted (State env))
      → AllSound env s.table
      → accept env fuel fd alen s ≡ some a
      → AllSound env a.state.table
  unfolding accept
  accept-AllSound fuel fd alen s a v ran =
      let left : Left (accept env fuel fd alen s) = elim (Option-cases (fd_get config fd s.table)) [
        | inl e ↦ rw (e, accept) v
        | inr ((i, r), e) ↦ elim (Bool-cases (is_tcp_listen r.kind)) [
          | inr k ↦ rw (e, accept) (rw k v)
          | inl k ↦
              let (found, there, used) = fd_get_inv config fd s.table i r e in
              rw (e, accept)
                (rw k (
                  accept_loop-Left fuel i (tick_count s.net) alen s
                    (λ x h. ground (arith, there, h, k)) v))
        ]
      ] in
      rw ran at left
