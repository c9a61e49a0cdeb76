-- ===== src/Compat/Run/Table.antt =====
-- What the calls below the wrappers do to the entries of the table (src/fd_table.c, src/loopback.c).
use esp_smoltcp.Common.{
  ℕ, ℤ, ◌≡◌, ◌≢◌, refl, sym, ◌∙◌, Bool, true, false, Option, none, some, List, ◌==◌, ◌&&◌, ltb,
  arith, length, get_elem?, modify, get_elem?-modify, get_elem?-modify_ne, get_elem?-set_self,
  get_elem?-set_ne, lt-length_of_some, Bool-cases, Option-cases, inl, inr,
}
use esp_smoltcp.Compat.State.{Kind, free, tcp_listen, Msg, Entry}
use esp_smoltcp.Compat.Env.{Env, State}
use esp_smoltcp.Compat.Loopback.{
  lo_bind, bound, lo_unbind, lo_deliver, enqueue, drain_entry, find_target,
}
use esp_smoltcp.Compat.Fd.{
  fd_get, fd_alloc, fd_free, first_free, fresh_entry, fd_default_iface, release_loopback,
}
use esp_smoltcp.Compat.Fd.Alloc.{first_free-some}
use esp_smoltcp.Compat.Run.{Sound, AllSound}

module _ (env : Env) where
  open env use {config, queue, Queue, Net, send}

  -- A write to one entry that leaves it sound.
  pub put_entry-AllSound :
      (t : List (Entry Queue)) (i : ℕ) (f : Entry Queue → Entry Queue)
      → ((r : Entry Queue) → get_elem? t i ≡ some r → Sound env r → Sound env (f r))
      → AllSound env t
      → AllSound env (modify t i f)
  put_entry-AllSound t i f k v j x h = elim (Bool-cases (i == j)) [
    | inr other ↦ v j x (sym (get_elem?-modify_ne t i j f (ground arith)) ∙ h)
    | inl same ↦ elim (Option-cases (get_elem? t i)) [
      | inl e ↦ absurd (ground (arith, get_elem?-modify t i f))
      | inr (r, e) ↦
          let is_f : f r ≡ x = ground (arith, get_elem?-modify t i f) in
          rw (← is_f) (k r e (v i r e))
    ]
  ]

  -- A write that touches neither kind, pool nor loopback fields.
  pub keep-Sound :
      (r x : Entry Queue)
      → (x.kind ≡ r.kind)
      → (x.pool ≡ r.pool)
      → (x.pool_len ≡ r.pool_len)
      → (x.loopback ≡ r.loopback)
      → (x.lo_rx ≡ r.lo_rx)
      → Sound env r
      → Sound env x
  keep-Sound r x k p l o q v = record {
    pool_there = λ e.
        let (xs, a, b, c) = v.pool_there (sym k ∙ e) in (xs, p ∙ a, b ∙ sym l, omega (arith, l));
    queue_there = λ e. let (y, a) = v.queue_there (sym o ∙ e) in (y, q ∙ a);
  }

  pub fd_alloc-AllSound :
      (k : Kind) (s : State env)
      → k ≢ tcp_listen
      → AllSound env s.table
      → AllSound env (fd_alloc env k s).1.table
  unfolding fd_alloc
  fd_alloc-AllSound k s n v = elim (Option-cases (first_free s.table)) [
    | inl f ↦ rw (f, fd_alloc) v
    | inr (i, f) ↦
        let (r, g, u) = first_free-some s.table i f in
        let new = fresh_entry k (fd_default_iface env s.net) in
        let set_self = get_elem?-set_self s.table i new (lt-length_of_some s.table i r g) in
        rw (f, fd_alloc)
          (λ j x h. elim (Bool-cases (i == j)) [
            | inr other ↦ v j x (sym (get_elem?-set_ne s.table i j new (ground arith)) ∙ h)
            | inl same ↦
                let is_new : new ≡ x = ground arith in
                rw (← is_new) (record {
                  pool_there = λ e. absurd (n e);
                  queue_there = λ e. absurd (ground arith);
                })
          ])
  ]

  lo_unbind-AllSound :
      (port e : ℕ) (s : State env)
      → AllSound env s.table
      → AllSound env (lo_unbind queue port e s).table
  unfolding lo_unbind drain_entry
  lo_unbind-AllSound port e s v =
      put_entry-AllSound s.table e (drain_entry queue) (λ r g u. drained r u) v
    where
      drained : (r : Entry Queue) → Sound env r → Sound env (drain_entry queue r)
      drained r u = elim (Option-cases r.lo_rx) [
        | inl x ↦ rw (x, drain_entry) u
        | inr (q, x) ↦
            rw (x, drain_entry) (record { pool_there = u.pool_there; queue_there = λ h. (_, refl) })
      ]

  pub fd_free-AllSound :
      (fd : ℤ) (s : State env) → AllSound env s.table → AllSound env (fd_free env fd s).table
  unfolding fd_free release_loopback
  fd_free-AllSound fd s v = elim (Option-cases (fd_get config fd s.table)) [
    | inl e ↦ rw (e, fd_free) v
    | inr ((i, r), e) ↦
        rw (e, fd_free)
          (put_entry-AllSound (release_loopback env i r s).table i freed
            (λ x g u. record {
              pool_there = λ k. absurd (ground arith);
              queue_there = u.queue_there;
            })
            (released i r))
  ]
    where
      freed : Entry Queue → Entry Queue
      freed x = record x { kind = free }

      released : (i : ℕ) (r : Entry Queue) → AllSound env (release_loopback env i r s).table
      released i r = elim (Bool-cases r.loopback) [
        | inr lo ↦ rw (lo, release_loopback) v
        | inl lo ↦
            rw (lo, release_loopback)
              (put_entry-AllSound (lo_unbind queue r.local_port i s).table i
                (λ x. record x { lo_rx = none; loopback = false })
                (λ x g u. record {
                  pool_there = u.pool_there;
                  queue_there = λ h. absurd (ground arith);
                })
                (lo_unbind-AllSound r.local_port i s v))
      ]

  pub lo_bind-AllSound :
      (port e : ℕ) (created : Option Queue) (s : State env)
      → AllSound env s.table
      → AllSound env (lo_bind queue port (some e) created s).1.table
  unfolding lo_bind
  lo_bind-AllSound port e created s v = elim (Bool-cases (port == 0)) [
    | inl z ↦ rw (z, lo_bind) v
    | inr n ↦ elim (Option-cases (get_elem? s.table e)) [
      | inl g ↦ rw (n, g, lo_bind) v
      | inr (r, g) ↦ elim (Option-cases r.lo_rx) [
        | inr (q, x) ↦ rw (n, g, lo_bind) (rw x (bound-AllSound q))
        | inl x ↦ elim (Option-cases created) [
          | inl c ↦ rw (n, g, lo_bind) (rw (x, c) v)
          | inr (q, c) ↦ rw (n, g, lo_bind) (rw (x, c) (bound-AllSound q))
        ]
      ]
    ]
  ]
    where
      bound-AllSound : (q : Queue) → AllSound env (bound queue port e q s).table
      bound-AllSound q =
          put_entry-AllSound s.table e (λ r. record r { lo_rx = some q; loopback = true })
            (λ r g u. record { pool_there = u.pool_there; queue_there = λ h. (q, refl) }) v

  pub lo_deliver-AllSound :
      (port src_be src_port : ℕ) (buf : List ℕ) (mem_ok : Bool) (s : State env)
      → AllSound env s.table
      → AllSound env (lo_deliver queue port src_be src_port (some buf) mem_ok s).1.table
  unfolding lo_deliver enqueue
  lo_deliver-AllSound port src_be src_port buf mem_ok s v =
      elim (Bool-cases (ltb 65535 (length buf))) [
        | inl big ↦ rw (big, lo_deliver) v
        | inr fits ↦ elim (Option-cases (find_target port s.slots)) [
          | inl f ↦ rw (fits, f, lo_deliver) v
          | inr (e, f) ↦ rw (fits, f, lo_deliver) (enqueue-AllSound e _)
        ]
      ]
    where
      enqueue-AllSound : (e : ℕ) (m : Msg) → AllSound env (enqueue queue e m mem_ok s).1.table
      enqueue-AllSound e m = elim (Option-cases (get_elem? s.table e)) [
        | inl g ↦ rw (g, enqueue) v
        | inr (r, g) ↦ elim (Option-cases r.lo_rx) [
          | inl x ↦ rw (g, enqueue) (rw x v)
          | inr (q, x) ↦ elim (Bool-cases (mem_ok && (send m q).0)) [
            | inr not_fit ↦ rw (g, enqueue) (rw x (rw not_fit v))
            | inl fit ↦
                rw (g, enqueue)
                  (rw x (
                    rw fit (
                      put_entry-AllSound s.table e (λ y. record y { lo_rx = some (send m q).1 })
                        (λ y h u. record {
                          pool_there = u.pool_there;
                          queue_there = λ a. (_, refl);
                        })
                        v)))
          ]
        ]
      ]
