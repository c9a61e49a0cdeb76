-- ===== src/Compat/Loopback/Refine/Calls.antt =====
-- The calls that take datagrams and that make and close descriptors, as steps on mailboxes.
use esp_smoltcp.Common.{
  ◌+◌, ◌-◌, ℕ, ℤ, ◌≡◌, refl, sym, ap, ◌∙◌, false, Option, none, some, List, [], ◌∷◌, ◌<◌, length,
  if◌then◌else◌, ◌==◌, ==_eq, arith, get_elem?, modify, set, get_elem?-modify_self,
  get_elem?-set_self, get_elem?-set_ne, lt-length_of_some, Bool-cases, Option-cases, inl, inr,
}
use esp_smoltcp.Types.{ewouldblock}
use esp_smoltcp.Compat.State.{Kind, free, Msg, Entry, put_entry, put_net, set_errno}
use esp_smoltcp.Compat.Env.{Env, State}
use esp_smoltcp.Compat.Loopback.{lo_unbind, drain_entry}
use esp_smoltcp.Compat.Loopback.Mailboxes.{
  Mail, disclaim, put_box, emptied, Event, closed, MailStep, disclaims, takes, waits, makes, closes,
  leaves, loses,
}
use esp_smoltcp.Compat.Loopback.Refine.{
  box_of, box_at, Shows, LoStep, bind, unbind, deliver, take_one, alloc, close, take_event,
  alloc_event, close_event, Refines, Shows-put_entry, deliver-Refines,
}
use esp_smoltcp.Compat.Loopback.Refine.Bind.{bind-Refines, unbind_refines}
use esp_smoltcp.Compat.Fd.{
  fd_get, fd_alloc, fd_free, first_free, fresh_entry, fd_default_iface, release_loopback,
  close_pool, close_sock,
}
use esp_smoltcp.Compat.Fd.Alloc.{fd_get_inv, first_free-some}
use esp_smoltcp.Compat.Transfer.{recv_loopback, copy_out}

module _ (env : Env) where
  open env use {config, offset, queue, Queue, Net, contents, receive, receive_nil, receive_cons}

  -- Mails with the same owners and boxes are shown by the same states.
  Shows-cong :
      (s : State env) (m m' : Mail)
      → ((p : ℕ) → m.owner p ≡ m'.owner p)
      → ((e : ℕ) → m.box e ≡ m'.box e)
      → Shows env s m
      → Shows env s m'
  Shows-cong s m m' o b v = record {
    distinct = v.distinct;
    owner = λ p n. v.owner p n ∙ o p;
    box = λ e. v.box e ∙ b e;
  }

  -- A write to an entry that leaves its queue alone shows the same mail.
  Shows-keep :
      (s : State env) (m : Mail) (e : ℕ) (r : Entry Queue) (f : Entry Queue → Entry Queue)
      → get_elem? s.table e ≡ some r
      → box_of env (f r) ≡ m.box e
      → Shows env s m
      → Shows env (put_entry e f s) m
  Shows-keep s m e r f g b v =
      Shows-cong (put_entry e f s) (put_box e (box_of env (f r)) m) m (λ p. refl)
        (λ j. elim (Bool-cases (e == j)) [
          | inl same ↦ rw same (b ∙ ap m.box (==_eq e j same))
          | inr other ↦ rw other refl
        ])
        (Shows-put_entry env s m e r f g v)

  -- recvfrom on an empty queue into which nothing comes.
  empty_wait :
      (i cap : ℕ) (r : Entry Queue) (q : Queue) (fromlen : Option ℕ) (s : State env)
      → receive q ≡ none
      → (recv_loopback env i r q cap fromlen none s).state
        ≡ (if r.nonblocking then set_errno ewouldblock s else s)
  unfolding recv_loopback
  empty_wait i cap r q fromlen s h = ground arith

  take-Refines :
      (s : State env) (m : Mail) (i cap : ℕ) (r : Entry Queue) (q : Queue) (fromlen : Option ℕ)
      → get_elem? s.table i ≡ some r
      → r.lo_rx ≡ some q
      → (waiting : List Msg) → contents q ≡ waiting
      → Shows env s m
      → Refines env m
          (take_event env i (receive q))
          (recv_loopback env i r q cap fromlen none s).state
  unfolding recv_loopback copy_out
  take-Refines s m i cap r q fromlen g x [] c v =
      let b : m.box i ≡ some [] = sym (v.box i) ∙ ground (arith, g, x, c) in
      rw (empty_wait i cap r q fromlen s (receive_nil q c), receive_nil q c)
        (
          m,
          waits i b,
          elim (Bool-cases r.nonblocking) [
            | inl y ↦ rw y (record { distinct = v.distinct; owner = v.owner; box = v.box })
            | inr n ↦ rw n v
          ],
        )
  take-Refines s m i cap r q fromlen g x (a ∷ ms) c v =
      let (q', e, c', k) = receive_cons q a ms c in
      let b : m.box i ≡ some (a ∷ ms) = sym (v.box i) ∙ ground (arith, g, x, c) in
      let put : Entry Queue → Entry Queue = λ y. record y { lo_rx = some q' } in
      rw (e, recv_loopback)
        (put_box i (some ms) m, takes i a ms b, rw (← c') (Shows-put_entry env s m i r put g v))

  box_at-set_fresh :
      (t : List (Entry Queue)) (i j iface : ℕ) (k : Kind)
      → i < length t
      → box_at env j (set t i (fresh_entry k iface)) ≡ (if i == j then none else box_at env j t)
  box_at-set_fresh t i j iface k h = elim (Bool-cases (i == j)) [
    | inl same ↦ ground (arith, get_elem?-set_self t i (fresh_entry k iface) h)
    | inr other ↦ ground (arith, get_elem?-set_ne t i j (fresh_entry k iface))
  ]

  alloc-Refines :
      (s : State env) (m : Mail) (k : Kind)
      → Shows env s m
      → Refines env m (alloc_event env (fd_alloc env k s).0) (fd_alloc env k s).1
  unfolding fd_alloc
  alloc-Refines s m k v = elim (Option-cases (first_free s.table)) [
    | inl f ↦ rw (f, fd_alloc) (m, loses, v)
    | inr (i, f) ↦
        let (r, g, u) = first_free-some s.table i f in
        let back : offset + i - offset ≡ i = omega arith in
        rw (f, fd_alloc)
          (rw back (
            put_box i none m,
            makes i,
            record {
              distinct = v.distinct;
              owner = v.owner;
              box = λ j.
                  box_at-set_fresh s.table i j (fd_default_iface env s.net) k
                    (lt-length_of_some s.table i r g)
                  ∙ ap (λ b. if i == j then none else b) (v.box j);
            },
          ))
  ]

  -- The entry at `i` after the loopback part of fd_free.
  release_refines :
      (s : State env) (m : Mail) (i : ℕ) (r : Entry Queue)
      → get_elem? s.table i ≡ some r
      → Shows env s m
      → (m' : Mail) × MailStep m (closed i) m'
        × Shows env (release_loopback env i r s) m'
        × (x : Entry Queue) × (get_elem? (release_loopback env i r s).table i ≡ some x)
  unfolding release_loopback lo_unbind
  release_refines s m i r g v = elim (Bool-cases r.loopback) [
    | inr lo ↦ rw (lo, release_loopback) (m, leaves i, v, r, g)
    | inl lo ↦
        let reset : Entry Queue → Entry Queue = λ y. record y { lo_rx = none; loopback = false } in
        let drained = get_elem?-modify_self s.table i (drain_entry queue) r g in
        let u = unbind_refines env s m r.local_port i v in
        let there =
          get_elem?-modify_self (modify s.table i (drain_entry queue)) i reset (drain_entry queue r)
            drained in
        rw (lo, release_loopback)
          (
            put_box i none (disclaim r.local_port i m),
            closes r.local_port i,
            Shows-cong (put_entry i reset (lo_unbind queue r.local_port i s))
                (put_box i none (put_box i (emptied (m.box i)) (disclaim r.local_port i m)))
                (put_box i none (disclaim r.local_port i m)) (λ p. refl)
                (λ j. elim (Bool-cases (i == j)) [ inl a ↦ rw a refl | inr a ↦ rw a refl ])
                (Shows-put_entry env (lo_unbind queue r.local_port i s)
                  (put_box i (emptied (m.box i)) (disclaim r.local_port i m)) i
                  (drain_entry queue r) reset drained u),
            reset (drain_entry queue r),
            there,
          )
  ]

  close-Refines :
      (s : State env) (m : Mail) (fd : ℤ)
      → Shows env s m
      → Refines env m (close_event env (fd_get config fd s.table)) (fd_free env fd s)
  unfolding fd_free
  close-Refines s m fd v = elim (Option-cases (fd_get config fd s.table)) [
    | inl e ↦ rw (e, fd_free) (m, loses, v)
    | inr ((i, r), e) ↦
        let (found, there, used) = fd_get_inv config fd s.table i r e in
        let (m', step, w, x, at) = release_refines s m i r there v in
        let t : State env =
          put_net (close_pool env r (close_sock env r s.net)) (release_loopback env i r s) in
        let w' : Shows env t m' = record { distinct = w.distinct; owner = w.owner; box = w.box } in
        let freed : Entry Queue → Entry Queue = λ y. record y { kind = free } in
        rw (e, fd_free)
          (m', step, Shows-keep t m' i x freed at (sym (rw (at, box_at) refl) ∙ w.box i) w')
  ]

  -- In every state whose slots and queues show some mail, each call of lo_bind, lo_unbind,
  -- lo_deliver, fd_alloc and fd_free, and each recvfrom on a loopback entry, is a step on the mail
  -- that fits its report, and leaves a state that shows the mail after the step. So a port has one
  -- owner, the latest that registered it; a datagram that is accepted goes to the end of the box of
  -- the port's owner; and the datagram that is handed out is the oldest of its box.
  pub loopback_refines :
      (s t : State env) (m : Mail) (ev : Event)
      → Shows env s m
      → LoStep env s ev t
      → (m' : Mail) × MailStep m ev m' × Shows env t m'
  loopback_refines s t m ev v (bind port e created new) = bind-Refines env s m port e created new v
  loopback_refines s t m ev v (unbind port e) = (
    put_box e (emptied (m.box e)) (disclaim port e m),
    disclaims port e,
    unbind_refines env s m port e v,
  )
  loopback_refines s t m ev v (deliver port src_be src_port buf mem_ok n) =
      deliver-Refines env s m port src_be src_port buf mem_ok n v
  loopback_refines s t m ev v (take_one i cap r q fromlen g x) =
      take-Refines s m i cap r q fromlen g x (contents q) refl v
  loopback_refines s t m ev v (alloc k) = alloc-Refines s m k v
  loopback_refines s t m ev v (close fd) = close-Refines s m fd v
