-- ===== src/Compat/Loopback/Refine/Bind.antt =====
-- lo_bind and lo_unbind of src/loopback.c as steps on mailboxes.
use esp_smoltcp.Common.{
  ℕ, zero, suc, ◌≡◌, ◌≢◌, refl, sym, ap, ◌∙◌, true, ◌&&◌, Option, none, some, List, [], ◌∷◌,
  if◌then◌else◌, ◌==◌, arith, get_elem?, modify, Bool-cases, Option-cases, inl, inr,
}
use esp_smoltcp.Compat.State.{Msg, Entry, Slot}
use esp_smoltcp.Compat.Env.{Env, State}
use esp_smoltcp.Compat.Loopback.{
  lo_bind, bound, lo_unbind, find_target, bind_slots, unbind_slots, drain_entry,
}
use esp_smoltcp.Compat.Loopback.Slots.{
  Distinct, bind_slots-Distinct, unbind_slots-Distinct, find_target-bind_slots,
  find_target-unbind_slots, bind_slots_full,
}
use esp_smoltcp.Compat.Loopback.Datagrams.{drain_empties}
use esp_smoltcp.Compat.Loopback.Mailboxes.{
  Mail, claim, disclaim, put_box, opened, emptied, claims, opens, not_bound,
}
use esp_smoltcp.Compat.Loopback.Refine.{box_of, box_at, Shows, Refines, bind_event, box_at-modify}

module _ (env : Env) where
  open env use {config, queue, Queue, Net, contents}

  -- Writing an entry that is not there changes nothing.
  modify-none :
      (t : List (Entry Queue)) (e : ℕ) (f : Entry Queue → Entry Queue)
      → get_elem? t e ≡ none
      → modify t e f ≡ t
  modify-none [] e f h = refl
  modify-none (x ∷ xs) zero f h = absurd (ground arith)
  modify-none (x ∷ xs) (suc e) f h = ap (λ l. x ∷ l) (modify-none xs e f h)

  -- Draining an entry empties its box.
  box_of-drain_entry : (r : Entry Queue) → box_of env (drain_entry queue r) ≡ emptied (box_of env r)
  unfolding drain_entry
  box_of-drain_entry r = elim (Option-cases r.lo_rx) [
    | inl x ↦ rw x refl
    | inr (q, x) ↦ rw x (rw (drain_empties queue q) refl)
  ]

  box_at-drain :
      (t : List (Entry Queue)) (e j : ℕ)
      → box_at env j (modify t e (drain_entry queue))
        ≡ (if e == j then emptied (box_at env e t) else box_at env j t)
  box_at-drain t e j = elim (Option-cases (get_elem? t e)) [
    | inl g ↦ rw (modify-none t e (drain_entry queue) g) (ground (arith, g))
    | inr (r, g) ↦
        box_at-modify env t e j r (drain_entry queue) g
        ∙ ap (λ b. if e == j then b else box_at env j t)
            (box_of-drain_entry r ∙ ap emptied (rw (g, box_at) refl))
  ]

  -- A state and a mail that agree in other words.
  Shows-put_box :
      (s : State env) (m : Mail) (slots : List Slot) (table : List (Entry Queue))
      (owner : ℕ → Option ℕ) (e : ℕ) (b c : Option (List Msg))
      → Shows env s m
      → Distinct slots
      → ((p : ℕ) → p ≢ 0 → find_target p slots ≡ owner p)
      → ((j : ℕ) → box_at env j table ≡ (if e == j then b else box_at env j s.table))
      → b ≡ c
      → Shows env
          (record s { slots = slots; table = table })
          (put_box e c (record { owner = owner; box = m.box }))
  Shows-put_box s m slots table owner e b c v d o x same = record {
    distinct = d;
    owner = o;
    box = λ j. x j ∙ rw same (ap (λ y. if e == j then c else y) (v.box j));
  }

  pub unbind_refines :
      (s : State env) (m : Mail) (port e : ℕ)
      → Shows env s m
      → Shows env (lo_unbind queue port e s) (put_box e (emptied (m.box e)) (disclaim port e m))
  unfolding lo_unbind
  unbind_refines s m port e v =
      Shows-put_box s m (unbind_slots port e s.slots) (modify s.table e (drain_entry queue))
        (disclaim port e m).owner e (emptied (box_at env e s.table)) (emptied (m.box e)) v
        (unbind_slots-Distinct port e s.slots v.distinct)
        (λ p n.
          find_target-unbind_slots port e p s.slots n v.distinct
          ∙ ap (λ o. elim o [ none ↦ none | some t ↦ if port == p && t == e then none else some t ])
              (v.owner p n))
        (λ j. box_at-drain s.table e j) (ap emptied (v.box e))

  bound-Refines :
      (s : State env) (m : Mail) (port e : ℕ) (r : Entry Queue) (q : Queue)
      → port ≢ 0
      → get_elem? s.table e ≡ some r
      → opened (box_of env r) ≡ some (contents q)
      → Shows env s m
      → Refines env m (bind_event env port e (bind_slots port e s.slots).0) (bound queue port e q s)
  bound-Refines s m port e r q n g same v =
      let put : Entry Queue → Entry Queue = λ x. record x { lo_rx = some q; loopback = true } in
      let now : some (contents q) ≡ opened (m.box e) = sym same ∙ ground (arith, g, v.box e) in
      let boxes = λ (j : ℕ). box_at-modify env s.table e j r put g in
      elim (bind_slots_full port e s.slots) [
        | inl took ↦ rw took (
          put_box e (opened (m.box e)) (claim port e m),
          claims port e n,
          Shows-put_box s m (bind_slots port e s.slots).1 (modify s.table e put)
              (claim port e m).owner e (some (contents q)) (opened (m.box e)) v
              (bind_slots-Distinct port e s.slots v.distinct)
              (λ p np.
                find_target-bind_slots port e p s.slots np took
                ∙ ap (λ o. if port == p then some e else o) (v.owner p np))
              boxes now,
        )
        | inr (full, a, b) ↦ rw full (
          put_box e (opened (m.box e)) m,
          opens e,
          Shows-put_box s m s.slots (modify s.table e put) m.owner e (some (contents q))
              (opened (m.box e)) v v.distinct v.owner boxes now,
        )
      ]

  pub bind-Refines :
      (s : State env) (m : Mail) (port e : ℕ) (created : Option Queue)
      → ((q : Queue) → created ≡ some q → contents q ≡ [])
      → Shows env s m
      → Refines env m
          (bind_event env port e (lo_bind queue port (some e) created s).0)
          (lo_bind queue port (some e) created s).1
  unfolding lo_bind
  bind-Refines s m port e created new v = elim (Bool-cases (port == 0)) [
    | inl z ↦ rw (z, lo_bind) (m, not_bound e, v)
    | inr n ↦ elim (Option-cases (get_elem? s.table e)) [
      | inl g ↦ rw (n, g, lo_bind) (m, not_bound e, v)
      | inr (r, g) ↦ elim (Option-cases r.lo_rx) [
        | inr (q, x) ↦
            rw (n, g, lo_bind)
              (rw x (bound-Refines s m port e r q (ground arith) g (ground (arith, x)) v))
        | inl x ↦ elim (Option-cases created) [
          | inl c ↦ rw (n, g, lo_bind) (rw (x, c) (m, not_bound e, v))
          | inr (q, c) ↦
              rw (n, g, lo_bind)
                (rw (x, c)
                  (bound-Refines s m port e r q (ground arith) g (ground (arith, x, new q c)) v))
        ]
      ]
    ]
  ]
