-- ===== src/Core/Ctx/Sock/Table.antt =====
-- components/esp_smoltcp_glue/src/lib.rs: the ids of sockets.
use esp_smoltcp.Common.{
  ℕ, suc, ◌+◌, ◌≡◌, ◌≢◌, ◌<◌, ◌≤◌, ◌%◌, refl, ◌∙◌, ap, Bool-cases, Option-cases, inl, inr, none,
  some, List, [], ◌∷◌, ◌==◌, ne_==, ==_eq, ==_ne, arith,
}
use esp_smoltcp.Types.{u32_mod}
use esp_smoltcp.Core.Outcome.{value}
use esp_smoltcp.Core.Crate.{Crate, SocketKind, tcp_socket, tcp_kind, udp_kind}
use esp_smoltcp.Core.Ctx.{new_ctx}
use esp_smoltcp.Core.Ctx.Sock.{
  Ctx, get_handle, remove_handle, insert_handle, next_after, alloc_id, tcp_open, close_tcp,
  close_udp, on_socket, same_kind, forget, tcp_rx, tcp_tx,
}

module _ {A : Type 0} where
  pub get-remove_self : (id : ℕ) (m : List (ℕ × A)) → get_handle id (remove_handle id m) ≡ none
  unfolding get_handle remove_handle
  get-remove_self id [] = refl
  get-remove_self id ((k, h) ∷ m) = ground (arith, get-remove_self id m)

  get-remove_ne :
      (id j : ℕ) (m : List (ℕ × A)) → j ≢ id → get_handle j (remove_handle id m) ≡ get_handle j m
  unfolding get_handle remove_handle
  get-remove_ne id j [] ne = refl
  get-remove_ne id j ((k, h) ∷ m) ne = ground (arith, get-remove_ne id j m ne)

  get-insert_self :
      (id : ℕ) (h : A) (m : List (ℕ × A)) → get_handle id (insert_handle id h m) ≡ some h
  unfolding get_handle insert_handle
  get-insert_self id h m = ground arith

  get-insert_ne :
      (id j : ℕ) (h : A) (m : List (ℕ × A))
      → j ≢ id
      → get_handle j (insert_handle id h m) ≡ get_handle j m
  unfolding get_handle insert_handle
  get-insert_ne id j h m ne = ground (arith, get-remove_ne id j m ne)

module _ (crate : Crate) where
  -- The contexts after `n` sockets were opened, and any other calls.
  pub data Used : ℕ → Ctx crate → Type 0 where
    start : (id : ℕ) (mac : List ℕ) → Used 0 (new_ctx crate id mac)
    opened :
        (n : ℕ) (x : Ctx crate) (h : crate.Handle) (s : crate.Sockets)
        → Used n x
        → Used (suc n) (alloc_id crate h (record x { sockets = s })).1
    closed_tcp :
        (n id : ℕ) (x y : Ctx crate)
        → Used n x
        → close_tcp crate id (some x) ≡ value (tt, some y)
        → Used n y
    closed_udp :
        (n id : ℕ) (x y : Ctx crate)
        → Used n x
        → close_udp crate id (some x) ≡ value (tt, some y)
        → Used n y
    -- Any call that leaves the table of ids.
    kept :
        (n : ℕ) (x y : Ctx crate)
        → Used n x
        → y.handles ≡ x.handles
        → y.next_id ≡ x.next_id
        → Used n y

  -- The ids in use lie below the next one, which counts the sockets opened.
  record Counts (n : ℕ) (x : Ctx crate) : Type 0 where
    next : x.next_id ≡ suc n
    below : (id : ℕ) → suc n ≤ id → get_handle id x.handles ≡ none

  get-remove_none :
      {A : Type 0} (id j : ℕ) (m : List (ℕ × A))
      → get_handle j m ≡ none
      → get_handle j (remove_handle id m) ≡ none
  get-remove_none id j m h = elim (Bool-cases (j == id)) [
    | inl e ↦ rw (==_eq j id e) (get-remove_self id m)
    | inr e ↦ get-remove_ne id j m (==_ne j id e) ∙ h
  ]

  -- A call that closes a socket adds no id, and the id that it was given is free after it.
  pub record Closes (id : ℕ) (x y : Ctx crate) : Type 0 where
    pub same_next : y.next_id ≡ x.next_id
    pub gone : get_handle id y.handles ≡ none
    pub free : (j : ℕ) → get_handle j x.handles ≡ none → get_handle j y.handles ≡ none

  on_socket-Closes :
      (kind : SocketKind) (id : ℕ) (x y : Ctx crate)
      → on_socket crate kind id tt (forget crate id) (some x) ≡ value (tt, some y)
      → Closes id x y
  unfolding on_socket
  on_socket-Closes kind id x y e = elim (Option-cases (get_handle id x.handles)) [
    | inl g ↦
        let k : x ≡ y = ground (arith, e) in
        rw (← k) (record { same_next = refl; gone = g; free = λ j f. f })
    | inr (h, g) ↦ elim (Bool-cases (same_kind (crate.kind_of h x.sockets) kind)) [
      | inr b ↦ absurd (ground (arith, e))
      | inl b ↦
          let k : (forget crate id h x).1 ≡ y = ground (arith, e) in
          rw (← k) (record {
            same_next = refl;
            gone = get-remove_self id x.handles;
            free = λ j f. get-remove_none id j x.handles f;
          })
    ]
  ]

  next_after_small : (id : ℕ) → suc id < u32_mod → next_after id ≡ suc id
  unfolding next_after
  next_after_small id lt =
      let e : (id + 1) % u32_mod ≡ suc id = omega arith in
      rw (e, next_after) (rw (ne_== (suc id) 0 (λ z. absurd (omega arith))) refl)

  Closes-Counts : (n id : ℕ) (x y : Ctx crate) → Closes id x y → Counts n x → Counts n y
  Closes-Counts n id x y c k = record {
    next = c.same_next ∙ k.next;
    below = λ j h. c.free j (k.below j h);
  }

  Used-Counts : (n : ℕ) (x : Ctx crate) → Used n x → suc n < u32_mod → Counts n x
  unfolding new_ctx alloc_id close_tcp close_udp get_handle
  Used-Counts _ _ (start id mac) lt = record { next = refl; below = λ id h. refl }
  Used-Counts _ _ (opened n x h s u) lt =
      let k = Used-Counts n x u (omega arith) in
      record {
        next = ap next_after k.next ∙ next_after_small (suc n) (omega arith);
        below = λ id le.
            get-insert_ne x.next_id id h x.handles (λ e. absurd (omega (arith, k.next)))
            ∙ k.below id (omega arith);
      }
  Used-Counts _ _ (closed_tcp n id x y u e) lt =
      Closes-Counts n id x y (on_socket-Closes tcp_kind id x y e) (Used-Counts n x u lt)
  Used-Counts _ _ (closed_udp n id x y u e) lt =
      Closes-Counts n id x y (on_socket-Closes udp_kind id x y e) (Used-Counts n x u lt)
  Used-Counts _ _ (kept n x y u e f) lt =
      let k = Used-Counts n x u lt in
      record { next = f ∙ k.next; below = λ id h. rw e (k.below id h) }

  -- The socket that smoltcp_tcp_open adds gets an id that no open socket has, as long as fewer than
  -- 2^32 - 2 sockets were opened before: the id is not 0, it finds the new handle, and every other id
  -- finds what it found.
  pub tcp_open-Fresh :
      (n : ℕ) (x : Ctx crate)
      → Used n x
      → suc n < u32_mod
      → (id : ℕ) × (y : Ctx crate) × (tcp_open crate (some x) ≡ (id, some y))
        × (id ≢ 0)
        × (get_handle id x.handles ≡ none)
        × (get_handle id y.handles ≡ some (crate.add (tcp_socket tcp_rx tcp_tx) x.sockets).0)
        × ((j : ℕ) → j ≢ id → get_handle j y.handles ≡ get_handle j x.handles)
  unfolding tcp_open alloc_id
  tcp_open-Fresh n x u lt =
      let k = Used-Counts n x u lt in
      (
        x.next_id,
        _,
        refl,
        (λ e. absurd (omega (arith, k.next))),
        k.below x.next_id (omega (arith, k.next)),
        get-insert_self x.next_id _ x.handles,
        (λ j ne. get-insert_ne x.next_id j _ x.handles ne),
      )

  -- Once smoltcp_tcp_close returned, the id is that of no socket.
  pub close_tcp-Closes :
      (id : ℕ) (x y : Ctx crate) → close_tcp crate id (some x) ≡ value (tt, some y) → Closes id x y
  unfolding close_tcp
  close_tcp-Closes id x y e = on_socket-Closes tcp_kind id x y e
