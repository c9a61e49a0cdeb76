-- ===== src/Stack/Iface/Receive.antt =====
-- The receive path of src/esp_smoltcp.c: net_stack_post_rx keeps each frame in one place.
use esp_smoltcp.Common.{
  ℕ, zero, suc, ◌+◌, ◌≡◌, refl, some, List, [], ◌∷◌, ◌++◌, if◌then◌else◌, arith, length,
  length-append, modify, get_elem?, ap, inl, inr, ◌⊎◌, Option-cases, Bool-cases, true, false, ltb,
  get_elem?-modify_self,
}
use esp_smoltcp.Stack.State.{Iface, put_iface}
use esp_smoltcp.Stack.Glue.{Base, State}
use esp_smoltcp.Stack.Frames.{net_frame_free, bump}
use esp_smoltcp.Stack.Frames.Owned.{
  count, count-append, owned, one_if, Fits, rx_count, rx_length, rx_count-modify, rx_length-modify,
  owned-net_frame_free,
}
use esp_smoltcp.Stack.Iface.{post_rx, enqueue_rx, counted, kick_poll, frame_len, add_bytes}

module _ (base : Base) where
  open base use {
    Queue, World, contents, capacity, send, receive, send_room, send_full, capacity_send,
  }

  -- Either the queue takes the pointer at its end, or it is full and stays as it was.
  pub send_cases :
      (f : ℕ) (q : Queue)
      → (((send f q).0 ≡ true) × (contents (send f q).1 ≡ contents q ++ f ∷ []))
        ⊎ (((send f q).0 ≡ false) × (contents (send f q).1 ≡ contents q))
  send_cases f q = elim (Bool-cases (ltb (length (contents q)) (capacity q))) [
    | inl h ↦ inl (send_room f q (ground arith))
    | inr h ↦ inr (send_full f q (ground arith))
  ]

  owned-enqueue_rx :
      (p i f k spare : ℕ) (s : State base) (x : Iface Queue)
      → get_elem? s.ifaces i ≡ some x
      → Fits base spare (suc k) s
      → (owned base p (enqueue_rx base i f x.rx_queue s) ≡ owned base p s + one_if base f p)
        × Fits base spare k (enqueue_rx base i f x.rx_queue s)
  unfolding enqueue_rx kick_poll
  owned-enqueue_rx p i f k spare s x g v = elim (send_cases f x.rx_queue) [
    | inl (t, c) ↦ ground (
      arith,
      ap (count p) c,
      ap length c,
      count-append p (contents x.rx_queue) (f ∷ []),
      length-append (contents x.rx_queue) (f ∷ []),
      rx_count-modify base p s.ifaces i
          (λ (y : Iface Queue). record y { rx_queue = (send f x.rx_queue).1 }) x,
      rx_length-modify base s.ifaces i
          (λ (y : Iface Queue). record y { rx_queue = (send f x.rx_queue).1 }) x,
    )
    | inr (t, c) ↦
        let full : Iface Queue → Iface Queue =
          λ y. record y { rx_queue = (send f x.rx_queue).1; rx_drops = bump y.rx_drops } in
        ground (
          arith,
          ap (count p) c,
          ap length c,
          rx_count-modify base p s.ifaces i full x,
          rx_length-modify base s.ifaces i full x,
          owned-net_frame_free base p f k spare (put_iface i full s),
        )
  ]

  -- A change of other fields leaves the frames where they are.
  pub rx_same-modify :
      (p : ℕ) (h : Iface Queue → Iface Queue)
      → ((y : Iface Queue) → (h y).rx_queue ≡ y.rx_queue)
      → (xs : List (Iface Queue)) (i : ℕ)
      → (rx_count base p (modify xs i h) ≡ rx_count base p xs)
        × (rx_length base (modify xs i h) ≡ rx_length base xs)
  rx_same-modify p h k [] i = (refl, refl)
  rx_same-modify p h k (x ∷ xs) zero = rw (k x) (refl, refl)
  rx_same-modify p h k (x ∷ xs) (suc i) = omega (arith, rx_same-modify p h k xs i)

  -- If the free queue has room for the frames that wait, for `k` others and for exactly one and
  -- `spare` more: whatever becomes of a received frame (queued, dropped on a full queue, refused for
  -- an unknown or disabled interface), afterwards the pool has it exactly once more than before, in
  -- the free queue or in a receive queue, no other frame is moved in or out, and the room beyond the
  -- frames that wait and the `k` others is `spare`.
  pub owned-post_rx :
      (p i f k spare : ℕ) (s : State base)
      → Fits base spare (suc k) s
      → (owned base p (post_rx base i f s) ≡ owned base p s + one_if base f p)
        × Fits base spare k (post_rx base i f s)
  unfolding post_rx
  owned-post_rx p i f k spare s v = elim (Option-cases (get_elem? s.ifaces i)) [
    | inl e ↦ rw (e, post_rx) (owned-net_frame_free base p f k spare s v)
    | inr (x, e) ↦ elim (Bool-cases x.enabled) [
      | inl on ↦
          let count_in : Iface Queue → Iface Queue = counted base (frame_len base f s) in
          ground (
            arith,
            rx_same-modify p count_in (λ y. refl) s.ifaces i,
            owned-enqueue_rx p i f k spare (put_iface i count_in s) (count_in x),
            get_elem?-modify_self s.ifaces i count_in x,
          )
      | inr off ↦ ground (arith, owned-net_frame_free base p f k spare s v)
    ]
  ]

  -- The interface after a frame at `f`, whose length is `len`, was posted to it.
  abbrev pub posted : ℕ → ℕ → Iface Queue → Iface Queue
  posted f len x = record x {
    rx_frames = bump x.rx_frames;
    rx_bytes = add_bytes x.rx_bytes len;
    rx_drops = if (send f x.rx_queue).0 then x.rx_drops else bump x.rx_drops;
    rx_queue = (send f x.rx_queue).1;
  }

  -- On an enabled interface a posted frame is counted with its length, and it is either at the end
  -- of the receive queue or counted as dropped, with the queue as it was.
  pub post_rx_counts :
      (i f : ℕ) (s : State base) (x : Iface Queue)
      → get_elem? s.ifaces i ≡ some x
      → x.enabled ≡ true
      → let y = posted f (frame_len base f s) x in
        (get_elem? (post_rx base i f s).ifaces i ≡ some y)
        × (((contents y.rx_queue ≡ contents x.rx_queue ++ f ∷ []) × (y.rx_drops ≡ x.rx_drops))
            ⊎ ((contents y.rx_queue ≡ contents x.rx_queue) × (y.rx_drops ≡ bump x.rx_drops)))
  unfolding post_rx enqueue_rx kick_poll net_frame_free
  post_rx_counts i f s x g on =
      let count_in : Iface Queue → Iface Queue = counted base (frame_len base f s) in
      let queued : Iface Queue → Iface Queue = λ y. record y { rx_queue = (send f x.rx_queue).1 } in
      let full : Iface Queue → Iface Queue =
        λ y. record y { rx_queue = (send f x.rx_queue).1; rx_drops = bump y.rx_drops } in
      ground (
        arith,
        send_cases f x.rx_queue,
        get_elem?-modify_self s.ifaces i count_in x,
        get_elem?-modify_self (modify s.ifaces i count_in) i queued (count_in x),
        get_elem?-modify_self (modify s.ifaces i count_in) i full (count_in x),
      )
