-- ===== src/Stack/Frames/Owned.antt =====
-- Where the pool of src/esp_smoltcp.c has its frames: in the free queue or in a receive queue. A
-- frame in neither is in the hands of a driver or of the poll task.
use esp_smoltcp.Common.{
  ℕ, zero, suc, ◌+◌, ◌≡◌, refl, none, some, List, [], ◌∷◌, ◌++◌, if◌then◌else◌, ◌==◌, arith, length,
  length-append, modify, get_elem?, ap, inl, inr, Option-cases,
}
use esp_smoltcp.Stack.State.{Iface}
use esp_smoltcp.Stack.Glue.{Base, State}
use esp_smoltcp.Stack.Frames.{net_frame_alloc, net_frame_free}

-- How often a pointer is in a list.
abbrev pub count : ℕ → List ℕ → ℕ
count p [] = 0
count p (x ∷ xs) = (if x == p then 1 else 0) + count p xs

pub count-append : (p : ℕ) (xs ys : List ℕ) → count p (xs ++ ys) ≡ count p xs + count p ys
count-append p [] ys = omega arith
count-append p (x ∷ xs) ys = omega (arith, count-append p xs ys)

module _ (base : Base) where
  open base use {
    Queue, World, contents, capacity, send, receive, send_room, capacity_send, receive_nil,
    receive_cons,
  }

  receive_inv_at :
      (xs : List ℕ) (q q' : Queue) (a : ℕ)
      → contents q ≡ xs
      → receive q ≡ some (a, q')
      → (contents q ≡ a ∷ contents q') × (capacity q' ≡ capacity q)
  receive_inv_at [] q q' a e h = absurd (ground (arith, receive_nil q e))
  receive_inv_at (x ∷ xs) q q' a e h = ground (arith, receive_cons q x xs e)

  -- What xQueueReceive takes out is the front of the queue.
  pub receive_inv :
      (q q' : Queue) (a : ℕ)
      → receive q ≡ some (a, q')
      → (contents q ≡ a ∷ contents q') × (capacity q' ≡ capacity q)
  receive_inv q q' a h = receive_inv_at (contents q) q q' a refl h

  -- How often a pointer waits in the receive queues, and how many pointers wait there.
  abbrev pub rx_count : ℕ → List (Iface Queue) → ℕ
  rx_count p [] = 0
  rx_count p (x ∷ xs) = count p (contents x.rx_queue) + rx_count p xs

  abbrev pub rx_length : List (Iface Queue) → ℕ
  rx_length [] = 0
  rx_length (x ∷ xs) = length (contents x.rx_queue) + rx_length xs

  abbrev pub free_items : State base → List ℕ
  free_items s = elim s.free_q [ none ↦ [] | some q ↦ contents q ]

  abbrev pub owned : ℕ → State base → ℕ
  owned p s = count p (free_items s) + rx_count p s.ifaces

  -- With all frames that wait and `k` more, the free queue has room for exactly `spare` others.
  abbrev pub Fits : ℕ → ℕ → State base → Type 0
  Fits spare k s = elim s.free_q [
    | none ↦ ⊥
    | some q ↦ length (contents q) + rx_length s.ifaces + k + spare ≡ capacity q
  ]

  abbrev pub one_if : ℕ → ℕ → ℕ
  one_if f p = if f == p then 1 else 0

  pub rx_count-modify :
      (p : ℕ) (xs : List (Iface Queue)) (i : ℕ) (f : Iface Queue → Iface Queue) (x : Iface Queue)
      → get_elem? xs i ≡ some x
      → rx_count p (modify xs i f) + count p (contents x.rx_queue)
        ≡ rx_count p xs + count p (contents (f x).rx_queue)
  rx_count-modify p [] i f x h = absurd (ground arith)
  rx_count-modify p (y ∷ ys) zero f x h = ground arith
  rx_count-modify p (y ∷ ys) (suc i) f x h = omega (arith, rx_count-modify p ys i f x h)

  pub rx_length-modify :
      (xs : List (Iface Queue)) (i : ℕ) (f : Iface Queue → Iface Queue) (x : Iface Queue)
      → get_elem? xs i ≡ some x
      → rx_length (modify xs i f) + length (contents x.rx_queue)
        ≡ rx_length xs + length (contents (f x).rx_queue)
  rx_length-modify [] i f x h = absurd (ground arith)
  rx_length-modify (y ∷ ys) zero f x h = ground arith
  rx_length-modify (y ∷ ys) (suc i) f x h = omega (arith, rx_length-modify ys i f x h)

  -- An allocation takes exactly the frame that it returns out of the pool; one that fails takes
  -- none.
  pub owned-net_frame_alloc :
      (p len : ℕ) (s : State base)
      → let (f, t) = net_frame_alloc base len s in
        elim f [ none ↦ owned p t | some a ↦ owned p t + one_if a p ] ≡ owned p s
  unfolding net_frame_alloc
  owned-net_frame_alloc p len s = elim (Option-cases s.free_q) [
    | inl e ↦ ground arith
    | inr (q, e) ↦ elim (Option-cases (receive q)) [
      | inl r ↦ ground arith
      | inr ((a, q'), r) ↦ ground (arith, ap (count p) (receive_inv q q' a r).0)
    ]
  ]

  -- If the free queue has room for the frames that wait, for `k` others and for exactly one and
  -- `spare` more, a frame that is given back is in the pool exactly once more than before, no other
  -- frame is moved, and the room beyond the frames that wait and the `k` others is `spare`.
  pub owned-net_frame_free :
      (p f k spare : ℕ) (s : State base)
      → Fits spare (suc k) s
      → (owned p (net_frame_free base (some f) s) ≡ owned p s + one_if f p)
        × Fits spare k (net_frame_free base (some f) s)
  unfolding net_frame_free
  owned-net_frame_free p f k spare s v = elim (Option-cases s.free_q) [
    | inl e ↦ absurd (ground arith)
    | inr (q, e) ↦
        let room : length (contents q) + rx_length s.ifaces + suc k + spare ≡ capacity q =
          ground arith in
        let sent = (send_room f q (omega arith)).1 in
        ground (
          arith,
          ap (count p) sent,
          ap length sent,
          count-append p (contents q) (f ∷ []),
          length-append (contents q) (f ∷ []),
          capacity_send f q,
        )
  ]
