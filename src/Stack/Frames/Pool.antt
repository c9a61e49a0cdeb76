-- ===== src/Stack/Frames/Pool.antt =====
-- The frame pool of src/esp_smoltcp.c when it is new, and what an allocation leaves of its room.
use esp_smoltcp.Common.{
  ℕ, zero, suc, ◌+◌, ◌≤◌, ◌≡◌, refl, Option, none, some, List, [], ◌∷◌, if◌then◌else◌, ltb, leb,
  ◌&&◌, arith, length, length-append, ap, inl, inr, Option-cases,
}
use esp_smoltcp.Stack.State.{Iface}
use esp_smoltcp.Stack.Glue.{Base, State}
use esp_smoltcp.Stack.Frames.{net_frame_alloc, fill, frame_pool_init}
use esp_smoltcp.Stack.Frames.Owned.{
  count, count-append, receive_inv, rx_count, rx_length, owned, Fits,
}

-- Whether `p` is one of the `k` numbers from `i` on.
abbrev pub within : ℕ → ℕ → ℕ → ℕ
within i k p = if leb i p && ltb p (i + k) then 1 else 0

-- How many frames are elsewhere after an allocation, if there were `k` before.
abbrev pub taken : Option ℕ → ℕ → ℕ
taken none k = k
taken (some a) k = suc k

module _ (base : Base) where
  open base use {Queue, contents, capacity, send_room, capacity_send, receive}

  fill_adds :
      (i k : ℕ) (q : Queue)
      → length (contents q) + k ≤ capacity q
      → (capacity (fill base i k q) ≡ capacity q)
        × (length (contents (fill base i k q)) ≡ length (contents q) + k)
        × ((p : ℕ) → count p (contents (fill base i k q)) ≡ count p (contents q) + within i k p)
  unfolding fill
  fill_adds i zero q h = (refl, omega arith, λ p. ground arith)
  fill_adds i (suc k) q h =
      let (sent, put) = send_room i q (omega arith) in
      let len = ap length put in
      let more = length-append (contents q) (i ∷ []) in
      let room = capacity_send i q in
      let (a, b, c) = fill_adds (suc i) k (base.send i q).1 (omega arith) in
      (
        omega arith,
        omega arith,
        λ p. ground (arith, c p, ap (count p) put, count-append p (contents q) (i ∷ [])),
      )

  rx_count_none : (p : ℕ) (xs : List (Iface Queue)) → rx_length base xs ≡ 0 → rx_count base p xs ≡ 0
  rx_count_none p [] h = refl
  rx_count_none p (x ∷ xs) h =
      let e : length (contents x.rx_queue) ≡ 0 = omega arith in
      let n = none_of (contents x.rx_queue) e in omega (arith, rx_count_none p xs)
    where
      none_of : (ys : List ℕ) → length ys ≡ 0 → count p ys ≡ 0
      none_of [] e = refl
      none_of (y ∷ ys) e = absurd (omega arith)

  -- After frame_pool_init the pool has each of its frames once, and no room for another.
  pub frame_pool_init_lem :
      (n : ℕ) (created : Queue) (s : State base)
      → contents created ≡ []
      → capacity created ≡ n
      → rx_length base s.ifaces ≡ 0
      → Fits base 0 0 (frame_pool_init base n created s)
        × ((p : ℕ) → owned base p (frame_pool_init base n created s) ≡ (if ltb p n then 1 else 0))
  unfolding frame_pool_init
  frame_pool_init_lem n created s e c none_waits =
      let len = ap length e in
      let (a, b, f) = fill_adds 0 n created (omega arith) in
      (omega arith, λ p. ground (arith, f p, ap (count p) e, rx_count_none p s.ifaces none_waits))

  -- An allocation takes one frame, or it leaves the pool as it is.
  pub net_frame_alloc-Fits :
      (len k spare : ℕ) (s : State base)
      → Fits base spare k s
      → let (f, t) = net_frame_alloc base len s in Fits base spare (taken f k) t
  unfolding net_frame_alloc
  net_frame_alloc-Fits len k spare s v = elim (Option-cases s.free_q) [
    | inl e ↦ absurd (ground arith)
    | inr (q, e) ↦ elim (Option-cases (receive q)) [
      | inl r ↦ ground arith
      | inr ((a, q'), r) ↦
          let (front, cap') = receive_inv base q q' a r in ground (arith, ap length front)
    ]
  ]
