-- ===== src/Stack/Run/Liveness.antt =====
-- A round of the poll task of src/esp_smoltcp.c gives allocations their frames back.
use esp_smoltcp.Common.{
  ℕ, zero, suc, ◌+◌, ◌≤◌, ◌<◌, ◌≡◌, ◌≢◌, refl, some, List, [], ◌∷◌, if◌then◌else◌, ◌==◌, ==_eq,
  arith, true, length, ap, inl, inr, Option-cases, Bool-cases, get_elem?, ltb, leb, ◌&&◌,
}
use esp_smoltcp.Types.{iface_max}
use esp_smoltcp.Stack.State.{Iface}
use esp_smoltcp.Stack.Glue.{Base, State}
use esp_smoltcp.Stack.Frames.{net_frame_alloc, net_frame_buf, frame_pool_init}
use esp_smoltcp.Stack.Frames.Owned.{count, rx_count, rx_length, owned}
use esp_smoltcp.Stack.Iface.{register_event_cb}
use esp_smoltcp.Stack.Round.{poll_enabled, poll_all, task_round}
use esp_smoltcp.Stack.Run.{
  System, Step, Reach, here, later, allocate, refuse, write, give_back, post, eth_input, eth_link,
  poll, transmit, inject, tap, register, attach, core,
}
use esp_smoltcp.Stack.Run.Conserve.{started, frames_conserved}
use esp_smoltcp.Stack.Run.Queues.{
  items_at, on_at, Awake, SameQueues-Awake, glue_tx_cb-SameQueues, eth_event-SameQueues,
  l2_send-ifaces, net_frame_alloc-ifaces, net_frame_free-ifaces, post_rx-Awake, eth_input_cb-Awake,
  attach_eth-Awake,
}
use esp_smoltcp.Stack.Run.Recover.{poll_iface-Awake, poll_iface-Emptied, Emptied}

abbrev without : ℕ → List ℕ → List ℕ
without m [] = []
without m (x ∷ xs) = if x == m then without m xs else x ∷ without m xs

length-without : (m : ℕ) (xs : List ℕ) → length (without m xs) + count m xs ≡ length xs
length-without m [] = refl
length-without m (x ∷ xs) = ground (arith, length-without m xs)

count-without : (m p : ℕ) (xs : List ℕ) → p ≢ m → count p (without m xs) ≡ count p xs
count-without m p [] h = refl
count-without m p (x ∷ xs) h = ground (arith, count-without m p xs)

-- A list shorter than `n` misses a number below `n`.
pigeonhole : (n : ℕ) (xs : List ℕ) → length xs < n → (p : ℕ) × (p < n) × (count p xs ≡ 0)
pigeonhole zero xs h = absurd (omega arith)
pigeonhole (suc n) xs h = elim (Bool-cases (count n xs == 0)) [
  | inl missing ↦ (n, omega arith, ==_eq (count n xs) 0 missing)
  | inr there ↦
      let (p, small, c) = pigeonhole n (without n xs) (ground (arith, length-without n xs)) in
      (p, omega arith, omega (arith, count-without n p xs (omega arith)))
]

module _ (base : Base) where
  open base use {Queue, World, contents, receive, receive_cons}

  Step-Awake :
      {s t : System base} → Step base s t → Awake base s.stack.ifaces → Awake base t.stack.ifaces
  Step-Awake {s} (allocate len f t e) v =
      let same = net_frame_alloc-ifaces base len s.stack in
      let z : t.ifaces ≡ s.stack.ifaces = ground (arith, same) in rw z v
  Step-Awake {s} (refuse len t e) v =
      let same = net_frame_alloc-ifaces base len s.stack in
      let z : t.ifaces ≡ s.stack.ifaces = ground (arith, same) in rw z v
  Step-Awake (write f g h) v = v
  Step-Awake {s} (give_back f h) v = rw (net_frame_free-ifaces base f s.stack) v
  Step-Awake {s} (post i f h) v = post_rx-Awake base i f s.stack v
  Step-Awake {s} (eth_input buf) v = eth_input_cb-Awake base buf s.stack v
  Step-Awake {s} (eth_link e) v =
      SameQueues-Awake base s.stack.ifaces _ (eth_event-SameQueues base e s.stack) v
  Step-Awake {s} (poll fuel i) v = poll_iface-Awake base fuel i s.stack v
  Step-Awake {s} (transmit i frame) v =
      SameQueues-Awake base s.stack.ifaces _ (glue_tx_cb-SameQueues base i frame s.stack) v
  Step-Awake {s} (inject i frame) v = rw (l2_send-ifaces base i frame s.stack) v
  Step-Awake (tap et cb user) v = v
  Step-Awake (register cb user) v = unfold register_event_cb in v
  Step-Awake {s} (attach has_handle d) v = attach_eth-Awake base has_handle d s.stack v
  Step-Awake (core w) v = v

  Reach-Awake :
      {s t : System base} → Reach base s t → Awake base s.stack.ifaces → Awake base t.stack.ifaces
  Reach-Awake here v = v
  Reach-Awake (later r st) v = Step-Awake st (Reach-Awake r v)

  poll_enabled-Emptied :
      (fuel i : ℕ) (s : State base)
      → Awake base s.ifaces
      → length (items_at base i s.ifaces) < fuel
      → Emptied base i s.ifaces (poll_enabled base fuel i s).ifaces
  unfolding poll_enabled
  poll_enabled-Emptied fuel i s v h j =
      let ran = poll_iface-Emptied base fuel i s h j in
      let idle = v.idle i in
      let same : i == j ≡ true → i ≡ j = ==_eq i j in
      elim (Option-cases (get_elem? s.ifaces i)) [
        | inl e ↦ elim (Bool-cases (i == j)) [
          | inl z ↦ let k = same z in rw (e, poll_enabled) (ground arith)
          | inr z ↦ rw (e, poll_enabled) (ground arith)
        ]
        | inr (x, e) ↦ elim (Bool-cases x.enabled) [
          | inl on ↦ rw (e, poll_enabled) (rw (on, poll_enabled) ran)
          | inr off ↦ elim (Bool-cases (i == j)) [
            | inl z ↦ let k = same z in rw (e, poll_enabled) (rw (off, poll_enabled) (ground arith))
            | inr z ↦ rw (e, poll_enabled) (rw (off, poll_enabled) (ground arith))
          ]
        ]
      ]

  poll_enabled-Awake :
      (fuel i : ℕ) (s : State base)
      → Awake base s.ifaces
      → Awake base (poll_enabled base fuel i s).ifaces
  unfolding poll_enabled
  poll_enabled-Awake fuel i s v = elim (Option-cases (get_elem? s.ifaces i)) [
    | inl e ↦ rw (e, poll_enabled) v
    | inr (x, e) ↦ elim (Bool-cases x.enabled) [
      | inl on ↦ rw (e, poll_enabled) (rw (on, poll_enabled) (poll_iface-Awake base fuel i s v))
      | inr off ↦ rw (e, poll_enabled) (rw (off, poll_enabled) v)
    ]
  ]

  poll_all-Emptied :
      (fuel i k : ℕ) (s : State base)
      → Awake base s.ifaces
      → ((j : ℕ) → length (items_at base j s.ifaces) < fuel)
      → (j : ℕ)
      → (items_at base j (poll_all base fuel i k s).ifaces
          ≡ (if leb i j && ltb j (i + k) then [] else items_at base j s.ifaces))
        × (on_at base j (poll_all base fuel i k s).ifaces ≡ on_at base j s.ifaces)
  unfolding poll_all
  poll_all-Emptied fuel i zero s v h j = ground arith
  poll_all-Emptied fuel i (suc k) s v h j =
      let t = poll_enabled base fuel i s in
      let first = poll_enabled-Emptied fuel i s v (h i) in
      let one = first j in
      let few : (m : ℕ) → length (items_at base m t.ifaces) < fuel =
        λ m. ground (arith, first m, h m, h i) in
      let more = poll_all-Emptied fuel (suc i) k t (poll_enabled-Awake fuel i s v) few j in
      let eq : i == j ≡ true → i ≡ j = ==_eq i j in ground (arith, one, more, eq)

  -- The polls of the round as steps.
  poll_all-Reach :
      (fuel i k : ℕ) {s : System base} (t : System base)
      → Reach base s t
      → Reach base s (record { stack = poll_all base fuel i k t.stack; held = t.held })
  unfolding poll_all poll_enabled
  poll_all-Reach fuel i zero t r = r
  poll_all-Reach fuel i (suc k) t r =
      poll_all-Reach fuel (suc i) k _ (elim (Option-cases (get_elem? t.stack.ifaces i)) [
        | inl e ↦ rw (e, poll_enabled) r
        | inr (x, e) ↦ elim (Bool-cases x.enabled) [
          | inl on ↦ rw (e, poll_enabled) (rw (on, poll_enabled) (later r (poll fuel i)))
          | inr off ↦ rw (e, poll_enabled) (rw (off, poll_enabled) r)
        ]
      ])

  items_at-short :
      (xs : List (Iface Queue)) (j : ℕ) → length (items_at base j xs) ≤ rx_length base xs
  items_at-short [] j = omega arith
  items_at-short (x ∷ xs) zero = omega arith
  items_at-short (x ∷ xs) (suc j) = omega (arith, items_at-short xs j)

  rx_count_empty :
      (p : ℕ) (xs : List (Iface Queue))
      → ((j : ℕ) → items_at base j xs ≡ [])
      → rx_count base p xs ≡ 0
  rx_count_empty p [] h = refl
  rx_count_empty p (x ∷ xs) h =
      let first = h 0 in ground (arith, ap (count p) first, rx_count_empty p xs (λ j. h (suc j)))

  alloc_succeeds :
      (p len : ℕ) (s : State base)
      → owned base p s ≢ 0
      → rx_count base p s.ifaces ≡ 0
      → len ≤ net_frame_buf
      → (f : ℕ) × (u : State base) × (net_frame_alloc base len s ≡ (some f, u))
  unfolding net_frame_alloc
  alloc_succeeds p len s o c h = elim (Option-cases s.free_q) [
    | inl e ↦ absurd (ground arith)
    | inr (q, e) ↦ at_queue q e (contents q) refl
  ]
    where
      at_queue :
          (q : Queue)
          → s.free_q ≡ some q
          → (xs : List ℕ) → contents q ≡ xs
          → (f : ℕ) × (u : State base) × (net_frame_alloc base len s ≡ (some f, u))
      at_queue q e [] k = absurd (ground (arith, ap (count p) k))
      at_queue q e (x ∷ xs) k =
          let (q', r, rest, room) = receive_cons q x xs k in
          (x, (net_frame_alloc base len s).1, ground (arith, r))

-- Start with a pool of `n` frames that are all free, with no frame in a receive queue and only
-- interfaces below NET_IFACE_MAX enabled. Whatever calls are then made: if the drivers hold fewer
-- than `n` frames, then after one round of the poll task, with more fuel than frames that wait, an
-- allocation for a frame that fits the buffer succeeds.
pub task_round_frees :
    (base : Base) (n len fuel : ℕ) (created : base.Queue) (s : State base) (t : System base)
    → base.contents created ≡ []
    → base.capacity created ≡ n
    → rx_length base s.ifaces ≡ 0
    → Awake base s.ifaces
    → Reach base (started base n created s) t
    → length t.held < n
    → rx_length base t.stack.ifaces < fuel
    → len ≤ net_frame_buf
    → (f : ℕ) × (u : State base) × (net_frame_alloc base len (task_round base fuel t.stack).1
        ≡ (some f, u))
unfolding task_round frame_pool_init
task_round_frees base n len fuel created s t e c h v r few enough fits =
    let w : System base = record {
      stack = poll_all base fuel 0 iface_max t.stack;
      held = t.held;
    } in
    let awake : Awake base t.stack.ifaces = Reach-Awake base r v in
    let short : (j : ℕ) → length (items_at base j t.stack.ifaces) < fuel =
      λ j. omega (arith, items_at-short base t.stack.ifaces j) in
    let empty : (j : ℕ) → items_at base j w.stack.ifaces ≡ [] = λ j. ground (
      arith,
      poll_all-Emptied base fuel 0 iface_max t.stack awake short j,
      awake.few j,
      awake.idle j,
    ) in
    let (p, small, missing) = pigeonhole n t.held few in
    let there =
      frames_conserved base n p created s w e c h (poll_all-Reach base fuel 0 iface_max t r) in
    let none_waits = rx_count_empty base p w.stack.ifaces empty in
    alloc_succeeds base p len w.stack (ground arith) none_waits fits
