-- ===== src/Stack/Run/Queues.antt =====
-- The receive queues of src/esp_smoltcp.c over any calls: only an enabled interface has frames
-- waiting, so that a round of the poll task reaches them all.
use esp_smoltcp.Common.{
  ℕ, zero, suc, ◌≤◌, ◌<◌, ◌≡◌, refl, none, some, List, [], ◌∷◌, ◌==◌, ==_eq, arith, Bool, true,
  false, length, ap, inl, inr, Option-cases, Bool-cases, modify, get_elem?, get_elem?-modify_self,
  get_elem?-modify_ne, sym, ◌∙◌, ◌⊎◌,
}
use esp_smoltcp.Types.{iface_eth, iface_max}
use esp_smoltcp.Stack.State.{Iface, put_iface}
use esp_smoltcp.Stack.Glue.{Base, State}
use esp_smoltcp.Stack.Frames.{net_frame_alloc, net_frame_free, bump}
use esp_smoltcp.Stack.Iface.{
  EthEvent, connected, disconnected, other_event, eth_event, link_event, linked, kick_poll,
  emit_event, post_rx, enqueue_rx, counted, frame_len, eth_input_cb, glue_tx_cb, l2_send, copy_in,
  add_bytes,
}
use esp_smoltcp.Stack.Setup.{Driver, attach_eth, enabled_eth, bring_up, ptp_start}

module _ (base : Base) where
  open base use {Queue, World, contents, send}

  -- What waits on the interface `j`, and whether it is enabled.
  abbrev pub items_at : ℕ → List (Iface Queue) → List ℕ
  items_at j xs = elim (get_elem? xs j) [ none ↦ [] | some x ↦ contents x.rx_queue ]

  abbrev pub on_at : ℕ → List (Iface Queue) → Bool
  on_at j xs = elim (get_elem? xs j) [ none ↦ false | some x ↦ x.enabled ]

  -- The receive queues and the switches are the same.
  abbrev pub SameQueues : List (Iface Queue) → List (Iface Queue) → Type 0
  SameQueues xs ys = (j : ℕ) → (items_at j ys ≡ items_at j xs) × (on_at j ys ≡ on_at j xs)

  pub modify-SameQueues :
      (h : Iface Queue → Iface Queue)
      → ((y : Iface Queue) → ((h y).rx_queue ≡ y.rx_queue) × ((h y).enabled ≡ y.enabled))
      → (xs : List (Iface Queue)) (i : ℕ) → SameQueues xs (modify xs i h)
  modify-SameQueues h k [] i j = (refl, refl)
  modify-SameQueues h k (x ∷ xs) zero zero = (ap contents (k x).0, (k x).1)
  modify-SameQueues h k (x ∷ xs) zero (suc j) = (refl, refl)
  modify-SameQueues h k (x ∷ xs) (suc i) zero = (refl, refl)
  modify-SameQueues h k (x ∷ xs) (suc i) (suc j) = modify-SameQueues h k xs i j

  pub glue_tx_cb-SameQueues :
      (i : ℕ) (frame : List ℕ) (s : State base)
      → SameQueues s.ifaces (glue_tx_cb base i frame s).1.ifaces
  unfolding glue_tx_cb
  glue_tx_cb-SameQueues i frame s j =
      let sent : Iface Queue → Iface Queue = λ x. record x {
        tx_frames = bump x.tx_frames;
        tx_bytes = add_bytes x.tx_bytes (length frame);
      } in
      let failed : Iface Queue → Iface Queue = λ x. record x { tx_fails = bump x.tx_fails } in
      ground (
        arith,
        modify-SameQueues sent (λ y. (refl, refl)) s.ifaces i j,
        modify-SameQueues failed (λ y. (refl, refl)) s.ifaces i j,
      )

  link_event-SameQueues :
      (i : ℕ) (up : Bool) (s : State base) → SameQueues s.ifaces (link_event base i up s).ifaces
  unfolding link_event kick_poll emit_event
  link_event-SameQueues i up s j =
      ground (arith, modify-SameQueues (linked base up) (λ y. (refl, refl)) s.ifaces i j)

  pub eth_event-SameQueues :
      (e : EthEvent) (s : State base) → SameQueues s.ifaces (eth_event base e s).ifaces
  unfolding eth_event
  eth_event-SameQueues connected s = link_event-SameQueues iface_eth true s
  eth_event-SameQueues disconnected s = link_event-SameQueues iface_eth false s
  eth_event-SameQueues other_event s = λ j. (refl, refl)

  pub l2_send-ifaces :
      (i : ℕ) (frame : List ℕ) (s : State base) → (l2_send base i frame s).1.ifaces ≡ s.ifaces
  unfolding l2_send
  l2_send-ifaces i frame s = ground arith

  pub net_frame_alloc-ifaces :
      (len : ℕ) (s : State base) → (net_frame_alloc base len s).1.ifaces ≡ s.ifaces
  unfolding net_frame_alloc
  net_frame_alloc-ifaces len s = ground arith

  pub net_frame_free-ifaces :
      (f : ℕ) (s : State base) → (net_frame_free base (some f) s).ifaces ≡ s.ifaces
  unfolding net_frame_free
  net_frame_free-ifaces f s = ground arith

  -- Only enabled interfaces have frames waiting, and only those below NET_IFACE_MAX are enabled.
  pub record Awake (xs : List (Iface Queue)) : Type 0 where
    pub idle : (j : ℕ) → on_at j xs ≡ false → items_at j xs ≡ []
    pub few : (j : ℕ) → iface_max ≤ j → on_at j xs ≡ false

  pub SameQueues-Awake : (xs ys : List (Iface Queue)) → SameQueues xs ys → Awake xs → Awake ys
  SameQueues-Awake xs ys k v = record {
    idle = λ j e. (k j).0 ∙ v.idle j (sym (k j).1 ∙ e);
    few = λ j h. (k j).1 ∙ v.few j h;
  }

  -- A change at an enabled interface that leaves it enabled.
  pub modify-Awake :
      (h : Iface Queue → Iface Queue) (xs : List (Iface Queue)) (i : ℕ) (x : Iface Queue)
      → get_elem? xs i ≡ some x
      → (h x).enabled ≡ true
      → (x.enabled ≡ true) ⊎ (i < iface_max)
      → Awake xs
      → Awake (modify xs i h)
  modify-Awake h xs i x g on low v = record {
    idle = λ j e. elim (Bool-cases (i == j)) [
      | inl same ↦
          let z = ==_eq i j same in absurd (ground (arith, get_elem?-modify_self xs i h x g))
      | inr other ↦ ground (arith, get_elem?-modify_ne xs i j h, v.idle j)
    ];
    few = λ j m. elim (Bool-cases (i == j)) [
      | inl same ↦ let z = ==_eq i j same in absurd (ground (arith, v.few i))
      | inr other ↦ ground (arith, get_elem?-modify_ne xs i j h, v.few j)
    ];
  }

  enqueue_rx-Awake :
      (i f : ℕ) (q : Queue) (x : Iface Queue) (s : State base)
      → get_elem? s.ifaces i ≡ some x
      → x.enabled ≡ true
      → Awake s.ifaces
      → Awake (enqueue_rx base i f q s).ifaces
  unfolding enqueue_rx kick_poll
  enqueue_rx-Awake i f q x s e on v =
      let queued : Iface Queue → Iface Queue = λ y. record y { rx_queue = (send f q).1 } in
      let full : Iface Queue → Iface Queue =
        λ y. record y { rx_queue = (send f q).1; rx_drops = bump y.rx_drops } in
      elim (Bool-cases (send f q).0) [
        | inl sent ↦
            rw (sent, enqueue_rx)
              (let kept : (kick_poll base (put_iface i queued s)).ifaces
                    ≡ modify s.ifaces i queued =
                  ground arith in
                rw kept (modify-Awake queued s.ifaces i x e on (inl on) v))
        | inr refused ↦
            rw (refused, enqueue_rx)
              (rw (net_frame_free-ifaces f (put_iface i full s))
                (modify-Awake full s.ifaces i x e on (inl on) v))
      ]

  pub post_rx-Awake :
      (i f : ℕ) (s : State base) → Awake s.ifaces → Awake (post_rx base i f s).ifaces
  unfolding post_rx
  post_rx-Awake i f s v = elim (Option-cases (get_elem? s.ifaces i)) [
    | inl e ↦ rw (e, post_rx) (rw (net_frame_free-ifaces f s) v)
    | inr (x, e) ↦ elim (Bool-cases x.enabled) [
      | inr off ↦ rw (e, post_rx) (rw (off, post_rx) (rw (net_frame_free-ifaces f s) v))
      | inl on ↦
          let count_in : Iface Queue → Iface Queue = counted base (frame_len base f s) in
          let there = get_elem?-modify_self s.ifaces i count_in x e in
          let counts = modify-Awake count_in s.ifaces i x e on (inl on) v in
          rw (e, post_rx)
            (rw (on, post_rx)
              (enqueue_rx-Awake i f x.rx_queue (count_in x) (put_iface i count_in s) there on
                counts))
    ]
  ]

  pub eth_input_cb-Awake :
      (buf : List ℕ) (s : State base) → Awake s.ifaces → Awake (eth_input_cb base buf s).1.ifaces
  unfolding eth_input_cb
  eth_input_cb-Awake buf s v =
      let t = (net_frame_alloc base (length buf) s).1 in
      let same = net_frame_alloc-ifaces (length buf) s in
      elim (Option-cases (net_frame_alloc base (length buf) s).0) [
        | inl e ↦ rw (e, eth_input_cb) (rw same v)
        | inr (f, e) ↦
            let u : State base = record t { frames = modify t.frames f (copy_in base buf) } in
            let w : Awake t.ifaces = rw same v in
            rw (e, eth_input_cb) (post_rx-Awake iface_eth f u w)
      ]

  pub attach_eth-Awake :
      (has_handle : Bool) (d : Driver World) (s : State base)
      → Awake s.ifaces
      → Awake (attach_eth base has_handle d s).1.ifaces
  unfolding attach_eth bring_up ptp_start kick_poll
  attach_eth-Awake has_handle d s v = elim (Option-cases (get_elem? s.ifaces iface_eth)) [
    | inl e ↦ rw (e, attach_eth) v
    | inr (x, e) ↦
        let on : Iface Queue → Iface Queue = enabled_eth base in
        let named : Iface Queue → Iface Queue = λ y. record y { mac = d.mac } in
        let with_core : Iface Queue → Iface Queue =
          λ y. record y { handle = (d.iface_new d.mac s.world).0 } in
        let xs = modify s.ifaces 0 on in
        let ys = modify xs 0 named in
        let a = modify-Awake on s.ifaces 0 x e refl (inr (omega arith)) v in
        let b = SameQueues-Awake xs ys (modify-SameQueues named (λ y. (refl, refl)) xs 0) a in
        let c =
          SameQueues-Awake ys (modify ys 0 with_core)
            (modify-SameQueues with_core (λ y. (refl, refl)) ys 0) b in
        let r = (attach_eth base has_handle d s).1.ifaces in
        let stops : (r ≡ s.ifaces) ⊎ ((r ≡ xs) ⊎ ((r ≡ ys) ⊎ (r ≡ modify ys 0 with_core))) =
          ground arith in
        elim stops [
          | inl z ↦ rw z v
          | inr (inl z) ↦ rw z a
          | inr (inr (inl z)) ↦ rw z b
          | inr (inr (inr z)) ↦ rw z c
        ]
  ]
