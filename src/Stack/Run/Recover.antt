-- ===== src/Stack/Run/Recover.antt =====
-- A round of the poll task of src/esp_smoltcp.c empties the receive queues.
use esp_smoltcp.Common.{
  ℕ, zero, suc, ◌<◌, ◌≡◌, refl, some, List, [], ◌∷◌, if◌then◌else◌, ◌==◌, ==_eq, arith, true,
  length, inl, inr, Option-cases, Bool-cases, modify, get_elem?, get_elem?-modify_self,
  get_elem?-modify_ne, ◌∙◌,
}
use esp_smoltcp.Stack.State.{Iface, put_iface, put_world}
use esp_smoltcp.Stack.Glue.{Base, State}
use esp_smoltcp.Stack.Frames.{net_frame_free}
use esp_smoltcp.Stack.Frames.Owned.{receive_inv}
use esp_smoltcp.Stack.Iface.{glue_tx_cb, emit_event}
use esp_smoltcp.Stack.Task.{
  consume, take_frame, drain_rx, push_out, announce, report_ip, poll_core, poll_iface,
}
use esp_smoltcp.Stack.Run.Queues.{
  items_at, on_at, SameQueues, modify-SameQueues, glue_tx_cb-SameQueues, Awake, SameQueues-Awake,
  modify-Awake,
}

module _ (base : Base) where
  open base use {Queue, World, contents, receive, receive_nil, receive_cons, has_ip, iface_poll}

  push_out-SameQueues :
      (fs : List (ℕ × List ℕ)) (s : State base)
      → SameQueues base s.ifaces (push_out base fs s).ifaces
  unfolding push_out
  push_out-SameQueues [] s j = (refl, refl)
  push_out-SameQueues ((i, frame) ∷ fs) s j =
      let one = glue_tx_cb-SameQueues base i frame s j in
      let more = push_out-SameQueues fs (glue_tx_cb base i frame s).1 j in
      (more.0 ∙ one.0, more.1 ∙ one.1)

  report_ip-SameQueues :
      (i : ℕ) (x : Iface Queue) (s : State base)
      → SameQueues base s.ifaces (report_ip base i x s).ifaces
  unfolding report_ip announce emit_event
  report_ip-SameQueues i x s j =
      let told : Iface Queue → Iface Queue = λ y. record y { ip_up = has_ip x.handle s.world } in
      ground (arith, modify-SameQueues base told (λ y. (refl, refl)) s.ifaces i j)

  poll_core-SameQueues :
      (i : ℕ) (s : State base) → SameQueues base s.ifaces (poll_core base i s).ifaces
  unfolding poll_core
  poll_core-SameQueues i s j = elim (Option-cases (get_elem? s.ifaces i)) [
    | inl e ↦ rw (e, poll_core) (refl, refl)
    | inr (x, e) ↦
        let (out, w) = iface_poll x.handle s.world in
        let t : State base = put_world w s in
        let sent = push_out-SameQueues out t j in
        let told = report_ip-SameQueues i x (push_out base out t) j in
        rw (e, poll_core) (told.0 ∙ sent.0, told.1 ∙ sent.1)
  ]

  take_frame-ifaces :
      (x : Iface Queue) (p : ℕ) (s : State base) → (take_frame base x p s).ifaces ≡ s.ifaces
  unfolding take_frame consume net_frame_free
  take_frame-ifaces x p s = ground arith

  -- The interfaces once the front of the queue at `i` is taken.
  abbrev taken : Queue → Iface Queue → Iface Queue
  taken q y = record y { rx_queue = q }

  drain_rx-Awake :
      (n i : ℕ) (s : State base) → Awake base s.ifaces → Awake base (drain_rx base n i s).ifaces
  unfolding drain_rx
  drain_rx-Awake zero i s v = v
  drain_rx-Awake (suc n) i s v = elim (Option-cases (get_elem? s.ifaces i)) [
    | inl e ↦ rw (e, drain_rx) v
    | inr (x, e) ↦ elim (Option-cases (receive x.rx_queue)) [
      | inl r ↦ rw (e, drain_rx) (rw (r, drain_rx) v)
      | inr ((p, q), r) ↦
          let t : State base = put_iface i (taken q) s in
          let front = (receive_inv base x.rx_queue q p r).0 in
          let on : x.enabled ≡ true = elim (Bool-cases x.enabled) [
            | inl yes_on ↦ yes_on
            | inr off ↦ absurd (ground (arith, v.idle i, front))
          ] in
          let w = modify-Awake base (taken q) s.ifaces i x e on (inl on) v in
          rw (e, drain_rx)
            (rw (r, drain_rx)
              (drain_rx-Awake n i (take_frame base x p t) (rw (take_frame-ifaces x p t) w)))
    ]
  ]

  pub poll_iface-Awake :
      (fuel i : ℕ) (s : State base)
      → Awake base s.ifaces
      → Awake base (poll_iface base fuel i s).ifaces
  unfolding poll_iface
  poll_iface-Awake fuel i s v =
      let t = drain_rx base fuel i s in
      SameQueues-Awake base t.ifaces (poll_core base i t).ifaces (poll_core-SameQueues i t)
        (drain_rx-Awake fuel i s v)

  -- The queue at `i` is empty, all else is as before.
  abbrev pub Emptied : ℕ → List (Iface Queue) → List (Iface Queue) → Type 0
  Emptied i xs ys =
      (j : ℕ)
      → (items_at base j ys ≡ (if i == j then [] else items_at base j xs))
        × (on_at base j ys ≡ on_at base j xs)

  -- The two views after one frame is taken from the queue at `i`.
  taken-views :
      (i j : ℕ) (q : Queue) (x : Iface Queue) (xs : List (Iface Queue))
      → get_elem? xs i ≡ some x
      → (items_at base j (modify xs i (taken q))
          ≡ (if i == j then contents q else items_at base j xs))
        × (on_at base j (modify xs i (taken q)) ≡ on_at base j xs)
  taken-views i j q x xs e = elim (Bool-cases (i == j)) [
    | inl same ↦ let z = ==_eq i j same in ground (arith, get_elem?-modify_self xs i (taken q) x e)
    | inr other ↦ ground (arith, get_elem?-modify_ne xs i j (taken q))
  ]

  drain_rx-Emptied :
      (n i : ℕ) (ps : List ℕ) (s : State base)
      → items_at base i s.ifaces ≡ ps
      → length ps < n
      → Emptied i s.ifaces (drain_rx base n i s).ifaces
  unfolding drain_rx
  drain_rx-Emptied zero i ps s c h = absurd (omega arith)
  drain_rx-Emptied (suc n) i [] s c h = λ j.
      let empty : items_at base j s.ifaces ≡ (if i == j then [] else items_at base j s.ifaces) =
        elim (Bool-cases (i == j)) [
          | inl same ↦ let z = ==_eq i j same in rw same (ground arith)
          | inr other ↦ rw other refl
        ] in
      elim (Option-cases (get_elem? s.ifaces i)) [
        | inl e ↦ rw (e, drain_rx) (empty, refl)
        | inr (x, e) ↦
            let nil : contents x.rx_queue ≡ [] = ground arith in
            rw (e, drain_rx) (rw (receive_nil x.rx_queue nil, drain_rx) (empty, refl))
      ]
  drain_rx-Emptied (suc n) i (p ∷ ps) s c h = λ j. elim (Option-cases (get_elem? s.ifaces i)) [
    | inl e ↦ absurd (ground arith)
    | inr (x, e) ↦
        let front : contents x.rx_queue ≡ p ∷ ps = ground arith in
        let (q, r, rest, room) = receive_cons x.rx_queue p ps front in
        let t : State base = put_iface i (taken q) s in
        let same = take_frame-ifaces x p t in
        let here_ = taken-views i i q x s.ifaces e in
        let there = taken-views i j q x s.ifaces e in
        let left : items_at base i (take_frame base x p t).ifaces ≡ ps = rw same (ground arith) in
        let more = drain_rx-Emptied n i ps (take_frame base x p t) left (omega arith) j in
        rw (e, drain_rx) (rw (r, drain_rx) (ground (arith, more, same, there)))
  ]

  pub poll_iface-Emptied :
      (fuel i : ℕ) (s : State base)
      → length (items_at base i s.ifaces) < fuel
      → Emptied i s.ifaces (poll_iface base fuel i s).ifaces
  unfolding poll_iface
  poll_iface-Emptied fuel i s h j =
      let t = drain_rx base fuel i s in
      let drained = drain_rx-Emptied fuel i (items_at base i s.ifaces) s refl h j in
      let kept = poll_core-SameQueues i t j in (kept.0 ∙ drained.0, kept.1 ∙ drained.1)
