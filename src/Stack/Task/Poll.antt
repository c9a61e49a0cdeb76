-- ===== src/Stack/Task/Poll.antt =====
-- The rest of the poll task of src/esp_smoltcp.c: the frames stay where they are while the core is
-- polled, the IP state is reported when it changes, and the task sleeps until the soonest deadline.
use esp_smoltcp.Common.{
  ℕ, pos, negsuc, ◌≤◌, ◌≡◌, refl, none, some, List, [], ◌∷◌, if◌then◌else◌, arith, length,
  get_elem?, inl, inr, ◌⊎◌, Bool, true, false, Option-cases, get_elem?-modify_self,
  get_elem?-set_self, All, lt-length_of_some, ℤ-cases, Bool-cases,
}
use esp_smoltcp.Stack.State.{Iface, EventCall, Event, got_ip, lost_ip, put_world}
use esp_smoltcp.Stack.Glue.{Base, State}
use esp_smoltcp.Stack.Frames.Owned.{owned, Fits, rx_count, rx_length}
use esp_smoltcp.Stack.Iface.{emit_event, glue_tx_cb, add_bytes}
use esp_smoltcp.Stack.Frames.{bump}
use esp_smoltcp.Stack.Iface.Receive.{rx_same-modify}
use esp_smoltcp.Stack.Task.{
  push_out, announce, report_ip, poll_core, drain_rx, poll_iface, next_deadline,
}
use esp_smoltcp.Stack.Task.Drain.{owned-drain_rx}

module _ (base : Base) where
  open base use {Queue, World, transmit, has_ip, iface_poll, poll_delay_us}

  -- The frames of `t` are where those of `s` are.
  abbrev pub Keeps : ℕ → State base → State base → Type 0
  Keeps a s t =
      (t.free_q ≡ s.free_q)
      × (rx_count base a t.ifaces ≡ rx_count base a s.ifaces)
      × (rx_length base t.ifaces ≡ rx_length base s.ifaces)

  pub glue_tx_cb-Keeps :
      (a i : ℕ) (frame : List ℕ) (s : State base) → Keeps a s (glue_tx_cb base i frame s).1
  unfolding glue_tx_cb
  glue_tx_cb-Keeps a i frame s =
      let sent : Iface Queue → Iface Queue = λ x. record x {
        tx_frames = bump x.tx_frames;
        tx_bytes = add_bytes x.tx_bytes (length frame);
      } in
      let failed : Iface Queue → Iface Queue = λ x. record x { tx_fails = bump x.tx_fails } in
      ground (
        arith,
        rx_same-modify base a sent (λ y. refl) s.ifaces i,
        rx_same-modify base a failed (λ y. refl) s.ifaces i,
      )

  push_out-Keeps :
      (a : ℕ) (fs : List (ℕ × List ℕ)) (s : State base) → Keeps a s (push_out base fs s)
  unfolding push_out
  push_out-Keeps a [] s = (refl, refl, refl)
  push_out-Keeps a ((i, frame) ∷ fs) s =
      ground
        (arith, glue_tx_cb-Keeps a i frame s, push_out-Keeps a fs (glue_tx_cb base i frame s).1)

  report_ip-Keeps : (a i : ℕ) (x : Iface Queue) (s : State base) → Keeps a s (report_ip base i x s)
  unfolding report_ip announce emit_event
  report_ip-Keeps a i x s =
      let told : Iface Queue → Iface Queue = λ y. record y { ip_up = has_ip x.handle s.world } in
      ground (arith, rx_same-modify base a told (λ y. refl) s.ifaces i)

  poll_core-Keeps : (a i : ℕ) (s : State base) → Keeps a s (poll_core base i s)
  unfolding poll_core
  poll_core-Keeps a i s = elim (Option-cases (get_elem? s.ifaces i)) [
    | inl e ↦ rw (e, poll_core) (refl, refl, refl)
    | inr (x, e) ↦
        let out = (iface_poll x.handle s.world).0 in
        let t : State base = put_world (iface_poll x.handle s.world).1 s in
        ground (arith, push_out-Keeps a out t, report_ip-Keeps a i x (push_out base out t))
  ]

  -- If the free queue has room for the frames that wait, for `k` others and for exactly `spare` more,
  -- a poll of an interface neither loses a frame of the pool nor makes one up: each is in the free
  -- queue and the receive queues as often as before, and that room is the same afterwards.
  pub owned-poll_iface :
      (fuel i a k spare : ℕ) (s : State base)
      → Fits base spare k s
      → (owned base a (poll_iface base fuel i s) ≡ owned base a s)
        × Fits base spare k (poll_iface base fuel i s)
  unfolding poll_iface
  owned-poll_iface fuel i a k spare s v = ground (
    arith,
    owned-drain_rx base fuel i a k spare s v,
    poll_core-Keeps a i (drain_rx base fuel i s),
  )

  -- The bit of the event group that stands for an interface's IP state.
  abbrev pub BitAgrees : Iface Queue → State base → Type 0
  BitAgrees x s = get_elem? s.ip_bits x.id ≡ some x.ip_up

  -- The event calls after one more event, which is a call only if a callback is set.
  abbrev pub ip_event : Iface Queue → Event → State base → List EventCall
  ip_event x e s = elim s.user_cb [
    | none ↦ s.events
    | some c ↦ record { cb = c; iface = x.id; event = e; arg = s.user_cb_arg } ∷ s.events
  ]

  -- At the end of a poll of an interface whose event bit agreed with its `ip_up`, both are the
  -- core's IP state; the callback, if one is set, is called once more, with NET_EVT_GOT_IP or
  -- NET_EVT_LOST_IP, if that is a change, and not otherwise.
  pub report_ip_exact :
      (i : ℕ) (x : Iface Queue) (s : State base)
      → get_elem? s.ifaces i ≡ some x
      → BitAgrees x s
      → let now = has_ip x.handle s.world in
        let t = report_ip base i x s in
        (get_elem? t.ifaces i ≡ some (record x { ip_up = now }))
        × (get_elem? t.ip_bits x.id ≡ some now)
        × (t.events ≡ (
            if now
            then (if x.ip_up then s.events else ip_event x got_ip s)
            else (if x.ip_up then ip_event x lost_ip s else s.events)))
  unfolding report_ip announce emit_event
  report_ip_exact i x s g b =
      let told : Iface Queue → Iface Queue = λ y. record y { ip_up = has_ip x.handle s.world } in
      let there = get_elem?-modify_self s.ifaces i told x g in
      let bit = λ (v : Bool).
        get_elem?-set_self s.ip_bits x.id v (lt-length_of_some s.ip_bits x.id x.ip_up b) in
      elim (Bool-cases (has_ip x.handle s.world)) [
        | inl now ↦ elim (Bool-cases x.ip_up) [
          | inl was ↦ ground (arith, there)
          | inr was ↦ ground (arith, there, bit true)
        ]
        | inr now ↦ elim (Bool-cases x.ip_up) [
          | inl was ↦ ground (arith, there, bit false)
          | inr was ↦ ground (arith, there)
        ]
      ]

  abbrev pub deadlines : List (Iface Queue) → World → List ℕ
  deadlines [] w = []
  deadlines (x ∷ xs) w =
      if x.enabled
      then elim (poll_delay_us x.handle w) [
        | pos d ↦ d ∷ deadlines xs w
        | negsuc _ ↦ deadlines xs w
      ]
      else deadlines xs w

  abbrev pub Among : ℕ → List ℕ → Type 0
  Among r [] = ⊥
  Among r (d ∷ ds) = (r ≡ d) ⊎ Among r ds

  -- The loop finds the smallest of the start value and the deadlines of the enabled interfaces
  -- that have one (a negative answer of the core is none).
  pub next_deadline_least :
      (xs : List (Iface Queue)) (w : World) (next : ℕ)
      → let r = next_deadline base xs w next in
        (r ≤ next) × All (λ d. r ≤ d) (deadlines xs w) × ((r ≡ next) ⊎ Among r (deadlines xs w))
  unfolding next_deadline
  next_deadline_least [] w next = (omega arith, tt, inl refl)
  next_deadline_least (x ∷ xs) w next =
      let skipped = next_deadline_least xs w next in
      elim (ℤ-cases (poll_delay_us x.handle w)) [
        | inl (d, e) ↦ ground (arith, skipped, next_deadline_least xs w d)
        | inr (n, e) ↦ ground (arith, skipped)
      ]
