-- ===== src/Stack/Task/Drain.antt =====
-- The first loop of poll_iface in src/esp_smoltcp.c: each waiting frame goes to a tap or to the
-- core, in order, and back to the pool.
use esp_smoltcp.Common.{
  ℕ, zero, suc, ◌+◌, ◌<◌, ◌≡◌, refl, Option, none, some, List, [], ◌∷◌, arith, length, get_elem?,
  ap, inl, inr, Option-cases, take, get_elem?-modify_self, ◌∙◌,
}
use esp_smoltcp.Stack.State.{Frame, Iface, TapSlot, TapCall, put_iface}
use esp_smoltcp.Stack.Glue.{Base, State}
use esp_smoltcp.Stack.Tap.{dispatch_tap}
use esp_smoltcp.Stack.Frames.{net_frame_free}
use esp_smoltcp.Stack.Frames.Owned.{
  count, owned, one_if, Fits, rx_count-modify, rx_length-modify, owned-net_frame_free, receive_inv,
}
use esp_smoltcp.Stack.Task.{consume, take_frame, drain_rx}

module _ (base : Base) where
  open base use {
    Queue, World, contents, capacity, receive, receive_nil, receive_cons, waiting, waiting_length,
    iface_rx,
  }

  -- One frame, seen by the core and the taps alone.
  abbrev pub Seen : Type 0
  Seen = World × List TapCall

  abbrev pub seen : State base → Seen
  seen s = (s.world, s.tapped)

  abbrev pub eat : ℕ → Option ℕ → List TapSlot → List Frame → ℕ → Seen → Seen
  eat id h taps frames p v = elim (get_elem? frames p) [
    | none ↦ v
    | some f ↦ elim (dispatch_tap taps f) [
      | none ↦ (iface_rx h (take f.len f.bytes) v.0, v.1)
      | some (c, user) ↦ (
        v.0,
        record {
          cb = c;
          iface = id;
          frame = take f.len f.bytes;
          hw_ts_ns = f.hw_ts_ns;
          user = user;
        }
            ∷ v.1,
      )
    ]
  ]

  abbrev pub eat_all : ℕ → Option ℕ → List TapSlot → List Frame → List ℕ → Seen → Seen
  eat_all id h taps frames [] v = v
  eat_all id h taps frames (p ∷ ps) v = eat_all id h taps frames ps (eat id h taps frames p v)

  -- What one round keeps, and what it does.
  record Round (x : Iface Queue) (p : ℕ) (s t : State base) : Type 0 where
    ifaces : t.ifaces ≡ s.ifaces
    taps : t.taps ≡ s.taps
    frames : t.frames ≡ s.frames
    sees : seen t ≡ eat x.id x.handle s.taps s.frames p (seen s)

  take_frame-Round :
      (x : Iface Queue) (p : ℕ) (s : State base) → Round x p s (take_frame base x p s)
  unfolding take_frame consume net_frame_free
  take_frame-Round x p s = ground arith

  consume_keeps :
      (x : Iface Queue) (f : Frame) (s : State base)
      → ((consume base x f s).free_q ≡ s.free_q) × ((consume base x f s).ifaces ≡ s.ifaces)
  unfolding consume
  consume_keeps x f s = ground arith

  owned-take_frame :
      (x : Iface Queue) (a p k spare : ℕ) (s : State base)
      → Fits base spare (suc k) s
      → (owned base a (take_frame base x p s) ≡ owned base a s + one_if base p a)
        × Fits base spare k (take_frame base x p s)
  unfolding take_frame
  owned-take_frame x a p k spare s v = elim (Option-cases (get_elem? s.frames p)) [
    | inl e ↦ rw (e, take_frame) (owned-net_frame_free base a p k spare s v)
    | inr (f, e) ↦
        ground
          (arith, consume_keeps x f s, owned-net_frame_free base a p k spare (consume base x f s))
  ]

  abbrev taken : Queue → Iface Queue → Iface Queue
  taken q y = record y { rx_queue = q }

  drain_enough :
      (n i : ℕ) (ps : List ℕ) (s : State base) (x : Iface Queue)
      → get_elem? s.ifaces i ≡ some x
      → contents x.rx_queue ≡ ps
      → length ps < n
      → seen (drain_rx base n i s) ≡ eat_all x.id x.handle s.taps s.frames ps (seen s)
  unfolding drain_rx
  drain_enough zero i ps s x g c h = absurd (omega arith)
  drain_enough (suc n) i [] s x g c h =
      rw (g, drain_rx) (rw (receive_nil x.rx_queue c, drain_rx) refl)
  drain_enough (suc n) i (p ∷ ps) s x g c h =
      let (q, r, c', k) = receive_cons x.rx_queue p ps c in
      let t : State base = put_iface i (taken q) s in
      let round = take_frame-Round x p t in
      let there = get_elem?-modify_self s.ifaces i (taken q) x g in
      let rest =
        drain_enough n i ps (take_frame base x p t) (taken q x)
          (ap (λ (l : List (Iface Queue)). get_elem? l i) round.ifaces ∙ there) c' (omega arith) in
      rw (g, drain_rx) (rw (r, drain_rx) (ground (arith, rest, round)))

  pub owned-drain_rx :
      (n i a k spare : ℕ) (s : State base)
      → Fits base spare k s
      → (owned base a (drain_rx base n i s) ≡ owned base a s)
        × Fits base spare k (drain_rx base n i s)
  unfolding drain_rx
  owned-drain_rx zero i a k spare s v = (refl, v)
  owned-drain_rx (suc n) i a k spare s v = elim (Option-cases (get_elem? s.ifaces i)) [
    | inl e ↦ rw (e, drain_rx) (refl, v)
    | inr (x, e) ↦ elim (Option-cases (receive x.rx_queue)) [
      | inl r ↦ rw (e, drain_rx) (rw (r, drain_rx) (refl, v))
      | inr ((p, q), r) ↦
          let t : State base = put_iface i (taken q) s in
          let front = (receive_inv base x.rx_queue q p r).0 in
          rw (e, drain_rx)
            (rw (r, drain_rx)
              (ground (
                arith,
                ap (count a) front,
                ap length front,
                rx_count-modify base a s.ifaces i (taken q) x,
                rx_length-modify base s.ifaces i (taken q) x,
                owned-take_frame x a p k spare t,
                owned-drain_rx n i a k spare (take_frame base x p t),
              )))
    ]
  ]

  pub drain_rx-eat_all :
      (i : ℕ) (s : State base) (x : Iface Queue)
      → get_elem? s.ifaces i ≡ some x
      → seen (drain_rx base (suc (waiting x.rx_queue)) i s)
        ≡ eat_all x.id x.handle s.taps s.frames (contents x.rx_queue) (seen s)
  drain_rx-eat_all i s x g =
      drain_enough (suc (waiting x.rx_queue)) i (contents x.rx_queue) s x g refl
        (omega (arith, waiting_length x.rx_queue))
