-- ===== src/Stack/Run/Conserve.antt =====
-- No frame of the pool of src/esp_smoltcp.c is lost or in two places, whatever calls are made.
use esp_smoltcp.Common.{
  ℕ, suc, ◌+◌, ◌<◌, ◌≡◌, ◌≢◌, refl, some, List, [], ◌∷◌, if◌then◌else◌, ◌==◌, ltb, arith, Bool,
  true, false, length, inl, inr, Option-cases, modify,
}
use esp_smoltcp.Types.{iface_eth}
use esp_smoltcp.Stack.State.{Iface}
use esp_smoltcp.Stack.Glue.{Base, State}
use esp_smoltcp.Stack.Frames.{net_frame_alloc, frame_pool_init}
use esp_smoltcp.Stack.Frames.Owned.{
  count, rx_length, owned, Fits, owned-net_frame_alloc, owned-net_frame_free,
}
use esp_smoltcp.Stack.Frames.Pool.{frame_pool_init_lem, net_frame_alloc-Fits}
use esp_smoltcp.Stack.Iface.{
  EthEvent, connected, disconnected, other_event, eth_event, link_event, linked, kick_poll,
  emit_event, eth_input_cb, l2_send, register_event_cb, copy_in,
}
use esp_smoltcp.Stack.Iface.Receive.{owned-post_rx, rx_same-modify}
use esp_smoltcp.Stack.Task.Poll.{Keeps, glue_tx_cb-Keeps, owned-poll_iface}
use esp_smoltcp.Stack.Setup.{Driver, attach_eth, enabled_eth, bring_up, ptp_start}
use esp_smoltcp.Stack.Run.{
  System, Step, Reach, here, later, allocate, refuse, write, give_back, post, eth_input, eth_link,
  poll, transmit, inject, tap, register, attach, core, drop_one,
}

count-drop_one :
    (f p : ℕ) (xs : List ℕ)
    → count f xs ≢ 0
    → (count p (drop_one f xs) + (if f == p then 1 else 0) ≡ count p xs)
      × (suc (length (drop_one f xs)) ≡ length xs)
count-drop_one f p [] h = absurd (h refl)
count-drop_one f p (x ∷ xs) h = ground (arith, count-drop_one f p xs)

module _ (base : Base) where
  open base use {Queue, World}

  link_event-Keeps :
      (a i : ℕ) (up : Bool) (s : State base) → Keeps base a s (link_event base i up s)
  unfolding link_event kick_poll emit_event
  link_event-Keeps a i up s =
      ground (arith, rx_same-modify base a (linked base up) (λ y. refl) s.ifaces i)

  eth_event-Keeps : (a : ℕ) (e : EthEvent) (s : State base) → Keeps base a s (eth_event base e s)
  unfolding eth_event
  eth_event-Keeps a connected s = link_event-Keeps a iface_eth true s
  eth_event-Keeps a disconnected s = link_event-Keeps a iface_eth false s
  eth_event-Keeps a other_event s = (refl, refl, refl)

  l2_send-Keeps :
      (a i : ℕ) (frame : List ℕ) (s : State base) → Keeps base a s (l2_send base i frame s).1
  unfolding l2_send
  l2_send-Keeps a i frame s = ground arith

  attach_eth-Keeps :
      (a : ℕ) (has_handle : Bool) (d : Driver World) (s : State base)
      → Keeps base a s (attach_eth base has_handle d s).1
  unfolding attach_eth bring_up ptp_start kick_poll
  attach_eth-Keeps a has_handle d s =
      let on : Iface Queue → Iface Queue = enabled_eth base in
      let named : Iface Queue → Iface Queue = λ y. record y { mac = d.mac } in
      let with_core : Iface Queue → Iface Queue =
        λ y. record y { handle = (d.iface_new d.mac s.world).0 } in
      let xs = modify s.ifaces 0 on in
      let ys = modify xs 0 named in
      ground (
        arith,
        rx_same-modify base a on (λ y. refl) s.ifaces 0,
        rx_same-modify base a named (λ y. refl) xs 0,
        rx_same-modify base a with_core (λ y. refl) ys 0,
      )

  -- Every frame of a pool of `n` is in one place, and the free queue has room for all of them.
  pub record Conserved (n : ℕ) (s : System base) : Type 0 where
    pub each : (p : ℕ) → owned base p s.stack + count p s.held ≡ (if ltb p n then 1 else 0)
    pub fits : Fits base 0 (length s.held) s.stack

  Keeps-Conserved :
      (n : ℕ) (s : System base) (t : State base)
      → ((a : ℕ) → Keeps base a s.stack t)
      → Conserved n s
      → Conserved n (record { stack = t; held = s.held })
  Keeps-Conserved n s t k v = record {
    each = λ p. ground (arith, v.each p, k p);
    fits = ground (arith, v.fits, k 0);
  }

  eth_input_cb_keeps :
      (p k spare : ℕ) (buf : List ℕ) (s : State base)
      → Fits base spare k s
      → (owned base p (eth_input_cb base buf s).1 ≡ owned base p s)
        × Fits base spare k (eth_input_cb base buf s).1
  unfolding eth_input_cb
  eth_input_cb_keeps p k spare buf s v =
      let t = (net_frame_alloc base (length buf) s).1 in
      let moved = owned-net_frame_alloc base p (length buf) s in
      let room = net_frame_alloc-Fits base (length buf) k spare s v in
      elim (Option-cases (net_frame_alloc base (length buf) s).0) [
        | inl e ↦ ground (arith, moved, room)
        | inr (f, e) ↦
            let u : State base = record t { frames = modify t.frames f (copy_in base buf) } in
            ground (arith, moved, room, owned-post_rx base p iface_eth f k spare u)
      ]

  Step-Conserved : (n : ℕ) {s t : System base} → Step base s t → Conserved n s → Conserved n t
  Step-Conserved n {s} (allocate len f t e) v = record {
    each = λ p. ground (arith, v.each p, owned-net_frame_alloc base p len s.stack);
    fits = ground (arith, net_frame_alloc-Fits base len (length s.held) 0 s.stack v.fits);
  }
  Step-Conserved n {s} (refuse len t e) v = record {
    each = λ p. ground (arith, v.each p, owned-net_frame_alloc base p len s.stack);
    fits = ground (arith, net_frame_alloc-Fits base len (length s.held) 0 s.stack v.fits);
  }
  Step-Conserved n {s} (write f g h) v = Keeps-Conserved n s _ (λ a. (refl, refl, refl)) v
  Step-Conserved n {s} (give_back f h) v =
      let (c, l) = count-drop_one f 0 s.held h in
      let room : Fits base 0 (suc (length (drop_one f s.held))) s.stack = rw l v.fits in
      record {
        each = λ p. ground (
          arith,
          v.each p,
          count-drop_one f p s.held h,
          owned-net_frame_free base p f (length (drop_one f s.held)) 0 s.stack room,
        );
        fits = (owned-net_frame_free base 0 f (length (drop_one f s.held)) 0 s.stack room).1;
      }
  Step-Conserved n {s} (post i f h) v =
      let (c, l) = count-drop_one f 0 s.held h in
      let room : Fits base 0 (suc (length (drop_one f s.held))) s.stack = rw l v.fits in
      record {
        each = λ p. ground (
          arith,
          v.each p,
          count-drop_one f p s.held h,
          owned-post_rx base p i f (length (drop_one f s.held)) 0 s.stack room,
        );
        fits = (owned-post_rx base 0 i f (length (drop_one f s.held)) 0 s.stack room).1;
      }
  Step-Conserved n {s} (eth_input buf) v = record {
    each = λ p. ground (arith, v.each p, eth_input_cb_keeps p (length s.held) 0 buf s.stack v.fits);
    fits = (eth_input_cb_keeps 0 (length s.held) 0 buf s.stack v.fits).1;
  }
  Step-Conserved n {s} (eth_link e) v = Keeps-Conserved n s _ (λ a. eth_event-Keeps a e s.stack) v
  Step-Conserved n {s} (poll fuel i) v = record {
    each = λ p.
        ground (arith, v.each p, owned-poll_iface base fuel i p (length s.held) 0 s.stack v.fits);
    fits = (owned-poll_iface base fuel i 0 (length s.held) 0 s.stack v.fits).1;
  }
  Step-Conserved n {s} (transmit i frame) v =
      Keeps-Conserved n s _ (λ a. glue_tx_cb-Keeps base a i frame s.stack) v
  Step-Conserved n {s} (inject i frame) v =
      Keeps-Conserved n s _ (λ a. l2_send-Keeps a i frame s.stack) v
  Step-Conserved n {s} (tap et cb user) v = Keeps-Conserved n s _ (λ a. (refl, refl, refl)) v
  Step-Conserved n {s} (register cb user) v =
      Keeps-Conserved n s _ (λ a. unfold register_event_cb in (refl, refl, refl)) v
  Step-Conserved n {s} (attach has_handle d) v =
      Keeps-Conserved n s _ (λ a. attach_eth-Keeps a has_handle d s.stack) v
  Step-Conserved n {s} (core w) v = Keeps-Conserved n s _ (λ a. (refl, refl, refl)) v

  -- The stack once its pool of `n` frames is made, with no frame in a receive queue.
  abbrev pub started : ℕ → Queue → State base → System base
  started n created s = record { stack = frame_pool_init base n created s; held = [] }

  pub Reach-Conserved : (n : ℕ) {s t : System base} → Conserved n s → Reach base s t → Conserved n t
  Reach-Conserved n v here = v
  Reach-Conserved n v (later r st) = Step-Conserved n st (Reach-Conserved n v r)

-- Start with a pool of `n` frames that are all free and no frame in a receive queue. Whatever
-- calls drivers, the poll task and the application then make, in any order, each frame of the pool is
-- in exactly one place: in the free queue, in a receive queue, or in a driver's hands.
pub frames_conserved :
    (base : Base) (n p : ℕ) (created : base.Queue) (s : State base) (t : System base)
    → base.contents created ≡ []
    → base.capacity created ≡ n
    → rx_length base s.ifaces ≡ 0
    → Reach base (started base n created s) t
    → owned base p t.stack + count p t.held ≡ (if ltb p n then 1 else 0)
frames_conserved base n p created s t e c h r =
    let (fits, each) = frame_pool_init_lem base n created s e c h in
    let v : Conserved base n (started base n created s) = record {
      each = λ p. omega (arith, each p);
      fits = fits;
    } in
    (Reach-Conserved base n v r).each p

-- In each state reached so, a frame that an allocation returns is one of the pool, nobody holds it,
-- and it is in no queue any more: no frame is handed out twice.
pub alloc_not_shared :
    (base : Base) (n len f : ℕ) (created : base.Queue) (s u : State base) (t : System base)
    → base.contents created ≡ []
    → base.capacity created ≡ n
    → rx_length base s.ifaces ≡ 0
    → Reach base (started base n created s) t
    → net_frame_alloc base len t.stack ≡ (some f, u)
    → (f < n) × (count f t.held ≡ 0) × (owned base f u ≡ 0)
alloc_not_shared base n len f created s u t e c h r a =
    ground (
      arith,
      frames_conserved base n f created s t e c h r,
      owned-net_frame_alloc base f len t.stack,
    )
