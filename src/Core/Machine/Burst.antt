-- ===== src/Core/Machine/Burst.antt =====
-- The receive loop of poll_iface (components/esp_smoltcp/src/esp_smoltcp.c) over the contexts of the
-- glue (components/esp_smoltcp_glue/src/lib.rs), each of whose inboxes has room for one frame.
use esp_smoltcp.Common.{
  ℕ, suc, ◌≡◌, ◌≤◌, refl, ◌∙◌, ap, Option, none, some, List, [], ◌∷◌, get_elem?, take, QueueApi,
  Option-cases, inl, inr, arith, get_elem?-set_self, lt-length_of_some,
}
use esp_smoltcp.Stack.State.{Stack, Frame, Iface, TapSlot}
use esp_smoltcp.Stack.Glue.{Base, State}
use esp_smoltcp.Stack.Task.{drain_rx}
use esp_smoltcp.Stack.Task.Drain.{Seen, eat, eat_all, drain_rx-eat_all}
use esp_smoltcp.Stack.Task.Deliver.{frame_type, Registered, Untapped, dispatch_tap-cases}
use esp_smoltcp.Core.Device.{push_rx}
use esp_smoltcp.Core.Crate.{Crate}
use esp_smoltcp.Core.Ctx.{IfaceCtx, iface_rx}
use esp_smoltcp.Core.Machine.{Board, Running}
use esp_smoltcp.Core.Machine.Reports.{base as machine_base}

abbrev pub or_first : Option (List ℕ) → Option (List ℕ) → Option (List ℕ)
or_first none later = later
or_first (some frame) later = some frame

or_first_assoc : (a b c : Option (List ℕ)) → or_first (or_first a b) c ≡ or_first a (or_first b c)
or_first_assoc none b c = refl
or_first_assoc (some frame) b c = refl

or_first-none : (a : Option (List ℕ)) → a ≡ or_first a none
or_first-none none = refl
or_first-none (some frame) = refl

-- The bytes of the first of the frames that no tap takes.
pub data FirstUntapped (taps : List TapSlot) (frames : List Frame)
    : List ℕ → Option (List ℕ) → Type 0 where
  nobody : FirstUntapped taps frames [] none
  stray :
      (p : ℕ) (ps : List ℕ) (found : Option (List ℕ))
      → get_elem? frames p ≡ none
      → FirstUntapped taps frames ps found
      → FirstUntapped taps frames (p ∷ ps) found
  tapped :
      (p : ℕ) (ps : List ℕ) (found : Option (List ℕ)) (f : Frame) (c user : ℕ)
      → get_elem? frames p ≡ some f
      → 14 ≤ f.len
      → Registered (frame_type f) c user taps
      → FirstUntapped taps frames ps found
      → FirstUntapped taps frames (p ∷ ps) found
  untapped :
      (p : ℕ) (ps : List ℕ) (f : Frame)
      → get_elem? frames p ≡ some f
      → Untapped taps f
      → FirstUntapped taps frames (p ∷ ps) (some (take f.len f.bytes))

module _ (crate : Crate) (board : Board) (queue : QueueApi ℕ)
    (sleep wait : ℕ
      → Stack queue.Queue (Option (Running crate board))
      → Stack queue.Queue (Option (Running crate board))) where
  abbrev base : Base
  base = machine_base crate board queue sleep wait

  abbrev pub context_at : ℕ → Option (Running crate board) → Option (IfaceCtx crate)
  context_at h none = none
  context_at h (some m) = get_elem? m.ctxs h

  context_at-iface_rx :
      (h : ℕ) (frame : List ℕ) (w : Option (Running crate board)) (c : IfaceCtx crate)
      → context_at h w ≡ some c
      → context_at h (base.iface_rx (some h) frame w) ≡ some (iface_rx crate frame c)
  context_at-iface_rx h frame none c e = absurd (ground arith)
  context_at-iface_rx h frame (some m) c e =
      rw e (get_elem?-set_self m.ctxs h (iface_rx crate frame c) (lt-length_of_some m.ctxs h c e))

  -- A frame for the core waits in the inbox where that was empty.
  inbox-iface_rx :
      (frame : List ℕ) (c : IfaceCtx crate)
      → (iface_rx crate frame c).dev.rx_inbox ≡ or_first c.dev.rx_inbox (some frame)
  unfolding iface_rx push_rx
  inbox-iface_rx frame c = elim (Option-cases c.dev.rx_inbox) [
    | inl e ↦ ground arith
    | inr (f, e) ↦ ground arith
  ]

  module _ (id h : ℕ) (taps : List TapSlot) (frames : List Frame) where
    inbox-eat_all :
        (ps : List ℕ) (v : Seen base) (c : IfaceCtx crate)
        → context_at h v.0 ≡ some c
        → (d : IfaceCtx crate) × (found : Option (List ℕ)) × (context_at h
              (eat_all base id (some h) taps frames ps v).0
            ≡ some d)
          × (d.dev.rx_inbox ≡ or_first c.dev.rx_inbox found)
          × FirstUntapped taps frames ps found
    inbox-eat_all [] v c e = (c, none, e, or_first-none _, nobody)
    inbox-eat_all (p ∷ ps) v c e = elim (Option-cases (get_elem? frames p)) [
      | inl g ↦
          let (d, found, at, held, first) = inbox-eat_all ps v c e in
          let same : eat base id (some h) taps frames p v ≡ v = rw (g, eat) refl in
          (
            d,
            found,
            ap (λ (u : Seen base). context_at h (eat_all base id (some h) taps frames ps u).0) same
                ∙ at,
            held,
            stray p ps found g first,
          )
      | inr (f, g) ↦ elim (dispatch_tap-cases taps f) [
        | inr (cb, user, t, long, reg) ↦
            let (d, found, at, held, first) =
              inbox-eat_all ps (eat base id (some h) taps frames p v) c
                (rw (g, eat) (rw (t, eat) e)) in
            (d, found, at, held, tapped p ps found f cb user g long reg first)
        | inl (t, free) ↦
            let frame = take f.len f.bytes in
            let (d, found, at, held, first) =
              inbox-eat_all ps (eat base id (some h) taps frames p v) (iface_rx crate frame c)
                (rw (g, eat) (rw (t, eat) (context_at-iface_rx h frame v.0 c e))) in
            (
              d,
              some frame,
              at,
              held
                  ∙ ap (λ o. or_first o found) (inbox-iface_rx frame c)
                  ∙ or_first_assoc c.dev.rx_inbox (some frame) found,
              untapped p ps f g free,
            )
      ]
    ]

  -- Of all the frames that wait for an interface, the first that no tap takes is the one in the
  -- inbox of the interface's context when the core is polled, or none of them where a frame was
  -- pending: the others are lost.
  pub rx_inbox-drain_rx :
      (i h : ℕ) (s : State base) (x : Iface base.Queue) (c : IfaceCtx crate)
      → get_elem? s.ifaces i ≡ some x
      → x.handle ≡ some h
      → context_at h s.world ≡ some c
      → (d : IfaceCtx crate) × (found : Option (List ℕ)) × (context_at h
            (drain_rx base (suc (base.waiting x.rx_queue)) i s).world
          ≡ some d)
        × (d.dev.rx_inbox ≡ or_first c.dev.rx_inbox found)
        × FirstUntapped s.taps s.frames (base.contents x.rx_queue) found
  rx_inbox-drain_rx i h s x c g e at_h =
      let (d, found, at, held, first) =
        inbox-eat_all x.id h s.taps s.frames (base.contents x.rx_queue) (s.world, s.tapped) c
          at_h in
      let all =
        drain_rx-eat_all base i s x g
        ∙ ap
            (λ k.
              eat_all base x.id k s.taps s.frames (base.contents x.rx_queue) (s.world, s.tapped))
            e in
      (d, found, ap (λ (v : Seen base). context_at h v.0) all ∙ at, held, first)
