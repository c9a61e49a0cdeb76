-- ===== src/Stack/Task/Deliver.antt =====
-- Where the waiting frames go, in src/esp_smoltcp.c: dispatch_tap and the first loop of poll_iface.
use esp_smoltcp.Common.{
  ℕ, suc, ◌+◌, ◌*◌, ◌<◌, ◌≤◌, ◌≡◌, ◌≢◌, refl, Option, none, some, List, [], ◌∷◌, All, arith,
  get_elem?, get_or, inl, inr, ◌⊎◌, Option-cases, Bool-cases, take, ltb, ◌==◌,
}
use esp_smoltcp.Stack.State.{Frame, Iface, TapSlot}
use esp_smoltcp.Stack.Glue.{Base, State}
use esp_smoltcp.Stack.Tap.{find_tap, ethertype_of, dispatch_tap}
use esp_smoltcp.Stack.Task.{drain_rx}
use esp_smoltcp.Stack.Task.Drain.{Seen, seen, eat, eat_all, drain_rx-eat_all}

-- The EtherType of an Ethernet frame: two bytes, the higher first, behind the two addresses.
abbrev pub frame_type : Frame → ℕ
frame_type f = get_or f.bytes 12 0 * 256 + get_or f.bytes 13 0

-- A slot that is not registered for the EtherType.
abbrev pub Other : ℕ → TapSlot → Type 0
Other et x = (x.cb ≡ none) ⊎ (x.ethertype ≢ et)

-- The first slot registered for the EtherType has this callback and this argument.
pub data Registered (et c user : ℕ) : List TapSlot → Type 0 where
  here :
      (x : TapSlot) (xs : List TapSlot)
      → x.cb ≡ some c
      → x.ethertype ≡ et
      → x.user ≡ user
      → Registered et c user (x ∷ xs)
  later :
      (x : TapSlot) (xs : List TapSlot)
      → Other et x
      → Registered et c user xs
      → Registered et c user (x ∷ xs)

find_tap-cases :
    (et : ℕ) (taps : List TapSlot)
    → ((find_tap et taps ≡ none) × All (Other et) taps)
      ⊎ ((c user : ℕ) × (find_tap et taps ≡ some (c, user)) × Registered et c user taps)
unfolding find_tap
find_tap-cases et [] = inl (refl, tt)
find_tap-cases et (x ∷ xs) =
    let rest = find_tap-cases et xs in
    elim (Option-cases x.cb) [
      | inl e ↦ elim rest [
        | inl (f, all) ↦ inl (rw (e, find_tap) f, (inl e, all))
        | inr (c, user, f, reg) ↦ inr (c, user, rw (e, find_tap) f, later x xs (inl e) reg)
      ]
      | inr (c, e) ↦ elim (Bool-cases (x.ethertype == et)) [
        | inl same ↦ inr (
          c,
          x.user,
          rw (e, find_tap) (rw (same, find_tap) refl),
          here x xs e (ground arith) refl,
        )
        | inr differ ↦
            let ne : x.ethertype ≢ et = ground arith in
            elim rest [
              | inl (f, all) ↦ inl (rw (e, find_tap) (rw (differ, find_tap) f), (inr ne, all))
              | inr (c', user, f, reg) ↦
                  inr
                    (c', user, rw (e, find_tap) (rw (differ, find_tap) f), later x xs (inr ne) reg)
            ]
      ]
    ]

-- No slot takes the frame: it has no EtherType, or no slot is registered for that.
abbrev pub Untapped : List TapSlot → Frame → Type 0
Untapped taps f = (f.len < 14) ⊎ All (Other (frame_type f)) taps

pub dispatch_tap-cases :
    (taps : List TapSlot) (f : Frame)
    → ((dispatch_tap taps f ≡ none) × Untapped taps f)
      ⊎ ((c user : ℕ) × (dispatch_tap taps f ≡ some (c, user))
          × (14 ≤ f.len)
          × Registered (frame_type f) c user taps)
unfolding dispatch_tap ethertype_of
dispatch_tap-cases taps f = elim (Bool-cases (ltb f.len 14)) [
  | inl short ↦ inl (rw (short, dispatch_tap) refl, inl (ground arith))
  | inr long ↦ elim (find_tap-cases (frame_type f) taps) [
    | inl (e, all) ↦ inl (rw (long, dispatch_tap) e, inr all)
    | inr (c, user, e, reg) ↦ inr (c, user, rw (long, dispatch_tap) e, ground arith, reg)
  ]
]

module _ (base : Base) (id : ℕ) (h : Option ℕ) (taps : List TapSlot) (frames : List Frame) where
  open base use {iface_rx}

  -- What becomes of the frame at `p` of interface `id`, and what the core and the taps then have seen.
  pub data Delivered (p : ℕ) (v : Seen base) : Seen base → Type 0 where
    -- The pointer is not one of the pool's.
    stray : get_elem? frames p ≡ none → Delivered p v v
    to_tap :
        (f : Frame) (c user : ℕ)
        → get_elem? frames p ≡ some f
        → 14 ≤ f.len
        → Registered (frame_type f) c user taps
        → Delivered p v (
          v.0,
          record {
            cb = c;
            iface = id;
            frame = take f.len f.bytes;
            hw_ts_ns = f.hw_ts_ns;
            user = user;
          }
              ∷ v.1,
        )
    to_core :
        (f : Frame)
        → get_elem? frames p ≡ some f
        → Untapped taps f
        → Delivered p v (iface_rx h (take f.len f.bytes) v.0, v.1)

  pub data DeliveredAll : List ℕ → Seen base → Seen base → Type 0 where
    finished : (v : Seen base) → DeliveredAll [] v v
    next :
        (p : ℕ) (ps : List ℕ) (u v w : Seen base)
        → Delivered p u v
        → DeliveredAll ps v w
        → DeliveredAll (p ∷ ps) u w

  eat-Delivered : (p : ℕ) (v : Seen base) → Delivered p v (eat base id h taps frames p v)
  eat-Delivered p v = elim (Option-cases (get_elem? frames p)) [
    | inl e ↦ rw (e, eat) (stray e)
    | inr (f, e) ↦ elim (dispatch_tap-cases taps f) [
      | inl (d, untapped) ↦ rw (e, eat) (rw (d, eat) (to_core f e untapped))
      | inr (c, user, d, long, reg) ↦ rw (e, eat) (rw (d, eat) (to_tap f c user e long reg))
    ]
  ]

  eat_all-DeliveredAll :
      (ps : List ℕ) (v : Seen base) → DeliveredAll ps v (eat_all base id h taps frames ps v)
  eat_all-DeliveredAll [] v = finished v
  eat_all-DeliveredAll (p ∷ ps) v = next p ps v _ _ (eat-Delivered p v) (eat_all-DeliveredAll ps _)

-- With the number of waiting frames and one more as fuel, the loop hands each frame that waits to
-- the first tap registered for its EtherType, or else to the core, in the order of their arrival,
-- and nothing else.
pub drain_rx_order :
    (base : Base) (i : ℕ) (s : State base) (x : Iface base.Queue)
    → get_elem? s.ifaces i ≡ some x
    → DeliveredAll base x.id x.handle s.taps s.frames
        (base.contents x.rx_queue)
        (seen base s)
        (seen base (drain_rx base (suc (base.waiting x.rx_queue)) i s))
drain_rx_order base i s x g =
    let all =
      eat_all-DeliveredAll base x.id x.handle s.taps s.frames (base.contents x.rx_queue)
        (seen base s) in
    rw (drain_rx-eat_all base i s x g) all
