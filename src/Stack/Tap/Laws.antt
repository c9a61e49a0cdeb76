-- ===== src/Stack/Tap/Laws.antt =====
-- The tap table of src/esp_smoltcp.c as a map from EtherTypes to callbacks.
use esp_smoltcp.Common.{
  ℕ, ◌≡◌, refl, ◌≢◌, ◌⊎◌, inl, inr, Option, none, some, List, [], ◌∷◌, if◌then◌else◌, ◌==◌, ◌||◌,
  arith, Option-cases, true, false, Bool,
}
use esp_smoltcp.Types.{ok}
use esp_smoltcp.Stack.State.{TapSlot}
use esp_smoltcp.Stack.Tap.{update_tap, add_tap, l2_tap, find_tap}

abbrev pub has_type : ℕ → List TapSlot → Bool
has_type et [] = false
has_type et (x ∷ xs) = x.ethertype == et || has_type et xs

-- No EtherType but 0 is in two slots.
abbrev pub IsTable : List TapSlot → Type 0
IsTable [] = Unit {0}
IsTable (x ∷ xs) = ((x.ethertype ≡ 0) ⊎ (has_type x.ethertype xs ≡ false)) × IsTable xs

-- What a lookup gives after a registration: the new callback, or nothing if it was cleared.
abbrev pub registered : Option ℕ → ℕ → Option (ℕ × ℕ)
registered none user = none
registered (some c) user = some (c, user)

find_tap_absent : (et : ℕ) (xs : List TapSlot) → has_type et xs ≡ false → find_tap et xs ≡ none
unfolding find_tap
find_tap_absent et [] h = refl
find_tap_absent et (x ∷ xs) h = ground (arith, find_tap_absent et xs)

update_tap_absent :
    (et : ℕ) (cb : Option ℕ) (user : ℕ) (xs : List TapSlot)
    → update_tap et cb user xs ≡ none
    → has_type et xs ≡ false
unfolding update_tap
update_tap_absent et cb user [] h = refl
update_tap_absent et cb user (x ∷ xs) h = ground (arith, update_tap_absent et cb user xs)

find_tap-update_tap :
    (et j : ℕ) (cb : Option ℕ) (user : ℕ) (xs ys : List TapSlot)
    → j ≢ 0
    → et ≢ 0
    → IsTable xs
    → update_tap et cb user xs ≡ some ys
    → find_tap j ys ≡ (if et == j then registered cb user else find_tap j xs)
unfolding update_tap find_tap
find_tap-update_tap et j cb user [] ys n m v h = absurd (ground arith)
find_tap-update_tap et j none user (x ∷ xs) ys n m v h =
    elim (Option-cases (update_tap et none user xs)) [
      | inl e ↦ ground (arith, find_tap_absent et xs)
      | inr (zs, e) ↦
          ground (arith, find_tap_absent et xs, find_tap-update_tap et j none user xs zs)
    ]
find_tap-update_tap et j (some c) user (x ∷ xs) ys n m v h =
    elim (Option-cases (update_tap et (some c) user xs)) [
      | inl e ↦ ground arith
      | inr (zs, e) ↦ ground (arith, find_tap-update_tap et j (some c) user xs zs)
    ]

find_tap-add_tap :
    (et j c user : ℕ) (xs ys : List TapSlot)
    → j ≢ 0
    → has_type et xs ≡ false
    → add_tap et (some c) user xs ≡ some ys
    → find_tap j ys ≡ (if et == j then some (c, user) else find_tap j xs)
unfolding add_tap find_tap
find_tap-add_tap et j c user [] ys n v h = absurd (ground arith)
find_tap-add_tap et j c user (x ∷ xs) ys n v h = elim (Option-cases (add_tap et (some c) user xs)) [
  | inl e ↦ ground arith
  | inr (zs, e) ↦ ground (arith, find_tap-add_tap et j c user xs zs)
]

-- In a table with no EtherType but 0 in two slots, a successful call for an EtherType other than 0
-- registers the callback for it, or clears it if the callback is NULL, and leaves the callbacks of
-- all other EtherTypes but 0 alone.
pub find_tap-l2_tap :
    (et j : ℕ) (cb : Option ℕ) (user : ℕ) (xs : List TapSlot)
    → et ≢ 0
    → j ≢ 0
    → IsTable xs
    → (l2_tap et cb user xs).0 ≡ ok
    → find_tap j (l2_tap et cb user xs).1 ≡ (if et == j then registered cb user else find_tap j xs)
unfolding l2_tap
find_tap-l2_tap et j none user xs n m v h = elim (Option-cases (update_tap et none user xs)) [
  | inl e ↦ ground (arith, update_tap_absent et none user xs, find_tap_absent et xs)
  | inr (ys, e) ↦ ground (arith, find_tap-update_tap et j none user xs ys)
]
find_tap-l2_tap et j (some c) user xs n m v h =
    elim (Option-cases (update_tap et (some c) user xs)) [
      | inr (ys, e) ↦ ground (arith, find_tap-update_tap et j (some c) user xs ys)
      | inl e ↦ elim (Option-cases (add_tap et (some c) user xs)) [
        | inl f ↦ absurd (ground arith)
        | inr (ys, f) ↦
            ground
              (arith, update_tap_absent et (some c) user xs, find_tap-add_tap et j c user xs ys)
      ]
    ]

has_type-update_tap :
    (et j : ℕ) (cb : Option ℕ) (user : ℕ) (xs ys : List TapSlot)
    → j ≢ 0
    → update_tap et cb user xs ≡ some ys
    → has_type j xs ≡ false
    → has_type j ys ≡ false
unfolding update_tap
has_type-update_tap et j cb user [] ys n e h = absurd (ground arith)
has_type-update_tap et j cb user (x ∷ xs) ys n e h =
    elim (Option-cases (update_tap et cb user xs)) [
      | inl f ↦ ground arith
      | inr (zs, f) ↦ ground (arith, has_type-update_tap et j cb user xs zs)
    ]

has_type-add_tap :
    (et j : ℕ) (cb : Option ℕ) (user : ℕ) (xs ys : List TapSlot)
    → et ≢ j
    → add_tap et cb user xs ≡ some ys
    → has_type j xs ≡ false
    → has_type j ys ≡ false
unfolding add_tap
has_type-add_tap et j cb user [] ys n e h = absurd (ground arith)
has_type-add_tap et j cb user (x ∷ xs) ys n e h = elim (Option-cases (add_tap et cb user xs)) [
  | inl f ↦ ground arith
  | inr (zs, f) ↦ ground (arith, has_type-add_tap et j cb user xs zs)
]

update_tap-IsTable :
    (et : ℕ) (cb : Option ℕ) (user : ℕ) (xs ys : List TapSlot)
    → IsTable xs
    → update_tap et cb user xs ≡ some ys
    → IsTable ys
unfolding update_tap
update_tap-IsTable et cb user [] ys v e = absurd (ground arith)
update_tap-IsTable et cb user (x ∷ xs) ys v e = elim (Option-cases (update_tap et cb user xs)) [
  | inl f ↦ ground arith
  | inr (zs, f) ↦
      ground (
        arith,
        update_tap-IsTable et cb user xs zs,
        has_type-update_tap et x.ethertype cb user xs zs,
      )
]

add_tap-IsTable :
    (et : ℕ) (cb : Option ℕ) (user : ℕ) (xs ys : List TapSlot)
    → has_type et xs ≡ false
    → IsTable xs
    → add_tap et cb user xs ≡ some ys
    → IsTable ys
unfolding add_tap
add_tap-IsTable et cb user [] ys a v e = absurd (ground arith)
add_tap-IsTable et cb user (x ∷ xs) ys a v e = elim (Option-cases (add_tap et cb user xs)) [
  | inl f ↦ ground arith
  | inr (zs, f) ↦
      ground
        (arith, add_tap-IsTable et cb user xs zs, has_type-add_tap et x.ethertype cb user xs zs)
]

-- If no EtherType but 0 is in two slots, then none is after a call of net_stack_l2_tap, whatever it
-- registers or clears and whether it succeeds or not.
pub l2_tap-IsTable :
    (et : ℕ) (cb : Option ℕ) (user : ℕ) (xs : List TapSlot)
    → IsTable xs
    → IsTable (l2_tap et cb user xs).1
unfolding l2_tap
l2_tap-IsTable et cb user xs v = elim (Option-cases (update_tap et cb user xs)) [
  | inr (ys, e) ↦ ground (arith, update_tap-IsTable et cb user xs ys)
  | inl e ↦ elim (Option-cases (add_tap et cb user xs)) [
    | inl f ↦ ground arith
    | inr (ys, f) ↦
        ground (arith, update_tap_absent et cb user xs, add_tap-IsTable et cb user xs ys)
  ]
]

update_tap_present :
    (et : ℕ) (cb : Option ℕ) (user : ℕ) (xs ys : List TapSlot)
    → update_tap et cb user xs ≡ some ys
    → has_type et xs ≡ true
unfolding update_tap
update_tap_present et cb user [] ys e = absurd (ground arith)
update_tap_present et cb user (x ∷ xs) ys e = elim (Option-cases (update_tap et cb user xs)) [
  | inl f ↦ ground arith
  | inr (zs, f) ↦ ground (arith, update_tap_present et cb user xs zs)
]

-- Take a table whose first slot is unused and whose other slots have neither a callback for
-- EtherType 0 nor a place for `et`, which is not 0. A callback registered for EtherType 0 is found;
-- once one is registered for `et`, the callback for 0 is gone.
pub zero_tap_lost :
    (c user et d other : ℕ) (x : TapSlot) (xs : List TapSlot)
    → x.ethertype ≡ 0
    → et ≢ 0
    → has_type et xs ≡ false
    → find_tap 0 xs ≡ none
    → let taps = (l2_tap 0 (some c) user (x ∷ xs)).1 in
      (find_tap 0 taps ≡ some (c, user)) × (find_tap 0 (l2_tap et (some d) other taps).1 ≡ none)
unfolding l2_tap update_tap add_tap find_tap
zero_tap_lost c user et d other x xs z n a f =
    elim (Option-cases (update_tap et (some d) other xs)) [
      | inl e ↦ ground arith
      | inr (ys, e) ↦ ground (arith, update_tap_present et (some d) other xs ys)
    ]
