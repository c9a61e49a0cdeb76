-- ===== src/Stack/Tap.antt =====
-- src/esp_smoltcp.c: the L2 taps, four slots that map an EtherType to a callback.
pub mod Laws
use esp_smoltcp.Common.{
  ℕ, ◌+◌, ◌*◌, Bool, true, false, ◌&&◌, Option, none, some, is_some, List, [], ◌∷◌, if◌then◌else◌,
  ltb, ◌==◌, get_or,
}
use esp_smoltcp.Types.{EspErr, ok, no_mem}
use esp_smoltcp.Stack.State.{Frame, TapSlot}

-- L2_TAP_SLOTS
abbrev pub l2_tap_slots : ℕ
l2_tap_slots = 4

abbrev cons_some : TapSlot → Option (List TapSlot) → Option (List TapSlot)
cons_some x none = none
cons_some x (some xs) = some (x ∷ xs)

-- The first loop of `net_stack_l2_tap`: the slots after the update of the one that has the
-- EtherType, `none` if there is none.
unfoldable pub update_tap : ℕ → Option ℕ → ℕ → List TapSlot → Option (List TapSlot)
update_tap et cb user [] = none
update_tap et cb user (x ∷ xs) =
    if x.ethertype == et
    then some (record { ethertype = if is_some cb then et else 0; cb = cb; user = user } ∷ xs)
    else cons_some x (update_tap et cb user xs)

-- The second loop: the first unused slot is taken.
unfoldable pub add_tap : ℕ → Option ℕ → ℕ → List TapSlot → Option (List TapSlot)
add_tap et cb user [] = none
add_tap et cb user (x ∷ xs) =
    if x.ethertype == 0
    then some (record { ethertype = et; cb = cb; user = user } ∷ xs)
    else cons_some x (add_tap et cb user xs)

unfoldable pub l2_tap : ℕ → Option ℕ → ℕ → List TapSlot → EspErr × List TapSlot
l2_tap et cb user taps = elim (update_tap et cb user taps) [
  | some taps' ↦ (ok, taps')
  | none ↦
      if is_some cb
      then elim (add_tap et cb user taps) [ some taps' ↦ (ok, taps') | none ↦ (no_mem, taps) ]
      else (ok, taps)
]

-- The loop of `dispatch_tap`: the callback and its argument.
unfoldable pub find_tap : ℕ → List TapSlot → Option (ℕ × ℕ)
find_tap et [] = none
find_tap et (x ∷ xs) = elim x.cb [
  | none ↦ find_tap et xs
  | some c ↦ if x.ethertype == et then some (c, x.user) else find_tap et xs
]

-- `((uint16_t)f->data[12] << 8) | f->data[13]`
unfoldable pub ethertype_of : Frame → ℕ
ethertype_of f = get_or f.bytes 12 0 * 256 + get_or f.bytes 13 0

-- Which callback `dispatch_tap` calls on a frame: `none` where it returns false.
unfoldable pub dispatch_tap : List TapSlot → Frame → Option (ℕ × ℕ)
dispatch_tap taps f = if ltb f.len 14 then none else find_tap (ethertype_of f) taps
