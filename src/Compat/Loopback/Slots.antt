-- ===== src/Compat/Loopback/Slots.antt =====
-- The slot table of src/loopback.c seen as a map from ports to entries.
use esp_smoltcp.Common.{
  ℕ, zero, suc, ◌+◌, ◌≡◌, refl, ◌≢◌, ◌⊎◌, inl, inr, Option, none, some, List, [], ◌∷◌,
  if◌then◌else◌, ◌==◌, ◌&&◌, set, arith, Option-cases,
}
use esp_smoltcp.Types.{ok, no_mem}
use esp_smoltcp.Compat.State.{Slot}
use esp_smoltcp.Compat.Loopback.{scan, bind_slots, holds, unbind_slots, find_target}

-- The index of the first slot with that port.
abbrev pub first : ℕ → List Slot → Option ℕ
first p [] = none
first p (x ∷ xs) =
    if x.port == p then some 0 else elim (first p xs) [ none ↦ none | some k ↦ some (suc k) ]

abbrev shift : ℕ → Option ℕ → Option ℕ
shift i none = none
shift i (some k) = some (i + k)

abbrev or_else : Option ℕ → Option ℕ → Option ℕ
or_else none b = b
or_else (some a) b = some a

scan-found :
    (p : ℕ) (xs : List Slot) (i : ℕ) (fs : Option ℕ) → (scan p xs i fs).0 ≡ shift i (first p xs)
unfolding scan
scan-found p [] i fs = refl
scan-found p (x ∷ xs) i none =
    ground (arith, scan-found p xs (suc i) none, scan-found p xs (suc i) (some i))
scan-found p (x ∷ xs) i (some j) = ground (arith, scan-found p xs (suc i) (some j))

scan-free :
    (p : ℕ) (xs : List Slot) (i : ℕ) (fs : Option ℕ)
    → first p xs ≡ none
    → (scan p xs i fs).1 ≡ or_else fs (shift i (first 0 xs))
unfolding scan
scan-free p [] i none h = refl
scan-free p [] i (some j) h = refl
scan-free p (x ∷ xs) i none h =
    ground (arith, scan-free p xs (suc i) none, scan-free p xs (suc i) (some i))
scan-free p (x ∷ xs) i (some j) h = ground (arith, scan-free p xs (suc i) (some j))

-- The two searches of `lo_bind` in closed form.
pub bind_slots_lem :
    (p e : ℕ) (xs : List Slot)
    → bind_slots p e xs ≡ elim (or_else (first p xs) (first 0 xs)) [
      | none ↦ (no_mem, xs)
      | some k ↦ (ok, set xs k (record { port = p; fd = some e }))
    ]
unfolding bind_slots
bind_slots_lem p e xs = ground (arith, scan-found p xs 0 none, scan-free p xs 0 none)

find_target-set-first :
    (p e j : ℕ) (xs : List Slot) (k : ℕ)
    → first p xs ≡ some k
    → find_target j (set xs k (record { port = p; fd = some e }))
      ≡ (if p == j then some e else find_target j xs)
unfolding find_target
find_target-set-first p e j [] k h = absurd (ground arith)
find_target-set-first p e j (x ∷ xs) zero h = ground arith
find_target-set-first p e j (x ∷ xs) (suc k) h = ground (arith, find_target-set-first p e j xs k)

find_target-set_free :
    (p e j : ℕ) (xs : List Slot) (k : ℕ)
    → j ≢ 0
    → first p xs ≡ none
    → first 0 xs ≡ some k
    → find_target j (set xs k (record { port = p; fd = some e }))
      ≡ (if p == j then some e else find_target j xs)
unfolding find_target
find_target-set_free p e j [] k n h f = absurd (ground arith)
find_target-set_free p e j (x ∷ xs) zero n h f = ground arith
find_target-set_free p e j (x ∷ xs) (suc k) n h f = ground (arith, find_target-set_free p e j xs k)

-- A successful registration makes the port's target the entry, whoever held the port before, and
-- leaves the target of every other port but the unused 0 as it was.
pub find_target-bind_slots :
    (p e j : ℕ) (xs : List Slot)
    → j ≢ 0
    → (bind_slots p e xs).0 ≡ ok
    → find_target j (bind_slots p e xs).1 ≡ (if p == j then some e else find_target j xs)
find_target-bind_slots p e j xs n h = elim (Option-cases (first p xs)) [
  | inr (k, f) ↦ rw (bind_slots_lem p e xs, f) (find_target-set-first p e j xs k f)
  | inl f ↦ elim (Option-cases (first 0 xs)) [
    | inr (k, g) ↦ rw (bind_slots_lem p e xs, f, g) (find_target-set_free p e j xs k n f g)
    | inl g ↦ absurd (ground (arith, bind_slots_lem p e xs))
  ]
]

-- A registration either succeeds, or it fails with ESP_ERR_NO_MEM and changes nothing, and then the
-- port is in no slot and no slot is free.
pub bind_slots_full :
    (p e : ℕ) (xs : List Slot)
    → ((bind_slots p e xs).0 ≡ ok)
      ⊎ ((bind_slots p e xs ≡ (no_mem, xs)) × (first p xs ≡ none) × (first 0 xs ≡ none))
bind_slots_full p e xs = ground (arith, bind_slots_lem p e xs)

-- No port but 0 is in two slots.
abbrev pub Distinct : List Slot → Type 0
Distinct [] = Unit {0}
Distinct (x ∷ xs) = ((x.port ≡ 0) ⊎ (first x.port xs ≡ none)) × Distinct xs

first-set_ne :
    (p e j : ℕ) (xs : List Slot) (k : ℕ)
    → p ≢ j
    → first j xs ≡ none
    → first j (set xs k (record { port = p; fd = some e })) ≡ none
first-set_ne p e j [] k n h = refl
first-set_ne p e j (x ∷ xs) zero n h = ground arith
first-set_ne p e j (x ∷ xs) (suc k) n h = ground (arith, first-set_ne p e j xs k)

Distinct-set-first :
    (p e : ℕ) (xs : List Slot) (k : ℕ)
    → first p xs ≡ some k
    → Distinct xs
    → Distinct (set xs k (record { port = p; fd = some e }))
Distinct-set-first p e [] k h d = tt
Distinct-set-first p e (x ∷ xs) zero h d = ground arith
Distinct-set-first p e (x ∷ xs) (suc k) h d =
    ground (arith, Distinct-set-first p e xs k, first-set_ne p e x.port xs k)

Distinct-set_free :
    (p e : ℕ) (xs : List Slot) (k : ℕ)
    → first p xs ≡ none
    → first 0 xs ≡ some k
    → Distinct xs
    → Distinct (set xs k (record { port = p; fd = some e }))
Distinct-set_free p e [] k h f d = tt
Distinct-set_free p e (x ∷ xs) zero h f d = ground arith
Distinct-set_free p e (x ∷ xs) (suc k) h f d =
    ground (arith, Distinct-set_free p e xs k, first-set_ne p e x.port xs k)

-- If no port but 0 is in two slots, then none is after a registration.
pub bind_slots-Distinct : (p e : ℕ) (xs : List Slot) → Distinct xs → Distinct (bind_slots p e xs).1
bind_slots-Distinct p e xs d = elim (Option-cases (first p xs)) [
  | inr (k, f) ↦ rw (bind_slots_lem p e xs, f) (Distinct-set-first p e xs k f d)
  | inl f ↦ elim (Option-cases (first 0 xs)) [
    | inr (k, g) ↦ rw (bind_slots_lem p e xs, f, g) (Distinct-set_free p e xs k f g d)
    | inl g ↦ rw (bind_slots_lem p e xs, f, g) d
  ]
]

first-unbind_slots :
    (p e j : ℕ) (xs : List Slot) → j ≢ 0 → first j xs ≡ none → first j (unbind_slots p e xs) ≡ none
unfolding unbind_slots holds
first-unbind_slots p e j [] n h = refl
first-unbind_slots p e j (x ∷ xs) n h = ground (arith, first-unbind_slots p e j xs)

pub unbind_slots-Distinct :
    (p e : ℕ) (xs : List Slot) → Distinct xs → Distinct (unbind_slots p e xs)
unfolding unbind_slots holds
unbind_slots-Distinct p e [] d = tt
unbind_slots-Distinct p e (x ∷ xs) d =
    ground (arith, unbind_slots-Distinct p e xs, first-unbind_slots p e x.port xs)

pub find_target_of_first : (j : ℕ) (xs : List Slot) → first j xs ≡ none → find_target j xs ≡ none
unfolding find_target
find_target_of_first j [] h = refl
find_target_of_first j (x ∷ xs) h = ground (arith, find_target_of_first j xs)

-- If no port but 0 is in two slots, dropping a registration removes that port, if it points at the
-- entry, and changes the target of no other port but 0.
pub find_target-unbind_slots :
    (p e j : ℕ) (xs : List Slot)
    → j ≢ 0
    → Distinct xs
    → find_target j (unbind_slots p e xs)
      ≡ elim (find_target j xs) [ none ↦ none | some t ↦ if p == j && t == e then none else some t ]
unfolding find_target unbind_slots holds
find_target-unbind_slots p e j [] n d = refl
find_target-unbind_slots p e j (x ∷ xs) n d = ground (
  arith,
  find_target-unbind_slots p e j xs,
  first-unbind_slots p e j xs,
  find_target_of_first j xs,
  find_target_of_first j (unbind_slots p e xs),
)
