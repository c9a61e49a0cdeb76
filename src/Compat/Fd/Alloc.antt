-- ===== src/Compat/Fd/Alloc.antt =====
-- src/fd_table.c: what fd_alloc and fd_free do to the descriptors.
use esp_smoltcp.Common.{
  ℕ, suc, ℤ, pos, negsuc, minus_one, ◌+◌, ◌-◌, ◌≡◌, ◌≢◌, refl, none, some, List, [], ◌∷◌, arith,
  get_elem?, ap, inl, inr, ◌⊎◌, true, false, Option-cases, Bool-cases, All, sym, ◌∙◌,
  get_elem?-set_self, get_elem?-set_ne, lt-length_of_some,
}
use esp_smoltcp.Compat.State.{Kind, is_free, Entry, Config}
use esp_smoltcp.Compat.Env.{Env, State}
use esp_smoltcp.Compat.Fd.{
  slot_of, fd_get, first_free, fresh_entry, fd_default_iface, fd_alloc, fd_is_socket,
}

pub first_free-some :
    {Q : Type 0} (xs : List (Entry Q)) (i : ℕ)
    → first_free xs ≡ some i
    → (r : Entry Q) × (get_elem? xs i ≡ some r) × (is_free r.kind ≡ true)
unfolding first_free
first_free-some [] i h = absurd (ground arith)
first_free-some (r ∷ rs) i h = elim (Bool-cases (is_free r.kind)) [
  | inl f ↦ let z : i ≡ 0 = ground arith in (r, rw z refl, f)
  | inr f ↦ elim (Option-cases (first_free rs)) [
    | inl e ↦ absurd (ground arith)
    | inr (k, e) ↦
        let z : i ≡ suc k = ground arith in let (x, g, u) = first_free-some rs k e in (x, rw z g, u)
  ]
]

first_free-none :
    {Q : Type 0} (xs : List (Entry Q))
    → first_free xs ≡ none
    → All (λ (r : Entry Q). is_free r.kind ≡ false) xs
unfolding first_free
first_free-none [] h = tt
first_free-none (r ∷ rs) h = ground (arith, first_free-none rs)

-- fd_is_socket and fd_get agree on every table: a descriptor is a socket exactly if it has an
-- entry.
pub fd_is_socket-fd_get :
    {Q : Type 0} (cfg : Config) (fd : ℤ) (table : List (Entry Q))
    → fd_is_socket cfg fd table ≡ elim (fd_get cfg fd table) [ none ↦ false | some _ ↦ true ]
unfolding fd_is_socket fd_get
fd_is_socket-fd_get cfg fd table = ground arith

-- What a found descriptor tells about the table.
pub fd_get_inv :
    {Q : Type 0} (cfg : Config) (fd : ℤ) (table : List (Entry Q)) (i : ℕ) (r : Entry Q)
    → fd_get cfg fd table ≡ some (i, r)
    → (slot_of cfg fd ≡ some i) × (get_elem? table i ≡ some r) × (is_free r.kind ≡ false)
unfolding fd_get
fd_get_inv cfg fd table i r h = elim (Option-cases (slot_of cfg fd)) [
  | inl e ↦ absurd (ground arith)
  | inr (j, e) ↦ elim (Option-cases (get_elem? table j)) [
    | inl g ↦ absurd (ground arith)
    | inr (x, g) ↦ ground arith
  ]
]

pub slot_of_inv :
    (cfg : Config) (fd : ℤ) (i : ℕ) → slot_of cfg fd ≡ some i → fd ≡ pos (cfg.offset + i)
unfolding slot_of
slot_of_inv cfg (pos n) i h = let z : n ≡ cfg.offset + i = ground arith in ap pos z
slot_of_inv cfg (negsuc n) i h = absurd (ground arith)

-- Tables that differ at one place differ for one descriptor.
pub fd_get_other :
    {Q : Type 0} (cfg : Config) (fd : ℤ) (i : ℕ) (t u : List (Entry Q))
    → fd ≢ pos (cfg.offset + i)
    → ((j : ℕ) → j ≢ i → get_elem? t j ≡ get_elem? u j)
    → fd_get cfg fd t ≡ fd_get cfg fd u
unfolding fd_get
fd_get_other cfg fd i t u ne same = elim (Option-cases (slot_of cfg fd)) [
  | inl e ↦ rw (e, fd_get) refl
  | inr (j, e) ↦
      let differ : j ≢ i =
        λ z. ne (slot_of_inv cfg fd j e ∙ ap (λ (k : ℕ). pos (cfg.offset + k)) z) in
      rw (e, fd_get) (ground (arith, same j differ))
]

module _ (env : Env) where
  open env use {config, offset, Queue, Net}

  -- The entry that a fresh descriptor has.
  abbrev pub fresh_at : Kind → State env → Entry Queue
  fresh_at k s = fresh_entry k (fd_default_iface env s.net)

  -- A successful allocation of a kind other than FD_FREE returns a descriptor that was not in use,
  -- whose entry is now the fresh one with the default interface; every other descriptor keeps its
  -- entry, and the loopback slots and the network stay as they were.
  pub fd_alloc_fresh :
      (k : Kind) (s : State env) (n : ℕ) (other : ℤ)
      → is_free k ≡ false
      → (fd_alloc env k s).0 ≡ pos n
      → other ≢ pos n
      → let t = (fd_alloc env k s).1 in
        (fd_get config (pos n) s.table ≡ none)
        × (fd_get config (pos n) t.table ≡ some (n - offset, fresh_at k s))
        × (fd_get config other t.table ≡ fd_get config other s.table)
        × (t.slots ≡ s.slots)
        × (t.net ≡ s.net)
  unfolding fd_alloc fd_get
  fd_alloc_fresh k s n other used h ne = elim (Option-cases (first_free s.table)) [
    | inl e ↦ absurd (ground arith)
    | inr (i, e) ↦
        let (r, g, f) = first_free-some s.table i e in
        let z : n ≡ offset + i = ground arith in
        let small = lt-length_of_some s.table i r g in
        let new = get_elem?-set_self s.table i (fresh_at k s) small in
        (
          ground arith,
          ground (arith, new),
          rw (e, fd_alloc)
              (fd_get_other config other i _ s.table (λ p. ne (p ∙ ap pos (sym z)))
                (λ j d. get_elem?-set_ne s.table i j (fresh_at k s) (λ q. d (sym q)))),
          ground arith,
          ground arith,
        )
  ]

  -- Allocation either fails with -1, changes nothing and finds every entry of the table in use, or
  -- it returns a descriptor that had no entry.
  pub fd_alloc_full :
      (k : Kind) (s : State env)
      → ((fd_alloc env k s ≡ (minus_one, s))
          × All (λ (r : Entry Queue). is_free r.kind ≡ false) s.table)
        ⊎ ((n : ℕ) × ((fd_alloc env k s).0 ≡ pos n) × (fd_get config (pos n) s.table ≡ none))
  unfolding fd_alloc fd_get
  fd_alloc_full k s = elim (Option-cases (first_free s.table)) [
    | inl e ↦ inl (rw (e, fd_alloc) refl, first_free-none s.table e)
    | inr (i, e) ↦
        let (r, g, f) = first_free-some s.table i e in
        inr (offset + i, rw (e, fd_alloc) refl, ground arith)
  ]
