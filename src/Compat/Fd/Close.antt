-- ===== src/Compat/Fd/Close.antt =====
-- src/fd_table.c: what fd_free does to the descriptors.
use esp_smoltcp.Common.{
  ℕ, ℤ, ◌≡◌, ◌≢◌, refl, sym, ◌∙◌, none, some, List, arith, modify, get_elem?, inl, inr, false,
  Option-cases, get_elem?-modify, get_elem?-modify_ne,
}
use esp_smoltcp.Compat.State.{free, Entry, Config}
use esp_smoltcp.Compat.Env.{Env, State}
use esp_smoltcp.Compat.Loopback.{lo_unbind, drain_entry}
use esp_smoltcp.Compat.Fd.{slot_of, fd_get, release_loopback, fd_free}
use esp_smoltcp.Compat.Fd.Alloc.{fd_get_inv, fd_get_other, slot_of_inv}

abbrev freed : {Q : Type 0} → Entry Q → Entry Q
freed x = record x { kind = free }

fd_get-freed :
    {Q : Type 0} (cfg : Config) (fd : ℤ) (i : ℕ) (t : List (Entry Q))
    → slot_of cfg fd ≡ some i
    → fd_get cfg fd (modify t i freed) ≡ none
unfolding fd_get
fd_get-freed cfg fd i t e = rw (e, fd_get) (ground (arith, get_elem?-modify t i freed))

module _ (env : Env) where
  open env use {config, Queue}

  -- Releasing the loopback registration touches the table at one entry only.
  release_loopback_other :
      (i j : ℕ) (r : Entry Queue) (s : State env)
      → j ≢ i
      → get_elem? (release_loopback env i r s).table j ≡ get_elem? s.table j
  unfolding release_loopback lo_unbind
  release_loopback_other i j r s ne =
      let ne' : i ≢ j = λ q. ne (sym q) in
      let unbound = modify s.table i (drain_entry env.queue) in
      let reset : Entry Queue → Entry Queue = λ x. record x { lo_rx = none; loopback = false } in
      ground (
        arith,
        get_elem?-modify_ne s.table i j (drain_entry env.queue) ne',
        get_elem?-modify_ne unbound i j reset ne',
      )

  -- A closed descriptor has no entry.
  pub fd_get-fd_free_self :
      (fd : ℤ) (s : State env) → fd_get config fd (fd_free env fd s).table ≡ none
  unfolding fd_free
  fd_get-fd_free_self fd s = elim (Option-cases (fd_get config fd s.table)) [
    | inl e ↦ rw (e, fd_free) e
    | inr ((i, r), e) ↦
        let (found, there, used) = fd_get_inv config fd s.table i r e in
        rw (e, fd_free) (fd_get-freed config fd i (release_loopback env i r s).table found)
  ]

  -- After the close of a descriptor, in use or not, it has no entry, and every other descriptor
  -- has the entry that it had.
  pub fd_get-fd_free :
      (fd other : ℤ) (s : State env)
      → other ≢ fd
      → (fd_get config fd (fd_free env fd s).table ≡ none)
        × (fd_get config other (fd_free env fd s).table ≡ fd_get config other s.table)
  unfolding fd_free
  fd_get-fd_free fd other s ne = elim (Option-cases (fd_get config fd s.table)) [
    | inl e ↦ rw (e, fd_free) (e, refl)
    | inr ((i, r), e) ↦
        let (found, there, used) = fd_get_inv config fd s.table i r e in
        let released = (release_loopback env i r s).table in
        (
          fd_get-fd_free_self fd s,
          rw (e, fd_free)
              (fd_get_other config other i _ s.table
                (λ p. ne (p ∙ sym (slot_of_inv config fd i found)))
                (λ j d.
                  get_elem?-modify_ne released i j freed (λ q. d (sym q))
                  ∙ release_loopback_other i j r s d)),
        )
  ]
