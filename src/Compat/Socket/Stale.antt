-- ===== src/Compat/Socket/Stale.antt =====
-- A loopback registration that outlives its descriptor (src/sock_wrap.c, src/fd_table.c).
use esp_smoltcp.Common.{
  ℕ, ℤ, pos, ◌≡◌, ◌≢◌, refl, none, some, List, arith, modify, true, false, ◌≤◌, ap,
  get_elem?-modify_self,
}
use esp_smoltcp.Compat.State.{udp, is_free, Entry, put_entry}
use esp_smoltcp.Compat.Env.{Env, State}
use esp_smoltcp.Compat.Address.{SockAddr, swap16, sizeof_sockaddr_in}
use esp_smoltcp.Compat.Loopback.{lo_unbind, find_target}
use esp_smoltcp.Compat.Loopback.Slots.{Distinct, find_target-unbind_slots}
use esp_smoltcp.Compat.Fd.{fd_get, release_loopback, fd_free}
use esp_smoltcp.Compat.Fd.Alloc.{fd_get_inv}
use esp_smoltcp.Compat.Fd.Close.{fd_get-fd_free_self}
use esp_smoltcp.Compat.Socket.{connect}

module _ (env : Env) where
  open env use {config, Queue}

  -- A write to a descriptor's entry that keeps it in use.
  pub fd_get-modify :
      (fd : ℤ) (t : List (Entry Queue)) (i : ℕ) (r : Entry Queue) (f : Entry Queue → Entry Queue)
      → fd_get config fd t ≡ some (i, r)
      → is_free (f r).kind ≡ false
      → fd_get config fd (modify t i f) ≡ some (i, f r)
  unfolding fd_get
  fd_get-modify fd t i r f h u =
      let (found, there, used) = fd_get_inv config fd t i r h in
      rw (found, fd_get) (ground (arith, get_elem?-modify_self t i f r there))

  -- In a slot table with no port in two slots, closing a loopback descriptor that is registered for
  -- the port it is bound to drops that registration.
  pub fd_free_unregisters :
      (fd : ℤ) (s : State env) (i : ℕ) (r : Entry Queue)
      → fd_get config fd s.table ≡ some (i, r)
      → Distinct s.slots
      → r.loopback ≡ true
      → r.local_port ≢ 0
      → find_target r.local_port s.slots ≡ some i
      → find_target r.local_port (fd_free env fd s).slots ≡ none
  unfolding fd_free release_loopback lo_unbind
  fd_free_unregisters fd s i r e d lo n t =
      rw (e, fd_free) (ground (arith, find_target-unbind_slots r.local_port i r.local_port s.slots))

  -- Take a loopback UDP descriptor registered for the port it is bound to, in a slot table with no
  -- port in two slots. connect to another port succeeds and overwrites the bound port; after the
  -- close that follows, the descriptor is unknown, but the slot of the old port still names its
  -- entry.
  pub connect_close_leaves_stale :
      (fd : ℤ) (s : State env) (i : ℕ) (r : Entry Queue) (addr : SockAddr) (alen : ℕ)
      → fd_get config fd s.table ≡ some (i, r)
      → r.kind ≡ udp
      → r.loopback ≡ true
      → Distinct s.slots
      → r.local_port ≢ 0
      → find_target r.local_port s.slots ≡ some i
      → sizeof_sockaddr_in ≤ alen
      → swap16 addr.port_be ≢ r.local_port
      → let t = fd_free env fd (connect env fd addr alen s).1 in
        ((connect env fd addr alen s).0 ≡ pos 0)
        × (fd_get config fd t.table ≡ none)
        × (find_target r.local_port t.slots ≡ some i)
  unfolding connect fd_free release_loopback lo_unbind
  connect_close_leaves_stale fd s i r addr alen e k lo d n t room ne =
      let connected : Entry Queue → Entry Queue = λ x. record x {
        local_ipv4_be = addr.addr_be;
        local_port = swap16 addr.port_be;
        connected = true;
      } in
      let u : State env = put_entry i connected s in
      let again = fd_get-modify fd s.table i r connected e (rw k refl) in
      let ran : connect env fd addr alen s ≡ (pos 0, u) = rw (e, connect) (rw k (ground arith)) in
      (
        ap (λ (p : ℤ × State env). p.0) ran,
        rw (ap (λ (p : ℤ × State env). p.1) ran) (fd_get-fd_free_self env fd u),
        rw (ap (λ (p : ℤ × State env). p.1) ran) (
            rw (again, fd_free)
              (ground
                (arith, find_target-unbind_slots (swap16 addr.port_be) i r.local_port s.slots))),
      )
