-- ===== src/Compat/Loopback/Refine.antt =====
-- The calls on the loopback (src/loopback.c, src/fd_table.c, and recvfrom of src/sock_wrap.c) as
-- steps on mailboxes.
pub mod Bind
pub mod Calls
use esp_smoltcp.Common.{
  pos, negsuc, ◌-◌, ℕ, ℤ, ◌≡◌, ◌≢◌, sym, ap, ◌∙◌, Bool, true, ◌&&◌, Option, none, some, List, [],
  ◌∷◌, ◌++◌, if◌then◌else◌, ltb, ◌==◌, is_natural, ◌%◌, arith, get_elem?, modify, length,
  get_elem?-modify_self, get_elem?-modify_ne, Bool-cases, Option-cases, inl, inr,
}
use esp_smoltcp.Types.{EspErr, is_ok, u16_mod}
use esp_smoltcp.Compat.State.{Kind, Msg, Entry, put_entry}
use esp_smoltcp.Compat.Env.{Env, State}
use esp_smoltcp.Compat.Loopback.{lo_bind, lo_unbind, lo_deliver, enqueue, find_target}
use esp_smoltcp.Compat.Loopback.Slots.{Distinct}
use esp_smoltcp.Compat.Loopback.Mailboxes.{
  Mail, put_box, Event, registered, unregistered, given_up, accepted, refused, handed,
  nothing_waits, made, closed, MailStep, posts, loses, takes, makes,
}
use esp_smoltcp.Compat.Fd.{fd_get, fd_alloc, fd_free}
use esp_smoltcp.Compat.Transfer.{recv_loopback}

module _ (env : Env) where
  open env use {config, offset, queue, Queue, Net, contents, capacity, send, receive}

  -- The datagrams that wait at an entry.
  abbrev pub box_of : Entry Queue → Option (List Msg)
  box_of r = elim r.lo_rx [ none ↦ none | some q ↦ some (contents q) ]

  abbrev pub box_at : ℕ → List (Entry Queue) → Option (List Msg)
  box_at e t = elim (get_elem? t e) [ none ↦ none | some r ↦ box_of r ]

  -- The slots and the queues show the mail, and no port is in two slots.
  pub record Shows (s : State env) (m : Mail) : Type 0 where
    pub distinct : Distinct s.slots
    pub owner : (p : ℕ) → p ≢ 0 → find_target p s.slots ≡ m.owner p
    pub box : (e : ℕ) → box_at e s.table ≡ m.box e

  abbrev pub bind_event : ℕ → ℕ → EspErr → Event
  bind_event port e r = if is_ok r then registered port e else unregistered e

  -- The datagram that `lo_deliver` makes of a buffer.
  abbrev pub message : ℕ → ℕ → List ℕ → Msg
  message src_be src_port buf = record {
    src_be = src_be;
    src_port = src_port;
    len = length buf % u16_mod;
    bytes = buf;
  }

  abbrev pub deliver_event : ℕ → Msg → ℤ → Event
  deliver_event port a r = if is_natural r then accepted port a else refused

  abbrev pub take_event : ℕ → Option (Msg × Queue) → Event
  take_event i none = nothing_waits i
  take_event i (some (a, q)) = handed i a

  abbrev pub alloc_event : ℤ → Event
  alloc_event (pos n) = made (n - offset)
  alloc_event (negsuc n) = refused

  abbrev pub close_event : Option (ℕ × Entry Queue) → Event
  close_event none = refused
  close_event (some (i, r)) = closed i

  -- A call on the loopback, what it reports, and the state that it leaves. A new queue is empty.
  pub data LoStep : State env → Event → State env → Type 0 where
    bind :
        {s : State env} (port e : ℕ) (created : Option Queue)
        → ((q : Queue) → created ≡ some q → contents q ≡ [])
        → LoStep s
            (bind_event port e (lo_bind queue port (some e) created s).0)
            (lo_bind queue port (some e) created s).1
    unbind : {s : State env} (port e : ℕ) → LoStep s (given_up port e) (lo_unbind queue port e s)
    deliver :
        {s : State env} (port src_be src_port : ℕ) (buf : List ℕ) (mem_ok : Bool)
        → port ≢ 0
        → LoStep s
            (deliver_event port
              (message src_be src_port buf)
              (lo_deliver queue port src_be src_port (some buf) mem_ok s).0)
            (lo_deliver queue port src_be src_port (some buf) mem_ok s).1
    take_one :
        {s : State env} (i cap : ℕ) (r : Entry Queue) (q : Queue) (fromlen : Option ℕ)
        → get_elem? s.table i ≡ some r
        → r.lo_rx ≡ some q
        → LoStep s (take_event i (receive q)) (recv_loopback env i r q cap fromlen none s).state
    alloc :
        {s : State env} (k : Kind)
        → LoStep s (alloc_event (fd_alloc env k s).0) (fd_alloc env k s).1
    close :
        {s : State env} (fd : ℤ)
        → LoStep s (close_event (fd_get config fd s.table)) (fd_free env fd s)

  pub box_at-modify :
      (t : List (Entry Queue)) (e j : ℕ) (r : Entry Queue) (f : Entry Queue → Entry Queue)
      → get_elem? t e ≡ some r
      → box_at j (modify t e f) ≡ (if e == j then box_of (f r) else box_at j t)
  box_at-modify t e j r f h = elim (Bool-cases (e == j)) [
    | inl same ↦ ground (arith, get_elem?-modify_self t e f r h)
    | inr other ↦ ground (arith, get_elem?-modify_ne t e j f)
  ]

  -- What a call that writes one entry does to the boxes.
  pub Shows-put_entry :
      (s : State env) (m : Mail) (e : ℕ) (r : Entry Queue) (f : Entry Queue → Entry Queue)
      → get_elem? s.table e ≡ some r
      → Shows s m
      → Shows (put_entry e f s) (put_box e (box_of (f r)) m)
  Shows-put_entry s m e r f h v = record {
    distinct = v.distinct;
    owner = v.owner;
    box = λ j.
        box_at-modify s.table e j r f h ∙ ap (λ b. if e == j then box_of (f r) else b) (v.box j);
  }

  -- A step on the mailboxes that the state shows afterwards.
  abbrev pub Refines : Mail → Event → State env → Type 0
  Refines m ev t = (m' : Mail) × MailStep m ev m' × Shows t m'

  -- A queue that takes an item has it at the end.
  contents-send :
      (a : Msg) (q : Queue) → (send a q).0 ≡ true → contents (send a q).1 ≡ contents q ++ a ∷ []
  contents-send a q h = elim (Bool-cases (ltb (length (contents q)) (capacity q))) [
    | inl room ↦ (queue.send_room a q (ground arith)).1
    | inr full ↦ absurd (ground (arith, queue.send_full a q))
  ]

  enqueue-Refines :
      (s : State env) (m : Mail) (port e : ℕ) (a : Msg) (mem_ok : Bool)
      → m.owner port ≡ some e
      → Shows s m
      → Refines m
          (deliver_event port a (enqueue queue e a mem_ok s).0)
          (enqueue queue e a mem_ok s).1
  unfolding enqueue
  enqueue-Refines s m port e a mem_ok o v = elim (Option-cases (get_elem? s.table e)) [
    | inl g ↦ rw (g, enqueue) (m, loses, v)
    | inr (r, g) ↦ elim (Option-cases r.lo_rx) [
      | inl x ↦ rw (g, enqueue) (rw x (m, loses, v))
      | inr (q, x) ↦ elim (Bool-cases (mem_ok && (send a q).0)) [
        | inr not_fit ↦ rw (g, enqueue) (rw x (rw not_fit (m, loses, v)))
        | inl fit ↦
            let took : (send a q).0 ≡ true = ground arith in
            let boxed : m.box e ≡ some (contents q) = sym (v.box e) ∙ ground (arith, g, x) in
            let put : Entry Queue → Entry Queue = λ y. record y { lo_rx = some (send a q).1 } in
            rw (g, enqueue)
              (rw x (
                rw fit (
                  put_box e (some (contents q ++ a ∷ [])) m,
                  posts port e a (contents q) o boxed,
                  rw (← contents-send a q took) (Shows-put_entry s m e r put g v),
                )))
      ]
    ]
  ]

  pub deliver-Refines :
      (s : State env) (m : Mail) (port src_be src_port : ℕ) (buf : List ℕ) (mem_ok : Bool)
      → port ≢ 0
      → Shows s m
      → Refines m
          (deliver_event port
            (message src_be src_port buf)
            (lo_deliver queue port src_be src_port (some buf) mem_ok s).0)
          (lo_deliver queue port src_be src_port (some buf) mem_ok s).1
  unfolding lo_deliver
  deliver-Refines s m port src_be src_port buf mem_ok n v =
      elim (Bool-cases (ltb 65535 (length buf))) [
        | inl big ↦ rw (big, lo_deliver) (m, loses, v)
        | inr fits ↦ elim (Option-cases (find_target port s.slots)) [
          | inl f ↦ rw (fits, f, lo_deliver) (m, loses, v)
          | inr (e, f) ↦
              rw (fits, f, lo_deliver)
                (enqueue-Refines s m port e (message src_be src_port buf) mem_ok
                  (sym (v.owner port n) ∙ f) v)
        ]
      ]
