-- ===== src/Compat/Loopback.antt =====
-- src/loopback.c: datagrams to 127.0.0.0/8, kept in memory. `s_slots` maps a port to the entry
-- bound to it, and each bound entry has a queue of at most 8 datagrams.
pub mod Slots
pub mod Datagrams
pub mod Mailboxes
pub mod Refine
mod Tests
use esp_smoltcp.Common.{
  ℕ, zero, suc, ℤ, pos, minus_one, Bool, true, false, ◌&&◌, Option, none, some, List, [], ◌∷◌,
  if◌then◌else◌, ltb, ◌==◌, ◌%◌, length, get_elem?, set, modify, QueueApi,
}
use esp_smoltcp.Types.{EspErr, ok, invalid_arg, no_mem, u16_mod}
use esp_smoltcp.Compat.State.{Msg, Entry, Slot, empty_slot, Compat, put_entry}

-- LO_PORT_SLOTS and LO_QUEUE_DEPTH
abbrev pub lo_port_slots : ℕ
lo_port_slots = 4

abbrev pub lo_queue_depth : ℕ
lo_queue_depth = 8

-- `(ip_be & 0xFF) == 127`
abbrev pub is_loopback_ip : ℕ → Bool
is_loopback_ip ip_be = ip_be % 256 == 127

-- The loop of `lo_bind`: the index of the slot that holds `port`, and the first free one passed.
-- `i` is the loop's index, `free_slot` is `none` for -1.
unfoldable pub scan : ℕ → List Slot → ℕ → Option ℕ → Option ℕ × Option ℕ
scan port [] i free_slot = (none, free_slot)
scan port (x ∷ xs) i free_slot =
    if x.port == port
    then (some i, free_slot)
    else scan port xs (suc i)
        (elim free_slot [ none ↦ if x.port == 0 then some i else none | some j ↦ some j ])

-- What `lo_bind` does to `s_slots`.
unfoldable pub bind_slots : ℕ → ℕ → List Slot → EspErr × List Slot
bind_slots port e slots = elim (scan port slots 0 none).0 [
  | some i ↦ (ok, set slots i (record { port = port; fd = some e }))
  | none ↦ elim (scan port slots 0 none).1 [
    | none ↦ (no_mem, slots)
    | some i ↦ (ok, set slots i (record { port = port; fd = some e }))
  ]
]

-- `s_slots[i].port == port && s_slots[i].fd == e`
unfoldable pub holds : ℕ → ℕ → Slot → Bool
holds port e x = x.port == port && elim x.fd [ none ↦ false | some j ↦ j == e ]

-- The loop of `lo_unbind`.
unfoldable pub unbind_slots : ℕ → ℕ → List Slot → List Slot
unbind_slots port e [] = []
unbind_slots port e (x ∷ xs) = (if holds port e x then empty_slot else x) ∷ unbind_slots port e xs

-- The loop of `lo_deliver`: the entry of the first slot with that port.
unfoldable pub find_target : ℕ → List Slot → Option ℕ
find_target port [] = none
find_target port (x ∷ xs) = if x.port == port then x.fd else find_target port xs

module _ (qs : QueueApi Msg) where
  open qs use {Queue, send, receive, waiting}

  -- `while (xQueueReceive(...) == pdTRUE) free(m)`, on fuel.
  unfoldable pub drain : ℕ → Queue → Queue
  drain zero q = q
  drain (suc n) q = elim (receive q) [ none ↦ q | some (m, q') ↦ drain n q' ]

  -- What the end of `lo_unbind` does to the entry.
  unfoldable pub drain_entry : Entry Queue → Entry Queue
  drain_entry r = elim r.lo_rx [
    | none ↦ r
    | some q ↦ record r { lo_rx = some (drain (suc (waiting q)) q) }
  ]

  module _ {N : Type 0} where
    abbrev pub bound : ℕ → ℕ → Queue → Compat Queue N → Compat Queue N
    bound port e q s = record s {
      table = modify s.table e (λ r. record r { lo_rx = some q; loopback = true });
      slots = (bind_slots port e s.slots).1;
    }

    -- `created` is what xQueueCreate returns, if it is called. The table always holds `e`.
    unfoldable pub lo_bind : ℕ → Option ℕ → Option Queue → Compat Queue N → EspErr × Compat Queue N
    lo_bind port none created s = (invalid_arg, s)
    lo_bind port (some e) created s =
        if port == 0 then (invalid_arg, s) else elim (get_elem? s.table e) [
          | none ↦ (invalid_arg, s)
          | some r ↦ elim r.lo_rx [
            | some q ↦ ((bind_slots port e s.slots).0, bound port e q s)
            | none ↦ elim created [
              | none ↦ (no_mem, s)
              | some q ↦ ((bind_slots port e s.slots).0, bound port e q s)
            ]
          ]
        ]

    unfoldable pub lo_unbind : ℕ → ℕ → Compat Queue N → Compat Queue N
    lo_unbind port e s = record s {
      table = modify s.table e drain_entry;
      slots = unbind_slots port e s.slots;
    }

    -- The part of `lo_deliver` behind the search. `mem_ok` tells that `malloc` succeeds.
    unfoldable pub enqueue : ℕ → Msg → Bool → Compat Queue N → ℤ × Compat Queue N
    enqueue e m mem_ok s = elim (get_elem? s.table e) [
      | none ↦ (minus_one, s)
      | some r ↦ elim r.lo_rx [
        | none ↦ (minus_one, s)
        | some q ↦
            if mem_ok && (send m q).0
            then (pos (length m.bytes), put_entry e (λ r. record r { lo_rx = some (send m q).1 }) s)
            else (minus_one, s)
      ]
    ]

    -- `buf` is `none` for NULL.
    unfoldable pub lo_deliver :
        ℕ → ℕ → ℕ → Option (List ℕ) → Bool → Compat Queue N → ℤ × Compat Queue N
    lo_deliver dst_port src_be src_port none mem_ok s = (minus_one, s)
    lo_deliver dst_port src_be src_port (some buf) mem_ok s =
        if ltb 65535 (length buf) then (minus_one, s) else elim (find_target dst_port s.slots) [
          | none ↦ (minus_one, s)
          | some e ↦
              enqueue e
                (record {
                  src_be = src_be;
                  src_port = src_port;
                  len = length buf % u16_mod;
                  bytes = buf;
                })
                mem_ok s
        ]
