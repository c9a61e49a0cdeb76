-- ===== src/Core/Resolve.antt =====
-- components/esp_smoltcp_glue/src/dns.rs: smoltcp_resolve. The clock is the list of its readings,
-- as a function: each call of `now` takes the next one.
pub mod Settles
pub mod Quads
pub mod Replies
use Prim.Native.Nat.{bit_and}
use esp_smoltcp.Common.{
  ℕ, zero, suc, ◌+◌, ◌*◌, ℤ, pos, minus_one, Bool, true, false, ◌&&◌, ◌||◌, Option, none, some,
  List, [], ◌∷◌, ltb, leb, ◌==◌, if◌then◌else◌, length,
}
use esp_smoltcp.Compat.Inet.{Text, split_dots, parse_digits, digit_zero}
use esp_smoltcp.Core.Outcome.{Outcome, value, stop, panic, hang, ◌>>=◌}
use esp_smoltcp.Core.Device.{TxPool, Phy, run_calls}
use esp_smoltcp.Core.Crate.{Crate, query_socket}
use esp_smoltcp.Core.Ctx.{IfaceCtx, ipv4_from_be, from_le_bytes}
use esp_smoltcp.Core.Ctx.Sock.{dynamic_port}
use esp_smoltcp.Core.Dns.{build_query, parse_a_response}

-- `parse::<Ipv4Addr>`: four parts of one to three digits, none with a zero in front, each below 256.
abbrev zero_prefix : Text → Bool
zero_prefix [] = false
zero_prefix (c ∷ []) = false
zero_prefix (c ∷ d ∷ cs) = c == digit_zero

unfoldable pub parse_octet : Text → Option ℕ
parse_octet p =
    if length p == 0 || ltb 3 (length p) || zero_prefix p then none else parse_digits p 0

unfoldable pub parse_parts : List Text → Option (List ℕ)
parse_parts (a ∷ b ∷ c ∷ d ∷ []) = elim (parse_octet a) [
  | none ↦ none
  | some i ↦ elim (parse_octet b) [
    | none ↦ none
    | some j ↦ elim (parse_octet c) [
      | none ↦ none
      | some k ↦ elim (parse_octet d) [ none ↦ none | some l ↦ some (i ∷ j ∷ k ∷ l ∷ []) ]
    ]
  ]
]
parse_parts _ = none

unfoldable pub parse_quad : Text → Option (List ℕ)
parse_quad s = parse_parts (split_dots s)

-- What the loop does with a datagram: `some` breaks it.
unfoldable pub read_reply : Option (List ℕ) → ℕ → Outcome (Option (List ℕ))
read_reply none id = value none
read_reply (some pkt) id = elim (parse_a_response pkt id) [
  | value octets ↦ value (some octets)
  | stop ↦ value none
  | panic ↦ panic
  | hang ↦ hang
]

module _ (crate : Crate) where
  open crate use {Interface, Sockets, Handle, poll, add, remove, can_bind, can_send_to, udp_recv}

  -- What the loop changes.
  pub record Probe : Type 0 where
    pub iface : Interface
    pub sockets : Sockets
    pub phy : Phy

  -- One round at the time `now`: the poll, and the datagram received.
  unfoldable pub probe : ℕ → Handle → ℕ → Probe → Outcome (Option (List ℕ) × Probe)
  probe now h id s = do
    r ← run_calls (poll now s.iface s.sockets) s.phy
    let (got, sockets) = udp_recv h 512 r.0.1
    found ← read_reply (elim got [ none ↦ none | some (pkt, _, _) ↦ some pkt ]) id
    value (found, record { iface = r.0.0; sockets = sockets; phy = r.1 })

  -- The loop, with the number of readings of the clock so far.
  unfoldable pub resolve_loop :
      ℕ → (ℕ → ℕ) → ℕ → ℕ → Handle → ℕ → Probe → Outcome (Option (List ℕ) × Probe)
  resolve_loop zero clock t deadline h id s = hang
  resolve_loop (suc n) clock t deadline h id s = do
    r ← probe (clock t) h id s
    elim r.0 [
      | some addr ↦ value (some addr, r.1)
      | none ↦ elim (leb deadline (clock (suc t))) [
        | true ↦ value (none, r.1)
        | false ↦ resolve_loop n clock (suc (suc t)) deadline h id r.1
      ]
    ]

  -- What is returned and stored in `*out_be`, and the interface, the pool and the frames sent after.
  pub record Resolved : Type 0 where
    pub code : ℤ
    pub out_be : Option ℕ
    pub ctx : IfaceCtx crate
    pub pool : TxPool
    pub sent : List (ℕ × List ℕ)

  abbrev pub refused : IfaceCtx crate → TxPool → Resolved
  refused x pool = record { code = minus_one; out_be = none; ctx = x; pool = pool; sent = [] }

  -- The end: the socket is removed, and the address stored.
  unfoldable pub conclude : IfaceCtx crate → Handle → Option (List ℕ) → Probe → Resolved
  conclude x h found s = record {
    code = elim found [ some addr ↦ pos 0 | none ↦ minus_one ];
    out_be = elim found [ some addr ↦ some (from_le_bytes addr) | none ↦ none ];
    ctx = record x { iface = s.iface; sockets = remove h s.sockets; dev = s.phy.dev };
    pool = s.phy.pool;
    sent = s.phy.sent;
  }

  -- From the query on: the socket is added, the loop runs, the socket is removed.
  unfoldable pub ask :
      ℕ → (ℕ → ℕ) → ℕ → ℕ → List ℕ → ℕ → ℕ → IfaceCtx crate → TxPool → Outcome Resolved
  ask fuel clock local id query server_be timeout_ms x pool =
      let (h, sockets) = add (query_socket local query (ipv4_from_be server_be)) x.sockets in
      let start : Probe = record {
        iface = x.iface;
        sockets = sockets;
        phy = record { dev = x.dev; pool = pool; sent = [] };
      } in
      do
        r ← resolve_loop fuel clock 1 (clock 0 + timeout_ms * 1000) h id start
        value (conclude x h r.0 r.1)

  -- smoltcp_resolve of a name in UTF-8, where no pointer is NULL. `id_rand` and `port_rand` are what
  -- smoltcp_glue_rand32 returns.
  unfoldable pub smoltcp_resolve :
      ℕ → (ℕ → ℕ) → ℕ → ℕ → Text → ℕ → ℕ → IfaceCtx crate → TxPool → Outcome Resolved
  smoltcp_resolve fuel clock id_rand port_rand name server_be timeout_ms x pool =
      elim (parse_quad name) [
        | some octets ↦
            value (record (refused x pool) { code = pos 0; out_be = some (from_le_bytes octets) })
        | none ↦
            let id = bit_and id_rand 0xFFFF in
            let local = dynamic_port port_rand in
            elim (build_query id name) [
              | none ↦ value (refused x pool)
              | some query ↦ elim (can_bind local && can_send_to query (ipv4_from_be server_be)) [
                | false ↦ value (refused x pool)
                | true ↦ ask fuel clock local id query server_be timeout_ms x pool
              ]
            ]
      ]
