-- ===== src/Core/Resolve/Settles.antt =====
-- components/esp_smoltcp_glue/src/dns.rs: smoltcp_resolve ends, whatever it receives.
use Prim.Native.Nat.{bit_and}
use esp_smoltcp.Common.{
  ℕ, zero, suc, ◌+◌, ◌*◌, ◌≡◌, ◌≤◌, ◌<◌, refl, ◌∙◌, ap, ◌⊎◌, inl, inr, pos, minus_one, false, ◌&&◌,
  Option, none, some, List, [], Bool-cases, Option-cases, leb, arith,
}
use esp_smoltcp.Compat.Inet.{Text}
use esp_smoltcp.Core.Outcome.{value, then_value}
use esp_smoltcp.Core.Device.{TxPool, Phy, trailing_zeros, Calls, finish, receives, transmits}
use esp_smoltcp.Core.Device.Pool.{Fits, ideal, run_calls-ideal}
use esp_smoltcp.Core.Crate.{Crate, query_socket}
use esp_smoltcp.Core.Ctx.{IfaceCtx, ipv4_from_be, from_le_bytes}
use esp_smoltcp.Core.Ctx.Sock.{dynamic_port}
use esp_smoltcp.Core.Dns.{build_query}
use esp_smoltcp.Core.Dns.Safe.{parse_a_response-Returns}
use esp_smoltcp.Core.Resolve.{
  parse_quad, read_reply, Probe, probe, resolve_loop, Resolved, refused, conclude, ask,
  smoltcp_resolve,
}

-- A poll leaves the pool as it was.
pool-ideal : {A : Type 0} (c : Calls A) (p : Phy) → (ideal c p).1.pool ≡ p.pool
pool-ideal (finish a) p = refl
pool-ideal (receives empty use_of rest) p = elim (Option-cases p.dev.rx_inbox) [
  | inl e ↦ rw (e, ideal) (pool-ideal empty p)
  | inr (frame, e) ↦ rw (e, ideal) (pool-ideal (rest frame) _)
]
pool-ideal (transmits empty u rest) p = elim (Bool-cases p.dev.link_up) [
  | inl e ↦ rw (e, ideal) (pool-ideal rest _)
  | inr e ↦ rw (e, ideal) (pool-ideal empty p)
]

read_reply_returns :
    (got : Option (List ℕ)) (id : ℕ) → (found : Option (List ℕ)) × (read_reply got id ≡ value found)
unfolding read_reply
read_reply_returns none id = (none, refl)
read_reply_returns (some pkt) id = elim (parse_a_response-Returns pkt id) [
  | inl e ↦ (none, rw (e, read_reply) refl)
  | inr (octets, e, four) ↦ (some octets, rw (e, read_reply) refl)
]

-- A check that fails is not the last: another round follows, whose check is the next but one.
later :
    (m deadline : ℕ) (clock : ℕ → ℕ) (t : ℕ)
    → leb deadline (clock (suc t)) ≡ false
    → deadline ≤ clock (suc t + 2 * m)
    → (k : ℕ) × (m ≡ suc k)
later zero deadline clock t b late =
    let e : suc t + 2 * 0 ≡ suc t = omega arith in
    let here : deadline ≤ clock (suc t) = rw (← ap clock e) late in absurd (ground arith)
later (suc k) deadline clock t b late = (k, refl)

next_check : (k m t : ℕ) → m ≡ suc k → suc t + 2 * m ≡ suc (suc (suc t)) + 2 * k
next_check k m t e = omega arith

module _ (crate : Crate) where
  -- A resolution that ends: with the first address found, or with -1. The pool is as it was.
  pub record Settled (pool : TxPool) (r : Resolved crate) : Type 0 where
    pub same_pool : r.pool ≡ pool
    pub answer :
        ((r.code ≡ minus_one) × (r.out_be ≡ none))
        ⊎ ((r.code ≡ pos 0) × (addr : ℕ) × (r.out_be ≡ some addr))

  conclude-Settled :
      (x : IfaceCtx crate) (h : crate.Handle) (found : Option (List ℕ)) (s : Probe crate)
      → Settled s.phy.pool (conclude crate x h found s)
  unfolding conclude
  conclude-Settled x h none s = record { same_pool = refl; answer = inl (refl, refl) }
  conclude-Settled x h (some addr) s = record { same_pool = refl; answer = inr (refl, _, refl) }

module _ (crate : Crate)
    (fits : (now : ℕ) (i : crate.Interface) (s : crate.Sockets) → Fits (crate.poll now i s)) where
  -- A round returns, with the pool as it was.
  probe_returns :
      (now : ℕ) (h : crate.Handle) (id i : ℕ) (s : Probe crate)
      → trailing_zeros s.phy.pool ≡ some i
      → (found : Option (List ℕ)) × (t : Probe crate) × (probe crate now h id s ≡ value (found, t))
        × (t.phy.pool ≡ s.phy.pool)
  unfolding probe
  probe_returns now h id i s free =
      let ran =
        run_calls-ideal (crate.poll now s.iface s.sockets) s.phy i (fits now s.iface s.sockets)
          free in
      let r = ideal (crate.poll now s.iface s.sockets) s.phy in
      let (got, sockets) = crate.udp_recv h 512 r.0.1 in
      let (found, e) =
        read_reply_returns (elim got [ none ↦ none | some (pkt, _, _) ↦ some pkt ]) id in
      (
        found,
        record { iface = r.0.0; sockets = sockets; phy = r.1 },
        then_value _ ran (then_value _ e refl),
        pool-ideal (crate.poll now s.iface s.sockets) s.phy,
      )

  -- The loop returns in the round whose second reading of the clock has reached the deadline.
  resolve_loop_returns :
      (n m : ℕ) (clock : ℕ → ℕ) (t deadline : ℕ) (h : crate.Handle) (id i : ℕ) (s : Probe crate)
      → m < n
      → deadline ≤ clock (suc t + 2 * m)
      → trailing_zeros s.phy.pool ≡ some i
      → (found : Option (List ℕ)) × (r : Probe crate) × (resolve_loop crate n clock t deadline h id
            s
          ≡ value (found, r))
        × (r.phy.pool ≡ s.phy.pool)
  unfolding resolve_loop
  resolve_loop_returns zero m clock t deadline h id i s lt late free = absurd (omega arith)
  resolve_loop_returns (suc n) m clock t deadline h id i s lt late free =
      let (found, r, e, same) = probe_returns (clock t) h id i s free in
      elim (Option-cases found) [
        | inr (addr, f) ↦ (some addr, r, then_value _ e (rw f refl), same)
        | inl f ↦ elim (Bool-cases (leb deadline (clock (suc t)))) [
          | inl b ↦ (none, r, then_value _ e (rw f (rw b refl)), same)
          | inr b ↦
              let (k, m_suc) = later m deadline clock t b late in
              let (found', q, e', same') =
                resolve_loop_returns n k clock (suc (suc t)) deadline h id i r (omega arith)
                  (rw (← ap clock (next_check k m t m_suc)) late) (rw same free) in
              (found', q, then_value _ e (rw f (rw b e')), same' ∙ same)
        ]
      ]

  ask-Settled :
      (fuel m : ℕ) (clock : ℕ → ℕ) (local id : ℕ) (query : List ℕ) (server_be timeout_ms i : ℕ)
      (x : IfaceCtx crate) (pool : TxPool)
      → trailing_zeros pool ≡ some i
      → m < fuel
      → clock 0 + timeout_ms * 1000 ≤ clock (2 + 2 * m)
      → (r : Resolved crate) × (ask crate fuel clock local id query server_be timeout_ms x pool
          ≡ value r)
        × Settled crate pool r
  unfolding ask
  ask-Settled fuel m clock local id query server_be timeout_ms i x pool free lt late =
      let (h, sockets) = crate.add (query_socket local query (ipv4_from_be server_be)) x.sockets in
      let (found, s, ran, same) =
        resolve_loop_returns fuel m clock 1 (clock 0 + timeout_ms * 1000) h id i
          (record {
            iface = x.iface;
            sockets = sockets;
            phy = record { dev = x.dev; pool = pool; sent = [] };
          })
          lt late free in
      (
        conclude crate x h found s,
        then_value _ ran refl,
        rw (← same) (conclude-Settled crate x h found s),
      )

  -- Where each poll of the crate writes frames that fit a buffer, a buffer is free, and the clock
  -- reaches the deadline by the check of round `m`, smoltcp_resolve returns within the fuel of more
  -- than `m` rounds, whatever the crate receives: an address with 0, or -1, and the pool as it was.
  pub smoltcp_resolve-Settled :
      (fuel m : ℕ) (clock : ℕ → ℕ) (id_rand port_rand : ℕ) (name : Text)
      (server_be timeout_ms i : ℕ) (x : IfaceCtx crate) (pool : TxPool)
      → trailing_zeros pool ≡ some i
      → m < fuel
      → clock 0 + timeout_ms * 1000 ≤ clock (2 + 2 * m)
      → (r : Resolved crate) × (smoltcp_resolve crate fuel clock id_rand port_rand name server_be
            timeout_ms x pool
          ≡ value r)
        × Settled crate pool r
  unfolding smoltcp_resolve
  smoltcp_resolve-Settled fuel m clock id_rand port_rand name server_be timeout_ms i x pool free lt
        late =
      let id = bit_and id_rand 0xFFFF in
      let local = dynamic_port port_rand in
      let to = ipv4_from_be server_be in
      let refuses : Settled crate pool (refused crate x pool) = record {
        same_pool = refl;
        answer = inl (refl, refl);
      } in
      elim (Option-cases (parse_quad name)) [
        | inr (octets, e) ↦ (
          record (refused crate x pool) { code = pos 0; out_be = some (from_le_bytes octets) },
          rw (e, smoltcp_resolve) refl,
          record { same_pool = refl; answer = inr (refl, _, refl) },
        )
        | inl e ↦ elim (Option-cases (build_query id name)) [
          | inl q ↦ (refused crate x pool, rw (e, smoltcp_resolve) (rw q refl), refuses)
          | inr (query, q) ↦
              elim (Bool-cases (crate.can_bind local && crate.can_send_to query to)) [
                | inr b ↦
                    (refused crate x pool, rw (e, smoltcp_resolve) (rw q (rw b refl)), refuses)
                | inl b ↦
                    let (r, asked, settled) =
                      ask-Settled fuel m clock local id query server_be timeout_ms i x pool free lt
                        late in
                    (r, rw (e, smoltcp_resolve) (rw q (rw b asked)), settled)
              ]
        ]
      ]
