-- ===== src/Core/Resolve/Quads.antt =====
-- components/esp_smoltcp_glue/src/dns.rs: names that are addresses.
use esp_smoltcp.Common.{
  ℕ, ◌/◌, ◌%◌, ◌^◌, ◌≤◌, ◌<◌, ◌≡◌, refl, ◌∙◌, ap, true, some, [], ◌∷◌, arith, pos,
}
use esp_smoltcp.Compat.Inet.{Text, print_byte, print_ipv4, parse_digits, inet_ntop}
use esp_smoltcp.Compat.Inet.Reversed.{split_dots-print_ipv4}
use esp_smoltcp.Core.Outcome.{value}
use esp_smoltcp.Core.Device.{TxPool}
use esp_smoltcp.Core.Crate.{Crate}
use esp_smoltcp.Core.Ctx.{IfaceCtx, from_le_bytes}
use esp_smoltcp.Core.Resolve.{parse_octet, parse_parts, parse_quad, smoltcp_resolve}

parse_octet-print_byte : (n : ℕ) → n < 256 → parse_octet (print_byte n) ≡ some n
unfolding parse_octet print_byte parse_digits
parse_octet-print_byte n h = ground arith

parse_parts_octets :
    (p q r s : Text) (a b c d : ℕ)
    → parse_octet p ≡ some a
    → parse_octet q ≡ some b
    → parse_octet r ≡ some c
    → parse_octet s ≡ some d
    → parse_parts (p ∷ q ∷ r ∷ s ∷ []) ≡ some (a ∷ b ∷ c ∷ d ∷ [])
unfolding parse_parts
parse_parts_octets p q r s a b c d ha hb hc hd =
    rw (ha, parse_parts) (rw (hb, parse_parts) (rw (hc, parse_parts) (rw hd refl)))

parse_quad-print_ipv4 :
    (a b c d : ℕ)
    → a < 256
    → b < 256
    → c < 256
    → d < 256
    → parse_quad (print_ipv4 a b c d) ≡ some (a ∷ b ∷ c ∷ d ∷ [])
unfolding parse_quad parse_parts
parse_quad-print_ipv4 a b c d ha hb hc hd =
    ap parse_parts (split_dots-print_ipv4 a b c d ha hb hc hd)
    ∙ parse_parts_octets (print_byte a) (print_byte b) (print_byte c) (print_byte d) a b c d
        (parse_octet-print_byte a ha) (parse_octet-print_byte b hb) (parse_octet-print_byte c hc)
        (parse_octet-print_byte d hd)

-- smoltcp_resolve of a dotted quad of four bytes returns 0 at once and stores the address that
-- inet_ntop prints as that quad; the interface and the pool stay as they were and nothing is sent.
pub smoltcp_resolve-print_ipv4 :
    (crate : Crate) (fuel : ℕ) (clock : ℕ → ℕ) (id_rand port_rand a b c d server_be timeout_ms : ℕ)
    (size : ℕ) (x : IfaceCtx crate) (pool : TxPool)
    → a < 256
    → b < 256
    → c < 256
    → d < 256
    → 16 ≤ size
    → (v : ℕ) × (smoltcp_resolve crate fuel clock id_rand port_rand
          (print_ipv4 a b c d)
          server_be
          timeout_ms
          x
          pool
        ≡ value (record { code = pos 0; out_be = some v; ctx = x; pool = pool; sent = [] }))
      × (inet_ntop true v size ≡ some (print_ipv4 a b c d))
unfolding smoltcp_resolve inet_ntop
smoltcp_resolve-print_ipv4 crate fuel clock id_rand port_rand a b c d server_be timeout_ms size x
      pool ha hb hc hd hs =
    let v = from_le_bytes (a ∷ b ∷ c ∷ d ∷ []) in
    let e0 : v % 256 ≡ a = omega arith in
    let e1 : v / 2 ^ 8 % 256 ≡ b = omega arith in
    let e2 : v / 2 ^ 16 % 256 ≡ c = omega arith in
    let e3 : v / 2 ^ 24 % 256 ≡ d = omega arith in
    (
      v,
      rw (parse_quad-print_ipv4 a b c d ha hb hc hd, smoltcp_resolve) refl,
      rw (e0, e1, e2, e3) (ground arith),
    )
