-- ===== src/Compat/Inet/Reversed.antt =====
-- What inet_pton of src/netdb_wrap.c stores for a dotted quad.
use esp_smoltcp.Common.{
  ℕ, ◌+◌, ◌*◌, ◌/◌, ◌%◌, ◌^◌, ◌≤◌, ◌<◌, ◌≡◌, refl, ◌∙◌, ap, true, false, some, List, [], ◌∷◌, ◌++◌,
  leb, ◌==◌, length, pos, arith, All,
}
use esp_smoltcp.Compat.Loopback.{is_loopback_ip}
use esp_smoltcp.Compat.Inet.{
  Text, dot, parse_digits, parse_u8, split_dots, octet_loop, from_be_bytes, parse_ipv4, inet_pton,
  bytes_of, print_byte, print_ipv4, inet_ntop,
}

parse_u8-print_byte : (n : ℕ) → n < 256 → parse_u8 (print_byte n) ≡ some n
unfolding parse_u8 print_byte parse_digits
parse_u8-print_byte n h = ground arith

abbrev NotDot : ℕ → Type 0
NotDot c = c == dot ≡ false

split_dots-append :
    (p rest : Text) → All NotDot p → split_dots (p ++ (dot ∷ rest)) ≡ p ∷ split_dots rest
unfolding split_dots
split_dots-append [] rest h = refl
split_dots-append (c ∷ p) rest h = rw (h.0) (ground (arith, split_dots-append p rest h.1))

split_dots_last : (p : Text) → All NotDot p → split_dots p ≡ p ∷ []
unfolding split_dots
split_dots_last [] h = refl
split_dots_last (c ∷ p) h = ground (arith, split_dots_last p h.1)

print_byte_plain : (n : ℕ) → n < 256 → All NotDot (print_byte n)
unfolding print_byte
print_byte_plain n h = ground arith

abbrev pub quad : ℕ → ℕ → ℕ → ℕ → List Text
quad a b c d = print_byte a ∷ print_byte b ∷ print_byte c ∷ print_byte d ∷ []

pub split_dots-print_ipv4 :
    (a b c d : ℕ)
    → a < 256
    → b < 256
    → c < 256
    → d < 256
    → split_dots (print_ipv4 a b c d) ≡ quad a b c d
unfolding print_ipv4
split_dots-print_ipv4 a b c d ha hb hc hd =
    let e =
      split_dots-append (print_byte a)
        (print_byte b ++ (dot ∷ (print_byte c ++ (dot ∷ print_byte d)))) (print_byte_plain a ha) in
    let f =
      split_dots-append (print_byte b) (print_byte c ++ (dot ∷ print_byte d))
        (print_byte_plain b hb) in
    let g = split_dots-append (print_byte c) (print_byte d) (print_byte_plain c hc) in
    let h = split_dots_last (print_byte d) (print_byte_plain d hd) in cc (e, f, g, h)

octet_loop_step :
    (p : Text) (ps : List Text) (octets : List ℕ) (v : ℕ)
    → parse_u8 p ≡ some v
    → leb 4 (length octets) ≡ false
    → octet_loop (p ∷ ps) octets ≡ octet_loop ps (octets ++ v ∷ [])
unfolding octet_loop
octet_loop_step p ps octets v e h = rw (h, e) refl

octet_loop-quad :
    (a b c d : ℕ)
    → a < 256
    → b < 256
    → c < 256
    → d < 256
    → octet_loop (quad a b c d) [] ≡ some (a ∷ b ∷ c ∷ d ∷ [])
unfolding octet_loop
octet_loop-quad a b c d ha hb hc hd =
    octet_loop_step (print_byte a) (print_byte b ∷ print_byte c ∷ print_byte d ∷ []) [] a
      (parse_u8-print_byte a ha) refl
    ∙ octet_loop_step (print_byte b) (print_byte c ∷ print_byte d ∷ []) (a ∷ []) b
        (parse_u8-print_byte b hb) refl
    ∙ octet_loop_step (print_byte c) (print_byte d ∷ []) (a ∷ b ∷ []) c (parse_u8-print_byte c hc)
        refl
    ∙ octet_loop_step (print_byte d) [] (a ∷ b ∷ c ∷ []) d (parse_u8-print_byte d hd) refl

parse_ipv4_parts :
    (s : Text) (ps : List Text) (b : List ℕ)
    → split_dots s ≡ ps
    → octet_loop ps [] ≡ some b
    → parse_ipv4 s ≡ some (from_be_bytes b)
unfolding parse_ipv4
parse_ipv4_parts s ps b e f = rw (ap (λ q. octet_loop q []) e ∙ f, parse_ipv4) refl

pub parse_ipv4-print_ipv4 :
    (a b c d : ℕ)
    → a < 256
    → b < 256
    → c < 256
    → d < 256
    → parse_ipv4 (print_ipv4 a b c d) ≡ some (a * 2 ^ 24 + b * 2 ^ 16 + c * 2 ^ 8 + d)
parse_ipv4-print_ipv4 a b c d ha hb hc hd =
    parse_ipv4_parts (print_ipv4 a b c d) (quad a b c d) (a ∷ b ∷ c ∷ d ∷ [])
      (split_dots-print_ipv4 a b c d ha hb hc hd) (octet_loop-quad a b c d ha hb hc hd)

pub bytes_of_quad :
    (a b c d : ℕ)
    → a < 256
    → b < 256
    → c < 256
    → d < 256
    → bytes_of (a * 2 ^ 24 + b * 2 ^ 16 + c * 2 ^ 8 + d) ≡ d ∷ c ∷ b ∷ a ∷ []
bytes_of_quad a b c d ha hb hc hd =
    let v = a * 2 ^ 24 + b * 2 ^ 16 + c * 2 ^ 8 + d in
    let e0 : v % 256 ≡ d = omega arith in
    let e1 : v / 2 ^ 8 % 256 ≡ c = omega arith in
    let e2 : v / 2 ^ 16 % 256 ≡ b = omega arith in
    let e3 : v / 2 ^ 24 % 256 ≡ a = omega arith in rw (e0, e1, e2, e3) refl

-- For a dotted quad of four bytes, inet_pton answers 1 and stores the address with its bytes
-- reversed: inet_ntop prints it with the octets in the other order, and it counts as a loopback
-- address exactly if its last octet is 127.
pub inet_pton_reverses :
    (a b c d size : ℕ)
    → a < 256
    → b < 256
    → c < 256
    → d < 256
    → 16 ≤ size
    → (v : ℕ) × (inet_pton true (print_ipv4 a b c d) ≡ (pos 1, some v))
      × (bytes_of v ≡ d ∷ c ∷ b ∷ a ∷ [])
      × (inet_ntop true v size ≡ some (print_ipv4 d c b a))
      × (is_loopback_ip v ≡ (d == 127))
unfolding inet_pton inet_ntop
inet_pton_reverses a b c d size ha hb hc hd hs =
    let v = a * 2 ^ 24 + b * 2 ^ 16 + c * 2 ^ 8 + d in
    let e0 : v % 256 ≡ d = omega arith in
    let e1 : v / 2 ^ 8 % 256 ≡ c = omega arith in
    let e2 : v / 2 ^ 16 % 256 ≡ b = omega arith in
    let e3 : v / 2 ^ 24 % 256 ≡ a = omega arith in
    (
      v,
      rw (parse_ipv4-print_ipv4 a b c d ha hb hc hd, inet_pton) refl,
      bytes_of_quad a b c d ha hb hc hd,
      rw (e0, e1, e2, e3) (ground arith),
      rw e0 refl,
    )

-- A text of four bytes that reads the same from both ends comes back from inet_pton and inet_ntop.
pub inet_round_trip :
    (a b c d size : ℕ)
    → a < 256
    → b < 256
    → c < 256
    → d < 256
    → 16 ≤ size
    → a ≡ d
    → b ≡ c
    → (v : ℕ) × (inet_pton true (print_ipv4 a b c d) ≡ (pos 1, some v))
      × (inet_ntop true v size ≡ some (print_ipv4 a b c d))
inet_round_trip a b c d size ha hb hc hd hs p q =
    let (v, e, bytes, text, lo) = inet_pton_reverses a b c d size ha hb hc hd hs in
    (v, e, text ∙ ap some (rw (p, q) refl))
