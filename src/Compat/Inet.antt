-- ===== src/Compat/Inet.antt =====
-- Addresses as text: inet_pton and inet_ntop of src/netdb_wrap.c, and the parser behind the first,
-- smoltcp_parse_ipv4 of components/esp_smoltcp_glue/src/lib.rs. A text is the list of its bytes.
pub mod Reversed
use esp_smoltcp.Common.{
  ℕ, ◌+◌, ◌-◌, ◌*◌, ◌/◌, ◌%◌, ◌^◌, Bool, true, false, not, ◌&&◌, ◌||◌, Option, none, some, List, [],
  ◌∷◌, ◌++◌, if◌then◌else◌, ltb, leb, ◌==◌, length, get_or, ℤ, pos, minus_one,
}

abbrev pub Text : Type 0
Text = List ℕ

-- '.', '+' and '0'
abbrev pub dot : ℕ
dot = 46

abbrev pub plus : ℕ
plus = 43

abbrev pub digit_zero : ℕ
digit_zero = 48

abbrev pub is_digit : ℕ → Bool
is_digit c = leb digit_zero c && leb c 57

-- `parse::<u8>` on the digits left, with the value so far.
unfoldable pub parse_digits : Text → ℕ → Option ℕ
parse_digits [] v = some v
parse_digits (c ∷ cs) v =
    let w = v * 10 + (c - digit_zero) in if is_digit c && ltb w 256 then parse_digits cs w else none

-- `parse::<u8>` takes one leading plus sign, and at least one digit.
unfoldable pub parse_u8 : Text → Option ℕ
parse_u8 [] = none
parse_u8 (c ∷ []) = parse_digits (c ∷ []) 0
parse_u8 (c ∷ d ∷ cs) = parse_digits (if c == plus then d ∷ cs else c ∷ d ∷ cs) 0

abbrev cons_first : ℕ → List Text → List Text
cons_first c [] = (c ∷ []) ∷ []
cons_first c (p ∷ ps) = (c ∷ p) ∷ ps

-- `split('.')`
unfoldable pub split_dots : Text → List Text
split_dots [] = [] ∷ []
split_dots (c ∷ cs) = if c == dot then [] ∷ split_dots cs else cons_first c (split_dots cs)

-- The loop over the parts, with the octets stored so far.
unfoldable pub octet_loop : List Text → List ℕ → Option (List ℕ)
octet_loop [] octets = if length octets == 4 then some octets else none
octet_loop (p ∷ ps) octets =
    if leb 4 (length octets)
    then none
    else elim (parse_u8 p) [ none ↦ none | some v ↦ octet_loop ps (octets ++ v ∷ []) ]

-- `u32::from_be_bytes`
abbrev pub from_be_bytes : List ℕ → ℕ
from_be_bytes b =
    get_or b 0 0 * 2 ^ 24 + get_or b 1 0 * 2 ^ 16 + get_or b 2 0 * 2 ^ 8 + get_or b 3 0

-- What is stored in `*out_be`; `none` for the result -1.
unfoldable pub parse_ipv4 : Text → Option ℕ
parse_ipv4 s = elim (octet_loop (split_dots s) []) [ none ↦ none | some b ↦ some (from_be_bytes b) ]

-- The result, and what is stored in `*dst`. `is_inet` is `af == AF_INET`.
unfoldable pub inet_pton : Bool → Text → ℤ × Option ℕ
inet_pton false s = (minus_one, none)
inet_pton true s = elim (parse_ipv4 s) [ none ↦ (pos 0, none) | some v ↦ (pos 1, some v) ]

-- The bytes of a stored `uint32_t`, lowest address first.
abbrev pub bytes_of : ℕ → List ℕ
bytes_of v = v % 256 ∷ v / 2 ^ 8 % 256 ∷ v / 2 ^ 16 % 256 ∷ v / 2 ^ 24 % 256 ∷ []

-- `%u` of a byte
unfoldable pub print_byte : ℕ → Text
print_byte n =
    if leb 100 n
    then (digit_zero + n / 100) ∷ (digit_zero + n / 10 % 10) ∷ (digit_zero + n % 10) ∷ []
    else if leb 10 n
    then (digit_zero + n / 10) ∷ (digit_zero + n % 10) ∷ []
    else (digit_zero + n) ∷ []

-- `%u.%u.%u.%u`
unfoldable pub print_ipv4 : ℕ → ℕ → ℕ → ℕ → Text
print_ipv4 a b c d =
    print_byte a ++ (dot ∷ (print_byte b ++ (dot ∷ (print_byte c ++ (dot ∷ print_byte d)))))

-- `src` is the stored address, `size` the room in `dst`; `none` for NULL.
unfoldable pub inet_ntop : Bool → ℕ → ℕ → Option Text
inet_ntop is_inet src size =
    if not is_inet || ltb size 16
    then none
    else some (
        print_ipv4 (get_or (bytes_of src) 0 0) (get_or (bytes_of src) 1 0)
          (get_or (bytes_of src) 2 0) (get_or (bytes_of src) 3 0))
