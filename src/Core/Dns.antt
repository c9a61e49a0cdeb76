-- ===== src/Core/Dns.antt =====
-- components/esp_smoltcp_glue/src/dns.rs: the query that smoltcp_resolve sends, and the parser of a
-- response. A packet is the list of its bytes.
pub mod Safe
pub mod Reader
pub mod Wire
pub mod Names
pub mod Records
pub mod RoundTrip
use Prim.Native.Nat.{bit_and}
use esp_smoltcp.Common.{
  ℕ, zero, suc, ◌+◌, ◌*◌, ◌/◌, ◌%◌, true, false, ◌&&◌, ◌||◌, Option, none, some, List, [], ◌∷◌,
  ◌++◌, ltb, ◌==◌, length, if◌then◌else◌,
}
use esp_smoltcp.Compat.Inet.{Text, split_dots}
use esp_smoltcp.Core.Outcome.{Outcome, value, stop, hang, index, ◌>>=◌}

-- `id.to_be_bytes()` of a u16
abbrev pub to_be_bytes : ℕ → List ℕ
to_be_bytes n = n / 256 ∷ n % 256 ∷ []

-- The loop over the labels, with the query so far; `none` for the result -1.
unfoldable pub push_labels : List Text → List ℕ → Option (List ℕ)
push_labels [] query = some query
push_labels (l ∷ ls) query = elim (length l == 0 || ltb 63 (length l)) [
  | true ↦ none
  | false ↦ push_labels ls (query ++ length l % 256 ∷ l)
]

-- The id, the flags (recursion desired) and the counts.
abbrev pub query_header : ℕ → List ℕ
query_header id = to_be_bytes id ++ 1 ∷ 0 ∷ 0 ∷ 1 ∷ 0 ∷ 0 ∷ 0 ∷ 0 ∷ 0 ∷ 0 ∷ []

-- The end of the name, QTYPE A and QCLASS IN.
abbrev pub query_end : List ℕ
query_end = 0 ∷ 0 ∷ 1 ∷ 0 ∷ 1 ∷ []

unfoldable pub build_query : ℕ → Text → Option (List ℕ)
build_query id name = elim (push_labels (split_dots name) (query_header id)) [
  | none ↦ none
  | some query ↦ some (query ++ query_end)
]

-- `u16::from_be_bytes([pkt[i], pkt[i+1]])`
unfoldable pub be16 : List ℕ → ℕ → Outcome ℕ
be16 pkt i = do hi ← index pkt i; lo ← index pkt (i + 1); value (hi * 256 + lo)

-- The loop over the name of the question.
unfoldable pub skip_question : ℕ → List ℕ → ℕ → Outcome ℕ
skip_question zero pkt i = hang
skip_question (suc n) pkt i = elim (ltb i (length pkt)) [
  | false ↦ value i
  | true ↦ do
    l ← index pkt i
    elim (l == 0) [
      | true ↦ value i
      | false ↦ elim (bit_and l 0xC0 == 0) [
        | false ↦ stop
        | true ↦ skip_question n pkt (i + (1 + l))
      ]
    ]
]

-- The loop over the name of an answer that is not a pointer.
unfoldable pub skip_name : ℕ → List ℕ → ℕ → Outcome ℕ
skip_name zero pkt i = hang
skip_name (suc n) pkt i = elim (ltb i (length pkt)) [
  | false ↦ value i
  | true ↦ do
    l ← index pkt i
    elim (l == 0) [ true ↦ value i | false ↦ skip_name n pkt (i + (1 + l)) ]
]

-- One round of the loop over the answers: the octets, or where the next answer is.
pub data Answer : Type 0 where
  found : List ℕ → Answer
  next : ℕ → Answer

-- Past the name of the answer at `i`.
unfoldable pub after_name : ℕ → List ℕ → ℕ → Outcome ℕ
after_name fuel pkt i = do
  b ← index pkt i
  elim (bit_and b 0xC0 == 0xC0) [
    | true ↦ value (i + 2)
    | false ↦ do j ← skip_name fuel pkt i; value (j + 1)
  ]

-- The record data of length `rdlen` at `i`.
unfoldable pub read_data : List ℕ → ℕ → ℕ → ℕ → Outcome Answer
read_data pkt qtype rdlen i = elim (ltb (length pkt) (i + rdlen)) [
  | true ↦ stop
  | false ↦ elim (qtype == 1 && rdlen == 4) [
    | false ↦ value (next (i + rdlen))
    | true ↦ do
      a ← index pkt i
      b ← index pkt (i + 1)
      c ← index pkt (i + 2)
      d ← index pkt (i + 3)
      value (found (a ∷ b ∷ c ∷ d ∷ []))
  ]
]

-- The fixed part of a record, after its name.
unfoldable pub read_record : List ℕ → ℕ → Outcome Answer
read_record pkt i = elim (ltb (length pkt) (i + 10)) [
  | true ↦ stop
  | false ↦ do qtype ← be16 pkt i; rdlen ← be16 pkt (i + 8); read_data pkt qtype rdlen (i + 10)
]

unfoldable pub read_answer : ℕ → List ℕ → ℕ → Outcome Answer
read_answer fuel pkt i = elim (ltb (length pkt) (i + 12)) [
  | true ↦ stop
  | false ↦ do j ← after_name fuel pkt i; read_record pkt j
]

-- The loop `for _ in 0..ancount`.
unfoldable pub read_answers : ℕ → ℕ → List ℕ → ℕ → Outcome (List ℕ)
read_answers fuel zero pkt i = stop
read_answers fuel (suc k) pkt i = do
  r ← read_answer fuel pkt i
  elim r [ found octets ↦ value octets | next j ↦ read_answers fuel k pkt j ]

-- The header: the number of answers of a response to the query `id`.
unfoldable pub read_header : List ℕ → ℕ → Outcome ℕ
read_header pkt expect_id = elim (ltb (length pkt) 12) [
  | true ↦ stop
  | false ↦ do
    id ← be16 pkt 0
    elim (id == expect_id) [
      | false ↦ stop
      | true ↦ do
        flags ← be16 pkt 2
        elim (bit_and flags 0x000F == 0) [
          | false ↦ stop
          | true ↦ do ancount ← be16 pkt 6; if ancount == 0 then stop else value ancount
        ]
    ]
]

-- The octets of the first A record. A loop over labels passes at least one byte in a round, so the
-- length of the packet and one more are fuel enough.
unfoldable pub parse_a_response : List ℕ → ℕ → Outcome (List ℕ)
parse_a_response pkt expect_id = do
  ancount ← read_header pkt expect_id
  i ← skip_question (suc (length pkt)) pkt 12
  read_answers (suc (length pkt)) ancount pkt (i + 5)
