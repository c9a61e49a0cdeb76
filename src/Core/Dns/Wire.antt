-- ===== src/Core/Dns/Wire.antt =====
-- The wire format of a DNS response (RFC 1035), written as an encoder: what
-- components/esp_smoltcp_glue/src/dns.rs is compared with.
use esp_smoltcp.Common.{
  ℕ, ◌+◌, ◌/◌, ◌%◌, ◌<◌, Bool, true, false, ◌&&◌, List, [], ◌∷◌, ◌++◌, length, All, take, drop,
  ◌==◌,
}
use esp_smoltcp.Compat.Inet.{Text}
use esp_smoltcp.Core.Dns.{to_be_bytes}
use esp_smoltcp.Core.Outcome.{Outcome, value, stop}

-- A name in full.
abbrev pub name_bytes : List Text → List ℕ
name_bytes [] = 0 ∷ []
name_bytes (l ∷ ls) = length l ∷ (l ++ name_bytes ls)

abbrev pub IsLabel : Text → Type 0
IsLabel l = (0 < length l) × (length l < 64)

-- The owner of a record: a pointer to an offset, high bits first, or a name in full.
pub data Owner : Type 0 where
  pointer : ℕ → ℕ → Owner
  written : List Text → Owner

abbrev pub IsOwner : Owner → Type 0
IsOwner (pointer hi lo) = hi < 64
IsOwner (written ls) = All IsLabel ls

abbrev pub owner_bytes : Owner → List ℕ
owner_bytes (pointer hi lo) = (0xC0 + hi) ∷ lo ∷ []
owner_bytes (written ls) = name_bytes ls

pub record ResourceRecord : Type 0 where
  pub owner : Owner
  pub rtype : ℕ
  pub class : ℕ
  -- The time to live, as two numbers of 16 bits.
  pub ttl_high : ℕ
  pub ttl_low : ℕ
  pub rdata : List ℕ

abbrev pub fixed_bytes : ResourceRecord → List ℕ
fixed_bytes r =
    r.rtype / 256
    ∷ r.rtype % 256
    ∷ r.class / 256
    ∷ r.class % 256
    ∷ r.ttl_high / 256
    ∷ r.ttl_high % 256
    ∷ r.ttl_low / 256
    ∷ r.ttl_low % 256
    ∷ length r.rdata / 256
    ∷ length r.rdata % 256
    ∷ []

-- The records, and what follows them.
abbrev pub records_bytes : List ResourceRecord → List ℕ → List ℕ
records_bytes [] tail = tail
records_bytes (r ∷ rs) tail =
    owner_bytes r.owner ++ (fixed_bytes r ++ (r.rdata ++ records_bytes rs tail))

-- The data of the first record of type A with four octets.
abbrev pub is_a : ResourceRecord → Bool
is_a r = r.rtype == 1 && length r.rdata == 4

abbrev pub first_a : List ResourceRecord → Outcome (List ℕ)
first_a [] = stop
first_a (r ∷ rs) = elim (is_a r) [ true ↦ value r.rdata | false ↦ first_a rs ]

-- The response to the query `q` that repeats its id and its question, with the answers `rs`, the
-- counts of the other sections, and those sections.
abbrev pub reply : List ℕ → ℕ → List ResourceRecord → ℕ → ℕ → List ℕ → List ℕ
reply q flags rs authority additional tail =
    take 2 q
    ++ (to_be_bytes flags
        ++ (0
            ∷ 1
            ∷ (to_be_bytes (length rs)
                ++ (to_be_bytes authority
                    ++ (to_be_bytes additional ++ (drop 12 q ++ records_bytes rs tail))))))
