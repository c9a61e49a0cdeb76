-- ===== src/Core/Dns/Records.antt =====
-- components/esp_smoltcp_glue/src/dns.rs: the loop over the answers, on records in the format of Wire.
use esp_smoltcp.Common.{
  ℕ, suc, ◌+◌, ◌/◌, ◌%◌, ◌≤◌, ◌<◌, ◌≡◌, refl, true, false, ◌&&◌, List, [], ◌∷◌, ◌++◌, length, All,
  arith, ltb, ◌==◌, ltb→lt, le→ltb, Bool-cases, length-append, inl, inr, sym, ◌⊎◌,
}
use esp_smoltcp.Compat.Inet.{Text}
use esp_smoltcp.Core.Outcome.{Outcome, value, stop, then_value}
use esp_smoltcp.Core.Dns.{Answer, found, next, read_data, read_record, read_answer, read_answers}
use esp_smoltcp.Core.Dns.Reader.{At, At-index, next_At, move_At, skip_At, be16-At}
use esp_smoltcp.Core.Dns.Wire.{
  name_bytes, Owner, pointer, written, IsOwner, owner_bytes, ResourceRecord, fixed_bytes,
  records_bytes, is_a, first_a,
}
use esp_smoltcp.Core.Dns.Names.{after_name-owner_bytes}

-- What the loop goes on with after a record.
Read : ResourceRecord → Outcome Answer → List ℕ → List ℕ → Type 0
Read r o pkt rest =
    ((is_a r ≡ true) × (o ≡ value (found r.rdata)))
    ⊎ ((is_a r ≡ false) × (j : ℕ) × (o ≡ value (next j)) × At pkt j rest)

read_data-octets :
    (pkt : List ℕ) (qtype i : ℕ) (d rest : List ℕ)
    → (qtype == 1 && length d == 4) ≡ true
    → At pkt i (d ++ rest)
    → read_data pkt qtype (length d) i ≡ value (found d)
unfolding read_data
read_data-octets pkt qtype i (a ∷ b ∷ c ∷ e ∷ []) rest h p =
    let fits : ltb (length pkt) (i + 4) ≡ false = le→ltb _ _ (omega (arith, p.size)) in
    let q = move_At {j = i + 1} (omega arith) (next_At p) in
    let r = move_At {j = i + 2} (omega arith) (next_At q) in
    let s = move_At {j = i + 3} (omega arith) (next_At r) in
    rw (fits, read_data)
      (rw (h, read_data)
        (then_value _ (At-index p)
          (then_value _ (At-index q) (then_value _ (At-index r) (then_value _ (At-index s) refl)))))
read_data-octets pkt qtype i [] rest h p = absurd (ground arith)
read_data-octets pkt qtype i (a ∷ []) rest h p = absurd (ground arith)
read_data-octets pkt qtype i (a ∷ b ∷ []) rest h p = absurd (ground arith)
read_data-octets pkt qtype i (a ∷ b ∷ c ∷ []) rest h p = absurd (ground arith)
read_data-octets pkt qtype i (a ∷ b ∷ c ∷ e ∷ f ∷ d) rest h p = absurd (ground arith)

read_data-Read :
    (r : ResourceRecord) (pkt : List ℕ) (i : ℕ) (rest : List ℕ)
    → At pkt i (r.rdata ++ rest)
    → Read r (read_data pkt r.rtype (length r.rdata) i) pkt rest
unfolding Read read_data
read_data-Read r pkt i rest a = elim (Bool-cases (is_a r)) [
  | inl h ↦ inl (h, read_data-octets pkt r.rtype i r.rdata rest h a)
  | inr h ↦
      let fits : ltb (length pkt) (i + length r.rdata) ≡ false =
        le→ltb _ _ (omega (arith, a.size, length-append r.rdata rest)) in
      inr (h, i + length r.rdata, rw (fits, read_data) (rw (h, read_data) refl), skip_At r.rdata a)
]

read_record-fixed_bytes :
    (r : ResourceRecord) (pkt : List ℕ) (i : ℕ) (rest : List ℕ)
    → At pkt i (fixed_bytes r ++ (r.rdata ++ rest))
    → Read r (read_record pkt i) pkt rest
unfolding Read read_record
read_record-fixed_bytes r pkt i rest a =
    let fits : ltb (length pkt) (i + 10) ≡ false = le→ltb _ _ (omega (arith, a.size)) in
    let b =
      skip_At
        (r.rtype / 256
          ∷ r.rtype % 256
          ∷ r.class / 256
          ∷ r.class % 256
          ∷ r.ttl_high / 256
          ∷ r.ttl_high % 256
          ∷ r.ttl_low / 256
          ∷ r.ttl_low % 256
          ∷ [])
        a in
    let d = read_data-Read r pkt (i + 10) rest (skip_At (fixed_bytes r) a) in
    rw (fits, read_record) (rw (be16-At r.rtype a) (rw (be16-At (length r.rdata) b) d))

length-name_bytes : (ls : List Text) → 1 ≤ length (name_bytes ls)
length-name_bytes [] = omega arith
length-name_bytes (l ∷ ls) = omega arith

length-owner_bytes : (o : Owner) → 1 ≤ length (owner_bytes o)
length-owner_bytes (pointer hi lo) = omega arith
length-owner_bytes (written ls) = length-name_bytes ls

length-records_bytes :
    (r : ResourceRecord) (rs : List ResourceRecord) (tail : List ℕ)
    → 11 + length r.rdata + length (records_bytes rs tail) ≤ length (records_bytes (r ∷ rs) tail)
length-records_bytes r rs tail = omega (
  arith,
  length-append (owner_bytes r.owner) (fixed_bytes r ++ (r.rdata ++ records_bytes rs tail)),
  length-append r.rdata (records_bytes rs tail),
  length-owner_bytes r.owner,
)

-- Where less than twelve bytes are left there is one record at most, and it holds no data.
short_first_a :
    (r : ResourceRecord) (rs : List ResourceRecord) (tail : List ℕ)
    → length (records_bytes (r ∷ rs) tail) < 12
    → first_a (r ∷ rs) ≡ stop
short_first_a r [] tail h =
    let none_a : is_a r ≡ false = ground (arith, length-records_bytes r [] tail) in
    rw (none_a, first_a) refl
short_first_a r (s ∷ rs) tail h =
    absurd (omega (arith, length-records_bytes r (s ∷ rs) tail, length-records_bytes s rs tail))

pub read_answers-records_bytes :
    (pkt : List ℕ) (i : ℕ) (rs : List ResourceRecord) (tail : List ℕ)
    → All (λ r. IsOwner r.owner) rs
    → At pkt i (records_bytes rs tail)
    → read_answers (suc (length pkt)) (length rs) pkt i ≡ first_a rs
unfolding read_answers read_answer Read
read_answers-records_bytes pkt i [] tail ok a = refl
read_answers-records_bytes pkt i (r ∷ rs) tail (ok, oks) a =
    elim (Bool-cases (ltb (length pkt) (i + 12))) [
      | inl short ↦
          rw (short, read_answers, read_answer)
            (sym (short_first_a r rs tail (omega (arith, ltb→lt _ _ short, a.size))))
      | inr long ↦
          let (j, e, b) = after_name-owner_bytes pkt i r.owner _ ok a in
          let read = read_record-fixed_bytes r pkt j (records_bytes rs tail) b in
          rw (long, read_answers, read_answer)
            (elim read [
              | inl (h, v) ↦ then_value _ (then_value _ e v) (rw (h, first_a) refl)
              | inr (h, k, v, c) ↦
                  then_value _ (then_value _ e v)
                    (rw (h, first_a) (read_answers-records_bytes pkt k rs tail oks c))
            ])
    ]
