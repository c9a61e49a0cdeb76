-- ===== src/Core/Dns/RoundTrip.antt =====
-- components/esp_smoltcp_glue/src/dns.rs: the parser on a response to the query that it built.
use Prim.Native.Nat.{bit_and}
use esp_smoltcp.Common.{
  ℕ, suc, ◌+◌, ◌/◌, ◌%◌, ◌<◌, ◌≡◌, refl, ==_refl, ◌||◌, ◌∙◌, if◌then◌else◌, false, some, List, [],
  ◌∷◌, ◌++◌, length, All, arith, ltb, ◌==◌, le→ltb, Bool-cases, Option-cases, length-append,
  append_assoc, inl, inr, ap, sym,
}
use esp_smoltcp.Compat.Inet.{Text, split_dots}
use esp_smoltcp.Core.Outcome.{value, stop, then_value}
use esp_smoltcp.Core.Dns.{
  read_header, parse_a_response, push_labels, build_query, query_header, query_end,
}
use esp_smoltcp.Core.Dns.Reader.{At, start_At, next_At, move_At, skip_At, be16-At}
use esp_smoltcp.Core.Dns.Wire.{
  name_bytes, IsLabel, IsOwner, ResourceRecord, records_bytes, first_a, reply,
}
use esp_smoltcp.Core.Dns.Names.{positive_ne, skip_question-name_bytes}
use esp_smoltcp.Core.Dns.Records.{read_answers-records_bytes}

-- The header of a reply is accepted.
header_bytes :
    (flags id n : ℕ) (m rest : List ℕ) (pkt : List ℕ)
    → bit_and flags 0x000F ≡ 0
    → pkt
      ≡ id / 256 ∷ id % 256 ∷ flags / 256 ∷ flags % 256 ∷ 0 ∷ 1 ∷ n / 256 ∷ n % 256 ∷ (m ++ rest)
    → length m ≡ 4
    → (read_header pkt id ≡ (if n == 0 then stop else value n)) × At pkt 12 rest
unfolding read_header
header_bytes flags id n m rest pkt clear e four =
    let a : At pkt 0 (
        id / 256 ∷ id % 256 ∷ flags / 256 ∷ flags % 256 ∷ 0 ∷ 1 ∷ n / 256 ∷ n % 256 ∷ (m ++ rest)) =
      rw (← e) (start_At pkt) in
    let b = move_At {j = 2} refl (next_At (next_At a)) in
    let c = move_At {j = 6} refl (next_At (next_At (next_At (next_At b)))) in
    let d = skip_At m (next_At (next_At c)) in
    let long : ltb (length pkt) 12 ≡ false =
      le→ltb _ _ (omega (arith, a.size, length-append m rest)) in
    (
      rw (long, read_header)
          (then_value _ (be16-At id a) (
            rw (==_refl id)
              (then_value _ (be16-At flags b) (rw clear (then_value _ (be16-At n c) refl))))),
      move_At (omega arith) d,
    )

option_eq : {A : Type 0} {a b : A} → some a ≡ some b → a ≡ b
option_eq e = ground arith

push_good :
    (l : Text) (ls : List Text) (query : List ℕ)
    → (length l == 0 || ltb 63 (length l)) ≡ false
    → push_labels ls (query ++ length l % 256 ∷ l) ≡ push_labels (l ∷ ls) query
unfolding push_labels
push_good l ls query good = rw (good, push_labels) refl

-- What the loop over the labels pushes is the name, without the byte that ends it.
push_labels-name_bytes :
    (ls : List Text) (query out : List ℕ)
    → push_labels ls query ≡ some out
    → (out ++ query_end ≡ query ++ (name_bytes ls ++ 0 ∷ 1 ∷ 0 ∷ 1 ∷ [])) × All IsLabel ls
unfolding push_labels
push_labels-name_bytes [] query out h = (ap (λ o. o ++ query_end) (option_eq (sym h)), tt)
push_labels-name_bytes (l ∷ ls) query out h =
    elim (Bool-cases (length l == 0 || ltb 63 (length l))) [
      | inl bad ↦ absurd (ground arith)
      | inr good ↦
          let small : (0 < length l) × (length l < 64) = ground arith in
          let (e, oks) =
            push_labels-name_bytes ls (query ++ length l % 256 ∷ l) out
              (push_good l ls query good ∙ h) in
          let byte : length l % 256 ≡ length l = omega (arith, small.0, small.1) in
          (
            e
                ∙ append_assoc query (length l % 256 ∷ l) _
                ∙ ap (λ b. query ++ b ∷ (l ++ (name_bytes ls ++ 0 ∷ 1 ∷ 0 ∷ 1 ∷ []))) byte
                ∙ ap (λ m. query ++ length l ∷ m) (sym (append_assoc l (name_bytes ls) _)),
            (small, oks),
          )
    ]

build_query_bytes :
    (id : ℕ) (name : Text) (q : List ℕ)
    → build_query id name ≡ some q
    → (q ≡ query_header id ++ (name_bytes (split_dots name) ++ 0 ∷ 1 ∷ 0 ∷ 1 ∷ []))
      × All IsLabel (split_dots name)
unfolding build_query
build_query_bytes id name q h =
    elim (Option-cases (push_labels (split_dots name) (query_header id))) [
      | inl e ↦ absurd (ground arith)
      | inr (out, e) ↦
          let (f, oks) = push_labels-name_bytes (split_dots name) (query_header id) out e in
          let g : some (out ++ query_end) ≡ some q = sym (rw (e, build_query) refl) ∙ h in
          (sym (option_eq g) ∙ f, oks)
    ]

-- The same for a packet written out, with the counts `m` of the other sections.
parse_packet :
    (pkt : List ℕ) (id flags : ℕ) (ls : List Text) (rs : List ResourceRecord) (m tail : List ℕ)
    → pkt
      ≡ id / 256
        ∷ id % 256
        ∷ flags / 256
        ∷ flags % 256
        ∷ 0
        ∷ 1
        ∷ length rs / 256
        ∷ length rs % 256
        ∷ (m ++ (name_bytes ls ++ 0 ∷ 1 ∷ 0 ∷ 1 ∷ records_bytes rs tail))
    → length m ≡ 4
    → bit_and flags 0x000F ≡ 0
    → All IsLabel ls
    → All (λ r. IsOwner r.owner) rs
    → parse_a_response pkt id ≡ first_a rs
unfolding parse_a_response
parse_packet pkt id flags ls [] m tail e four clear oks owners =
    rw (header_bytes flags id 0 m _ pkt clear e four).0 refl
parse_packet pkt id flags ls (r ∷ rs) m tail e four clear oks owners =
    let (accepted, a) = header_bytes flags id (length (r ∷ rs)) m _ pkt clear e four in
    let (j, named, b) =
      skip_question-name_bytes (suc (length pkt)) pkt 12 ls _ oks a (omega arith) (omega arith) in
    let c : At pkt (j + 5) (records_bytes (r ∷ rs) tail) =
      move_At (omega arith) (skip_At (0 ∷ 0 ∷ 1 ∷ 0 ∷ 1 ∷ []) b) in
    then_value _ (accepted ∙ rw (positive_ne (length (r ∷ rs)) (omega arith)) refl)
      (then_value _ named (read_answers-records_bytes pkt (j + 5) (r ∷ rs) tail owners c))

-- The parser finds the first address of a response that repeats the query's id and question, with
-- no error flag and any answers, whose names are pointers or in full; what follows them is not read.
pub parse_a_response-reply :
    (id : ℕ) (name : Text) (q : List ℕ) (flags : ℕ) (rs : List ResourceRecord)
    (authority additional : ℕ) (tail : List ℕ)
    → build_query id name ≡ some q
    → bit_and flags 0x000F ≡ 0
    → All (λ r. IsOwner r.owner) rs
    → parse_a_response (reply q flags rs authority additional tail) id ≡ first_a rs
parse_a_response-reply id name q flags rs authority additional tail h clear owners =
    let (e, oks) = build_query_bytes id name q h in
    parse_packet (reply q flags rs authority additional tail) id flags (split_dots name) rs
      (authority / 256 ∷ authority % 256 ∷ additional / 256 ∷ additional % 256 ∷ []) tail
      (rw e (
        ap
          (λ (x : List ℕ).
            id / 256
            ∷ id % 256
            ∷ flags / 256
            ∷ flags % 256
            ∷ 0
            ∷ 1
            ∷ length rs / 256
            ∷ length rs % 256
            ∷ authority / 256
            ∷ authority % 256
            ∷ additional / 256
            ∷ additional % 256
            ∷ x)
          (append_assoc (name_bytes (split_dots name)) (0 ∷ 1 ∷ 0 ∷ 1 ∷ [])
            (records_bytes rs tail))))
      refl clear oks owners
