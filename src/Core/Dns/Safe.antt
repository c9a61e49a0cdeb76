-- ===== src/Core/Dns/Safe.antt =====
-- components/esp_smoltcp_glue/src/dns.rs: the parser of a response on any packet.
use esp_smoltcp.Common.{
  ℕ, zero, suc, ◌+◌, ◌<◌, ◌≡◌, refl, ◌&&◌, List, length, arith, inl, inr, ltb, ◌==◌, ltb→lt, ltb→le,
  lt-get_elem?, Bool-cases,
}
use Prim.Native.Nat.{bit_and}
use esp_smoltcp.Core.Outcome.{Outcome, value, index, ◌>>=◌, Returns}
use esp_smoltcp.Core.Dns.{
  be16, skip_question, skip_name, after_name, Answer, found, next, read_data, read_record,
  read_answer, read_answers, read_header, parse_a_response,
}

abbrev Any : {A : Type 0} → A → Type 0
Any a = Unit

-- Four octets.
abbrev pub IsAddress : List ℕ → Type 0
IsAddress b = length b ≡ 4

bind-Returns :
    {A B : Type 0} {P : A → Type 0} {Q : B → Type 0} {o : Outcome A} {f : A → Outcome B}
    → Returns P o
    → ((a : A) → P a → Returns Q (f a))
    → Returns Q (o >>= f)
bind-Returns (inl e) k = rw e (inl refl)
bind-Returns (inr (a, e, p)) k = rw e (k a p)

index-Returns : (xs : List ℕ) (i : ℕ) → i < length xs → Returns Any (index xs i)
unfolding index
index-Returns xs i h = let (a, e) = lt-get_elem? xs i h in rw (e, index) (inr (a, refl, tt))

be16-Returns : (pkt : List ℕ) (i : ℕ) → i + 1 < length pkt → Returns Any (be16 pkt i)
unfolding be16
be16-Returns pkt i h =
    bind-Returns (index-Returns pkt i (omega arith))
      (λ hi _. bind-Returns (index-Returns pkt (i + 1) h) (λ lo _. inr (_, refl, tt)))

skip_name-Returns :
    (n : ℕ) (pkt : List ℕ) (i : ℕ) → 0 < n → length pkt < n + i → Returns Any (skip_name n pkt i)
unfolding skip_name
skip_name-Returns zero pkt i p h = absurd (omega arith)
skip_name-Returns (suc n) pkt i p h = elim (Bool-cases (ltb i (length pkt))) [
  | inr ge ↦ rw (ge, skip_name) (inr (_, refl, tt))
  | inl lt ↦
      let here = ltb→lt i (length pkt) lt in
      rw (lt, skip_name)
        (bind-Returns (index-Returns pkt i here) (λ l _. elim (Bool-cases (l == 0)) [
          | inl e ↦ rw e (inr (_, refl, tt))
          | inr e ↦ rw e (skip_name-Returns n pkt (i + (1 + l)) (omega arith) (omega arith))
        ]))
]

skip_question-Returns :
    (n : ℕ) (pkt : List ℕ) (i : ℕ)
    → 0 < n
    → length pkt < n + i
    → Returns Any (skip_question n pkt i)
unfolding skip_question
skip_question-Returns zero pkt i p h = absurd (omega arith)
skip_question-Returns (suc n) pkt i p h = elim (Bool-cases (ltb i (length pkt))) [
  | inr ge ↦ rw (ge, skip_question) (inr (_, refl, tt))
  | inl lt ↦
      let here = ltb→lt i (length pkt) lt in
      rw (lt, skip_question)
        (bind-Returns (index-Returns pkt i here) (λ l _. elim (Bool-cases (l == 0)) [
          | inl e ↦ rw e (inr (_, refl, tt))
          | inr e ↦ rw e (elim (Bool-cases (bit_and l 0xC0 == 0)) [
            | inr b ↦ rw b (inl refl)
            | inl b ↦ rw b (skip_question-Returns n pkt (i + (1 + l)) (omega arith) (omega arith))
          ])
        ]))
]

after_name-Returns :
    (pkt : List ℕ) (i : ℕ) → i < length pkt → Returns Any (after_name (suc (length pkt)) pkt i)
unfolding after_name
after_name-Returns pkt i h = bind-Returns (index-Returns pkt i h) (λ b _.
    elim (Bool-cases (bit_and b 0xC0 == 0xC0)) [
      | inl e ↦ rw e (inr (_, refl, tt))
      | inr e ↦ rw e (
          bind-Returns (skip_name-Returns (suc (length pkt)) pkt i (omega arith) (omega arith))
            (λ j _. inr (_, refl, tt)))
    ])

-- An answer that ends the search is an address.
abbrev EndsWell : Answer → Type 0
EndsWell (found b) = IsAddress b
EndsWell (next j) = Unit

read_data-Returns :
    (pkt : List ℕ) (qtype rdlen i : ℕ) → Returns EndsWell (read_data pkt qtype rdlen i)
unfolding read_data
read_data-Returns pkt qtype rdlen i = elim (Bool-cases (ltb (length pkt) (i + rdlen))) [
  | inl e ↦ rw (e, read_data) (inl refl)
  | inr e ↦ elim (Bool-cases (qtype == 1 && rdlen == 4)) [
    | inr f ↦ rw (e, read_data) (rw (f, read_data) (inr (_, refl, tt)))
    | inl f ↦
        let here : i + 3 < length pkt = ground arith in
        rw (e, read_data)
          (rw (f, read_data)
            (bind-Returns (index-Returns pkt i (omega arith)) (λ a _.
              bind-Returns (index-Returns pkt (i + 1) (omega arith)) (λ b _.
                bind-Returns (index-Returns pkt (i + 2) (omega arith)) (λ c _.
                  bind-Returns (index-Returns pkt (i + 3) here) (λ d _. inr (_, refl, refl)))))))
  ]
]

read_record-Returns : (pkt : List ℕ) (i : ℕ) → Returns EndsWell (read_record pkt i)
unfolding read_record
read_record-Returns pkt i = elim (Bool-cases (ltb (length pkt) (i + 10))) [
  | inl e ↦ rw (e, read_record) (inl refl)
  | inr e ↦
      let here = ltb→le (length pkt) (i + 10) e in
      rw (e, read_record)
        (bind-Returns (be16-Returns pkt i (omega arith)) (λ qtype _.
          bind-Returns (be16-Returns pkt (i + 8) (omega arith))
            (λ rdlen _. read_data-Returns pkt qtype rdlen (i + 10))))
]

read_answer-Returns :
    (pkt : List ℕ) (i : ℕ) → Returns EndsWell (read_answer (suc (length pkt)) pkt i)
unfolding read_answer
read_answer-Returns pkt i = elim (Bool-cases (ltb (length pkt) (i + 12))) [
  | inl e ↦ rw (e, read_answer) (inl refl)
  | inr e ↦
      let here = ltb→le (length pkt) (i + 12) e in
      rw (e, read_answer)
        (bind-Returns (after_name-Returns pkt i (omega arith)) (λ j _. read_record-Returns pkt j))
]

continue-Returns :
    (rest : ℕ → Outcome (List ℕ))
    → ((j : ℕ) → Returns IsAddress (rest j))
    → (r : Answer) → EndsWell r
    → Returns IsAddress (elim r [ found b ↦ value b | next j ↦ rest j ])
continue-Returns rest k (found b) p = inr (b, refl, p)
continue-Returns rest k (next j) p = k j

read_answers-Returns :
    (k : ℕ) (pkt : List ℕ) (i : ℕ) → Returns IsAddress (read_answers (suc (length pkt)) k pkt i)
unfolding read_answers
read_answers-Returns zero pkt i = inl refl
read_answers-Returns (suc k) pkt i = bind-Returns (read_answer-Returns pkt i) (λ r p.
    continue-Returns (read_answers (suc (length pkt)) k pkt) (read_answers-Returns k pkt) r p)

read_header-Returns : (pkt : List ℕ) (id : ℕ) → Returns Any (read_header pkt id)
unfolding read_header
read_header-Returns pkt id = elim (Bool-cases (ltb (length pkt) 12)) [
  | inl e ↦ rw (e, read_header) (inl refl)
  | inr e ↦
      let here = ltb→le (length pkt) 12 e in
      rw (e, read_header)
        (bind-Returns (be16-Returns pkt 0 (omega arith)) (λ got _. elim (Bool-cases (got == id)) [
          | inr f ↦ rw f (inl refl)
          | inl f ↦ rw f (
              bind-Returns (be16-Returns pkt 2 (omega arith)) (λ flags _.
                elim (Bool-cases (bit_and flags 0x000F == 0)) [
                  | inr g ↦ rw g (inl refl)
                  | inl g ↦ rw g (
                      bind-Returns (be16-Returns pkt 6 (omega arith)) (λ n _.
                        elim (Bool-cases (n == 0)) [
                          | inl z ↦ rw z (inl refl)
                          | inr z ↦ rw z (inr (n, refl, tt))
                        ]))
                ]))
        ]))
]

-- On any packet the parser returns: no index is out of range, its loops end within the fuel of the
-- packet's length and one, and what it finds are the four octets of an address.
pub parse_a_response-Returns :
    (pkt : List ℕ) (expect_id : ℕ) → Returns IsAddress (parse_a_response pkt expect_id)
unfolding parse_a_response
parse_a_response-Returns pkt expect_id = bind-Returns (read_header-Returns pkt expect_id) (λ n _.
    bind-Returns (skip_question-Returns (suc (length pkt)) pkt 12 (omega arith) (omega arith))
      (λ i _. read_answers-Returns n pkt (i + 5)))
