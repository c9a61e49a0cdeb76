-- ===== src/Core/Dns/Names.antt =====
-- components/esp_smoltcp_glue/src/dns.rs: the loops over the labels of a name, on a name in full.
use Prim.Native.Nat.{bit_and}
use esp_smoltcp.Common.{
  ℕ, zero, suc, ◌+◌, ◌<◌, ◌≡◌, refl, false, List, [], ◌∷◌, ◌++◌, length, All, arith, ◌==◌, lt→ltb,
  append_assoc,
}
use esp_smoltcp.Compat.Inet.{Text}
use esp_smoltcp.Core.Outcome.{Outcome, value, index, then_value}
use esp_smoltcp.Core.Dns.{skip_question, skip_name, after_name}
use esp_smoltcp.Core.Dns.Reader.{
  At, At-index, next_At, move_At, skip_At, length_bits, length_bits_ne, pointer_bits,
}
use esp_smoltcp.Core.Dns.Wire.{name_bytes, IsLabel, Owner, pointer, written, IsOwner, owner_bytes}

-- An index where the packet goes on with `rest`.
abbrev pub Reaches : Outcome ℕ → List ℕ → List ℕ → Type 0
Reaches o pkt rest = (j : ℕ) × (o ≡ value j) × At pkt j rest

pub positive_ne : (n : ℕ) → 0 < n → (n == 0) ≡ false
positive_ne n h = ground arith

-- The next label of a name, and the name's rest.
past_label :
    {pkt : List ℕ} {i : ℕ} (rest : List ℕ) (l : Text) (ls : List Text)
    → At pkt i (name_bytes (l ∷ ls) ++ rest)
    → At pkt (i + (1 + length l)) (name_bytes ls ++ rest)
past_label {pkt} {i} rest l ls a =
    let b : At pkt (suc i) (l ++ (name_bytes ls ++ rest)) =
      rw (← append_assoc l (name_bytes ls) rest) (next_At a) in
    move_At (omega arith) (skip_At l b)

skip_name-name_bytes :
    (n : ℕ) (pkt : List ℕ) (i : ℕ) (ls : List Text) (rest : List ℕ)
    → All IsLabel ls
    → At pkt i (name_bytes ls ++ rest)
    → 0 < n
    → length pkt < n + i
    → Reaches (skip_name n pkt i) pkt (0 ∷ rest)
unfolding skip_name
skip_name-name_bytes zero pkt i ls rest ok a p h = absurd (omega arith)
skip_name-name_bytes (suc n) pkt i [] rest ok a p h =
    let lt : i < length pkt = omega (arith, a.size) in
    (i, rw (lt→ltb i (length pkt) lt, skip_name) (then_value _ (At-index a) refl), a)
skip_name-name_bytes (suc n) pkt i (l ∷ ls) rest ((l_pos, l_small), ok) a p h =
    let lt : i < length pkt = omega (arith, a.size) in
    let (j, e, d) =
      skip_name-name_bytes n pkt (i + (1 + length l)) ls rest ok (past_label rest l ls a)
        (omega arith) (omega arith) in
    (
      j,
      rw (lt→ltb i (length pkt) lt, skip_name)
          (then_value _ (At-index a) (rw (positive_ne (length l) l_pos) e)),
      d,
    )

pub skip_question-name_bytes :
    (n : ℕ) (pkt : List ℕ) (i : ℕ) (ls : List Text) (rest : List ℕ)
    → All IsLabel ls
    → At pkt i (name_bytes ls ++ rest)
    → 0 < n
    → length pkt < n + i
    → Reaches (skip_question n pkt i) pkt (0 ∷ rest)
unfolding skip_question
skip_question-name_bytes zero pkt i ls rest ok a p h = absurd (omega arith)
skip_question-name_bytes (suc n) pkt i [] rest ok a p h =
    let lt : i < length pkt = omega (arith, a.size) in
    (i, rw (lt→ltb i (length pkt) lt, skip_question) (then_value _ (At-index a) refl), a)
skip_question-name_bytes (suc n) pkt i (l ∷ ls) rest ((l_pos, l_small), ok) a p h =
    let lt : i < length pkt = omega (arith, a.size) in
    let (j, e, d) =
      skip_question-name_bytes n pkt (i + (1 + length l)) ls rest ok (past_label rest l ls a)
        (omega arith) (omega arith) in
    (
      j,
      rw (lt→ltb i (length pkt) lt, skip_question)
          (then_value _ (At-index a)
            (rw (positive_ne (length l) l_pos) (rw (length_bits (length l) l_small) e))),
      d,
    )

-- The first byte of a name in full is no pointer.
first_byte :
    {pkt : List ℕ} {i : ℕ} (rest : List ℕ) (ls : List Text)
    → All IsLabel ls
    → At pkt i (name_bytes ls ++ rest)
    → (b : ℕ) × (index pkt i ≡ value b) × ((bit_and b 0xC0 == 0xC0) ≡ false)
first_byte rest [] ok a = (0, At-index a, refl)
first_byte rest (l ∷ ls) (ok, oks) a = (length l, At-index a, length_bits_ne (length l) ok.1)

pub after_name-owner_bytes :
    (pkt : List ℕ) (i : ℕ) (o : Owner) (rest : List ℕ)
    → IsOwner o
    → At pkt i (owner_bytes o ++ rest)
    → Reaches (after_name (suc (length pkt)) pkt i) pkt rest
unfolding after_name
after_name-owner_bytes pkt i (pointer hi lo) rest ok a = (
  i + 2,
  then_value _ (At-index a) (rw (pointer_bits hi ok) refl),
  move_At (omega arith) (next_At (next_At a)),
)
after_name-owner_bytes pkt i (written ls) rest ok a =
    let (b, e, f) = first_byte rest ls ok a in
    let (j, g, d) =
      skip_name-name_bytes (suc (length pkt)) pkt i ls rest ok a (omega arith) (omega arith) in
    (j + 1, then_value _ e (rw f (then_value _ g refl)), move_At (omega arith) (next_At d))
