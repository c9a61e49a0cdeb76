-- ===== src/Core/Dns/Reader.antt =====
-- components/esp_smoltcp_glue/src/dns.rs: what a read of the packet gives, where the rest of the
-- packet at an index is known.
use Prim.Native.Nat.{bit_and}
use esp_smoltcp.Common.{
  ℕ, zero, suc, ◌+◌, ◌/◌, ◌%◌, ◌<◌, ◌≡◌, refl, Bool, true, false, ◌&&◌, List, [], ◌∷◌, ◌++◌, length,
  get_elem?, drop, some, arith, ◌==◌, ==_eq, ap,
}
use esp_smoltcp.Core.Outcome.{value, index}
use esp_smoltcp.Core.Dns.{be16}

-- From `i` on, the packet is `rest`.
pub record At (pkt : List ℕ) (i : ℕ) (rest : List ℕ) : Type 0 where
  pub tail : drop i pkt ≡ rest
  pub size : length pkt ≡ i + length rest

pub start_At : (pkt : List ℕ) → At pkt 0 pkt
start_At pkt = record { tail = refl; size = omega arith }

drop_elem :
    (xs : List ℕ) (i b : ℕ) (r : List ℕ)
    → drop i xs ≡ b ∷ r
    → (get_elem? xs i ≡ some b) × (drop (suc i) xs ≡ r)
drop_elem [] zero b r h = absurd (ground arith)
drop_elem [] (suc i) b r h = absurd (ground arith)
drop_elem (x ∷ xs) zero b r h = ground arith
drop_elem (x ∷ xs) (suc i) b r h = drop_elem xs i b r h

pub At-index : {pkt : List ℕ} {i b : ℕ} {r : List ℕ} → At pkt i (b ∷ r) → index pkt i ≡ value b
unfolding index
At-index {pkt} {i} {b} {r} a = rw ((drop_elem pkt i b r a.tail).0, index) refl

pub next_At : {pkt : List ℕ} {i b : ℕ} {r : List ℕ} → At pkt i (b ∷ r) → At pkt (suc i) r
next_At {pkt} {i} {b} {r} a = record {
  tail = (drop_elem pkt i b r a.tail).1;
  size = omega (arith, a.size);
}

pub move_At : {pkt : List ℕ} {i j : ℕ} {r : List ℕ} → i ≡ j → At pkt i r → At pkt j r
move_At e a = rw (← e) a

pub skip_At : {pkt r : List ℕ} {i : ℕ} (xs : List ℕ) → At pkt i (xs ++ r) → At pkt (i + length xs) r
skip_At [] a = move_At (omega arith) a
skip_At (x ∷ xs) a = move_At (omega arith) (skip_At xs (next_At a))

-- The byte after the first.
pub At-index_next :
    {pkt : List ℕ} {i a b : ℕ} {r : List ℕ} → At pkt i (a ∷ b ∷ r) → index pkt (i + 1) ≡ value b
At-index_next {pkt} {i} p = let e : suc i ≡ i + 1 = omega arith in rw (← e) (At-index (next_At p))

pub be16-At :
    {pkt : List ℕ} {i : ℕ} {r : List ℕ} (n : ℕ)
    → At pkt i (n / 256 ∷ n % 256 ∷ r)
    → be16 pkt i ≡ value n
unfolding be16
be16-At {pkt} {i} n p = rw (At-index p) (rw (At-index_next p) (ap value (omega arith)))

-- Facts about a byte below 64, by trying each.
every : ℕ → (ℕ → Bool) → Bool
every zero p = true
every (suc n) p = p n && every n p

every-below : (n : ℕ) (p : ℕ → Bool) (x : ℕ) → every n p ≡ true → x < n → p x ≡ true
unfolding every
every-below zero p x h lt = absurd (omega arith)
every-below (suc n) p x h lt = ground (arith, every-below n p x)

pub length_bits : (l : ℕ) → l < 64 → (bit_and l 0xC0 == 0) ≡ true
unfolding every
length_bits l h = every-below 64 (λ x. bit_and x 0xC0 == 0) l refl h

pub length_bits_ne : (l : ℕ) → l < 64 → (bit_and l 0xC0 == 0xC0) ≡ false
length_bits_ne l h = rw (==_eq _ _ (length_bits l h)) refl

pub pointer_bits : (hi : ℕ) → hi < 64 → (bit_and (0xC0 + hi) 0xC0 == 0xC0) ≡ true
unfolding every
pointer_bits hi h = every-below 64 (λ x. bit_and (0xC0 + x) 0xC0 == 0xC0) hi refl h
