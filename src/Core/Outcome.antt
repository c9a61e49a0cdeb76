-- ===== src/Core/Outcome.antt =====
-- How a Rust function that indexes a slice and loops can end.
use esp_smoltcp.Common.{ℕ, ◌≡◌, refl, ◌⊎◌, none, some, List, get_elem?, arith}

-- `stop` is `return None`, `panic` an index out of range, `hang` a loop that used up its fuel.
pub data Outcome (A : Type 0) : Type 0 where
  value : A → Outcome A
  stop panic hang : Outcome A

infixl 5 ◌>>=◌
abbrev pub ◌>>=◌ : {A B : Type 0} → Outcome A → (A → Outcome B) → Outcome B
value a >>= f = f a
stop >>= f = stop
panic >>= f = panic
hang >>= f = hang

-- `xs[i]`
unfoldable pub index : {A : Type 0} → List A → ℕ → Outcome A
index xs i = elim (get_elem? xs i) [ none ↦ panic | some a ↦ value a ]

-- The function returns: it neither panics nor hangs, and a value has the property.
abbrev pub Returns : {A : Type 0} → (A → Type 0) → Outcome A → Type 0
Returns {A} P o = (o ≡ stop) ⊎ ((a : A) × (o ≡ value a) × P a)

-- The rest of a do block after a step that gives a value.
pub then_value :
    {A B : Type 0} {o : Outcome A} {a : A} (f : A → Outcome B) {r : Outcome B}
    → o ≡ value a
    → f a ≡ r
    → (o >>= f) ≡ r
then_value f e k = rw e k

pub then_inverse :
    {A B : Type 0} (o : Outcome A) (f : A → Outcome B) (b : B)
    → (o >>= f) ≡ value b
    → (a : A) × (o ≡ value a) × (f a ≡ value b)
then_inverse (value a) f b e = (a, refl, e)
then_inverse stop f b e = absurd (ground arith)
then_inverse panic f b e = absurd (ground arith)
then_inverse hang f b e = absurd (ground arith)

pub value_eq : {A : Type 0} {a b : A} → value a ≡ value b → a ≡ b
value_eq e = ground arith
